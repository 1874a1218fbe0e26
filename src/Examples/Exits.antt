-- ===== src/Examples/Exits.antt =====
-- A position of ten shares bought at 10,000 won.
use prime_jennie_runtime.Prelude.{ℕ, ◌≡◌, refl, ◌+◌, ◌*◌, true, false, none, some, [], ◌∷◌, ◌++◌}
use prime_jennie_runtime.Prelude.Int.{ℤ, pos, ◌+ℤ◌, ◌-ℤ◌, ◌*ℤ◌}
use prime_jennie_runtime.Prelude.Time.{Datetime, kst_offset, day, time}
use prime_jennie_runtime.PositionSheet.{
  ExitRule, eod, fixed_sl, breakeven, time_stop, PositionSheet, limit, manual_adopt,
}
use prime_jennie_runtime.FastLoop.Domain.{PositionState, TickData, ExitDecision}
use prime_jennie_runtime.FastLoop.ExitEvaluator.{evaluate_rules, evaluate}
use prime_jennie_runtime.FastLoop.ExitEvaluator.State.{Keeps, evaluate-Keeps}
use prime_jennie_runtime.FastLoop.ExitEvaluator.FirstMatch.{breakeven_shadows_later}
use prime_jennie_runtime.FastLoop.ExitEvaluator.StopLoss.{Sells, stop_loss_closes}
use prime_jennie_runtime.Examples.Fixed.{fixed_point, won, thousandths}

-- 15:30 in Korea on a day of 2026.
abbrev pub at_close : Datetime
at_close = record { wall = 20500 * day + time 15 30; offset = some kst_offset }

abbrev pub held : PositionState ℤ
held = record {
  sheet_id = 1;
  ticker = 5930;
  entry_price = won 10000;
  quantity = 10;
  entered_at = at_close;
  high_watermark = won 10000;
  peak_return_pct = won 0;
  trailing_active = false;
  profit_floor_active = false;
  breakeven_active = false;
  breakeven_sl_price = none;
  scale_out_executed = [];
  death_cross_checked_at = none;
  overextension_triggered = false;
  exit_fail_count = 0;
}

abbrev protected_at_10100 : PositionState ℤ
protected_at_10100 = record held { breakeven_active = true; breakeven_sl_price = some (won 10100) }

abbrev pub tick_at : ℕ → TickData ℤ
tick_at price = record {
  ticker = 5930;
  price = won price;
  ts = at_close;
  rsi_1m = none;
  volume = none;
  bid = none;
  ask = none;
}

-- 5 % is 0.05, and so on.
abbrev pub percent : ℕ → ℤ
percent n = thousandths (n * 10)

abbrev pub breakeven_rule : ExitRule ℤ
breakeven_rule = breakeven (percent 3) (percent 1)

abbrev pub sheet : PositionSheet ℤ
sheet = record {
  sheet_id = 1;
  generated_at = at_close;
  valid_until = at_close;
  ticker = 5930;
  strategy_tag = manual_adopt;
  size = record {
    base_pct = percent 5;
    macro_multiplier = won 1;
    risk_multiplier = won 1;
    final_pct = percent 5;
    max_notional_krw = 10000000;
    max_notional_pct = none;
  };
  entry = record { trigger = limit; price = none; valid_until = at_close; conditions = [] };
  rules = breakeven_rule ∷ fixed_sl (percent 5) ∷ [];
}

stop_loss_closes_example :
    (d : ExitDecision ℤ) × ((evaluate_rules
        ((breakeven_rule ∷ []) ++ fixed_sl (percent 5) ∷ (time_stop eod none ∷ []))
        held
        (tick_at 9400)
        at_close
        none
        0
        (pos 0)).0
      ≡ some d)
    × Sells d
unfolding ◌+ℤ◌ ◌-ℤ◌ ◌*ℤ◌
stop_loss_closes_example =
    stop_loss_closes (tick_at 9400) at_close none 0 (pos 0) (won 9500) refl (breakeven_rule ∷ [])
      (time_stop eod none ∷ []) (percent 5) held refl (refl, tt) tt

evaluate-Keeps_example : Keeps held (evaluate sheet held (tick_at 10400) none none 0).1
evaluate-Keeps_example = evaluate-Keeps sheet held (tick_at 10400) none none 0

-- After 15:20 the time stop behind an active breakeven rule is not reached.
breakeven_shadows_later_example :
    evaluate_rules
      ([] ++ breakeven_rule ∷ (time_stop eod none ∷ []))
      protected_at_10100
      (tick_at 10200)
      at_close
      none
      0
      (percent 2)
    ≡ evaluate_rules
        ([] ++ breakeven_rule ∷ [])
        protected_at_10100
        (tick_at 10200)
        at_close
        none
        0
        (percent 2)
breakeven_shadows_later_example =
    breakeven_shadows_later (tick_at 10200) at_close none 0 (percent 2) [] (time_stop eod none ∷ [])
      [] (percent 3) (percent 1) (won 10100) protected_at_10100 refl refl
