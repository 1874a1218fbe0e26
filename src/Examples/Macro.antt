-- ===== src/Examples/Macro.antt =====
-- A day on which the won falls by 3 % in the morning.
use prime_jennie_runtime.Prelude.{ℕ, ◌≡◌, refl, inl, true, false, none, some, [], ◌∷◌, All, arith}
use prime_jennie_runtime.Prelude.Int.{ℤ}
use prime_jennie_runtime.SlowLoop.MacroGate.{
  open_gate, closed, MacroGateOutput, MarketSnapshot, RecentMacroRun, PostContext, kst_day,
}
use prime_jennie_runtime.SlowLoop.MacroGate.Latch.{Scheduled, run_day, closed_latches}
use prime_jennie_runtime.Examples.Fixed.{fixed_point, won, thousandths}
use prime_jennie_runtime.Examples.Exits.{at_close}

abbrev bullish : MacroGateOutput ℤ
bullish = record { gate = open_gate; size_multiplier = won 1 }

abbrev shocked : MarketSnapshot ℤ
shocked = record {
  usd_krw_change_abs = thousandths 30;
  kospi_20d_vol = thousandths 200;
  major_sector_drops = [];
  high_impact_geopolitical_count = 0;
  kospi_turnover_ratio = none;
  kospi_spread_ratio = none;
}

abbrev morning : RecentMacroRun ℤ
morning = record {
  macro_run_id = 1;
  generated_at = at_close;
  gate = closed;
  size_multiplier = won 0;
}

abbrev with_table : PostContext ℤ
with_table = record {
  auto_override_disabled = true;
  reversal_guard_disabled = false;
  paper_mode = false;
  lookup = some (morning ∷ [], 2, at_close);
}

abbrev afternoon : ℕ → Scheduled ℤ
afternoon id = record {
  run_id = id;
  at = at_close;
  raw = bullish;
  snapshot = shocked;
  auto_override_disabled = true;
}

closed_latches_example :
    All (λ row. row.gate ≡ closed) (run_day (morning ∷ []) (afternoon 2 ∷ afternoon 3 ∷ []))
closed_latches_example =
    closed_latches (morning ∷ []) (afternoon 2 ∷ afternoon 3 ∷ []) (kst_day at_close)
      ((refl, inl (refl, λ h. omega arith, refl)), ((refl, inl (refl, λ h. omega arith, refl)), tt))
