-- ===== src/Examples/Sales.antt =====
-- Sales of the position of ten shares, filled and refused.
use prime_jennie_runtime.Prelude.{
  ℕ, ◌+◌, ◌-◌, ◌≤◌, ◌≡◌, ◌≢◌, ◌⊎◌, inl, refl, true, false, Option, none, some, [], ◌∷◌, arith,
}
use prime_jennie_runtime.Prelude.Int.{ℤ, ◌+ℤ◌, ◌-ℤ◌, ◌*ℤ◌}
use prime_jennie_runtime.FastLoop.Domain.{ExitDecision, Reason}
use prime_jennie_runtime.FastLoop.ExitRules.{close_all}
use prime_jennie_runtime.KisGateway.Schemas.{answered}
use prime_jennie_runtime.FastLoop.ExitExecutor.{Broker, SystemSnapshot, closes, execute}
use prime_jennie_runtime.FastLoop.ExitExecutor.Outcome.{is_allowed, sold_quantity, execute_accounts}
use prime_jennie_runtime.FastLoop.ExitExecutor.Failures.{
  Attempt, orders_sent, failed_sales_are_bounded,
}
use prime_jennie_runtime.Examples.Fixed.{fixed_point, won}
use prime_jennie_runtime.Examples.Exits.{held, sheet, tick_at}
use prime_jennie_runtime.Examples.Sheets.{morning_sheet, morning_sheet_valid, any_id}
use prime_jennie_runtime.FastLoop.TickLoop.{evaluate_exit_of}
use prime_jennie_runtime.FastLoop.ExitEvaluator.{evaluate_raises}
use prime_jennie_runtime.FastLoop.TickLoop.Assertion.{Turn, live, assertion_holds}
use prime_jennie_runtime.FastLoop.TickLoop.Stops.{stop_sends_order}

-- Seven of ten shares are filled.
abbrev pub partly : Broker ℤ
partly = record {
  sell = answered (record { success = true; order_no = some 8 });
  confirm_order = answered (some (record { filled_qty = 6; avg_price = won 9400 }));
  check_order_status = answered (some (record { filled_qty = 7; avg_price = won 9400 }));
}

abbrev refusing : Broker ℤ
refusing = record {
  sell = answered (record { success = false; order_no = none });
  confirm_order = answered none;
  check_order_status = answered none;
}

abbrev stop_loss : ExitDecision ℤ
stop_loss = close_all Reason.fixed_sl

abbrev pub running : Option SystemSnapshot
running = some (record { stopped = false; dryrun = false })

execute_accounts_example :
    let d = stop_loss in
    let r = execute 3 running held d partly in
    ((r.ordered ≡ none)
      ⊎ ((qty : ℕ) × (r.ordered ≡ some qty)
          × (1 ≤ qty)
          × (qty ≤ 10)
          × (d.should_close ≡ true)
          × (is_allowed running ≡ true)))
    × (r.state.quantity + sold_quantity r ≡ 10)
    × ((r.tracker ≢ closes) ⊎ (r.state.quantity ≡ 0) ⊎ (3 ≤ r.state.exit_fail_count))
execute_accounts_example =
    execute_accounts 3 running held stop_loss partly (omega arith) (omega arith) (omega arith)

abbrev attempt : Attempt ℤ
attempt = record { system = running; decision = stop_loss; broker = refusing }

failed_sales_are_bounded_example :
    orders_sent 3 held (attempt ∷ attempt ∷ attempt ∷ attempt ∷ []) ≤ 3 - 0
failed_sales_are_bounded_example =
    failed_sales_are_bounded 3 held (attempt ∷ attempt ∷ attempt ∷ attempt ∷ []) (omega arith)
      (inl refl, (inl refl, (inl refl, (inl refl, tt))))

-- 9,400 won is below the stop of 9,500 won.
stop_sends_order_example :
    (qty : ℕ) × ((evaluate_exit_of 3 running morning_sheet
        (tick_at 9400)
        none
        0
        partly
        held).ordered
      ≡ some qty)
    × (1 ≤ qty)
    × (qty ≤ 10)
unfolding ◌+ℤ◌ ◌-ℤ◌ ◌*ℤ◌
stop_sends_order_example =
    stop_sends_order any_id 3 running morning_sheet held (tick_at 9400) none 0 partly
      morning_sheet_valid (refl, tt, (refl, (tt, (tt, tt)))) refl (omega arith)

-- Ticks at 10,400, 10,200 and 9,400 won, each with the rules that raise the stop at 3 % and end at the
-- stop of 5 %.
abbrev at_price : ℕ → Turn ℤ
at_price price = record {
  sheet = sheet;
  tick = tick_at price;
  daily_closes = none;
  days = 0;
  system = running;
  broker = refusing;
}

assertion_holds_example :
    evaluate_raises sheet
      (live 3 (at_price 10400 ∷ at_price 10200 ∷ []) held)
      (tick_at 9400)
      none
      none
      0
    ≡ false
assertion_holds_example =
    assertion_holds 3 (at_price 10400 ∷ at_price 10200 ∷ []) held (at_price 9400) refl
