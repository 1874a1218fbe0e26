-- ===== src/Examples/Purchases.antt =====
-- A campaign of a million won in four slices.
use prime_jennie_runtime.Prelude.{
  ℕ, ◌*◌, ◌-◌, ◌⊎◌, ◌≤◌, ◌≡◌, refl, true, false, none, some, [], ◌∷◌, arith,
}
use prime_jennie_runtime.Prelude.Int.{ℤ, ◌*ℤ◌}
use prime_jennie_runtime.Dca.State.{Campaign, SliceExecution, CampaignStatus, Trigger}
use prime_jennie_runtime.Dca.Broker.{Broker}
use prime_jennie_runtime.KisGateway.Schemas.{answered}
use prime_jennie_runtime.Dca.Planning.{compute_slice_budget, target_cumulative_for_slice}
use prime_jennie_runtime.Dca.Executor.{execute_slice}
use prime_jennie_runtime.Dca.Executor.Orders.{SendsNothing, order_within_limits}
use prime_jennie_runtime.Dca.Executor.Finish.{
  new_slice, Quoted, simulate, IsFinished, simulation_finishes,
}
use prime_jennie_runtime.Examples.Fixed.{fixed_point, won, thousandths}
use prime_jennie_runtime.Examples.Exits.{at_close}

abbrev pub campaign : Campaign ℤ
campaign = record {
  status = CampaignStatus.active;
  cap_krw = 1000000;
  total_slices = 4;
  accel_open_pct = won 0;
  accel_prev_pct = won 0;
  accel_cooldown_h = 24;
  clamp_pct = thousandths 900;
  per_order_cost_cap = 300000;
  per_day_cost_cap = 300000;
  dry_run = false;
  cumulative_filled_krw = 0;
  cumulative_filled_qty = 0;
  slices_done = 0;
  last_accel_at = none;
  final_tail_done = false;
}

-- 25 shares at 9,990 won, the order going through and filled at once.
abbrev pub broker : Broker ℤ
broker = record {
  get_cash = answered 5000000;
  get_snapshot = answered 10000;
  buy = answered (record { success = true; order_no = some 77 });
  confirm_order = answered (some (record { filled_qty = 25; avg_price = won 9990 }));
  check_order_status = answered none;
}

abbrev first_slice : SliceExecution ℤ
first_slice = new_slice (won 0) 1 Trigger.scheduled

abbrev first_order : SliceExecution ℤ
first_order = (execute_slice (first_slice, campaign) 0 at_close false broker).0

first_quantity : (first_order.intended_qty ≡ some 25) × (first_order.order_no ≡ some 77)
unfolding execute_slice compute_slice_budget target_cumulative_for_slice ◌*ℤ◌
first_quantity = (refl, refl)

order_within_limits_example :
    SendsNothing first_slice first_order
    ⊎ ((qty price cash : ℕ) × (first_order.intended_qty ≡ some qty)
        × (broker.get_snapshot ≡ answered price)
        × (broker.get_cash ≡ answered cash)
        × (1 ≤ qty)
        × (qty * price ≤ 1000000 - 0)
        × (qty * price ≤ 300000)
        × (qty * price ≤ 300000 - 0)
        × (qty * price
            ≤ fixed_point.floor (fixed_point.mul (fixed_point.of_ℕ cash) (thousandths 900))))
order_within_limits_example = order_within_limits first_slice campaign 0 at_close false broker

abbrev quote : Quoted
quote = record { now = at_close; cash = 5000000; price = 10000 }

simulation_finishes_example :
    IsFinished (simulate campaign (quote ∷ quote ∷ quote ∷ quote ∷ quote ∷ []))
simulation_finishes_example =
    simulation_finishes campaign (quote ∷ quote ∷ quote ∷ quote ∷ quote ∷ []) (omega arith)
