-- ===== src/Examples/Entering.antt =====
-- The entry of the morning sheet: ten shares ordered, six and then seven of them filled.
use prime_jennie_runtime.Prelude.{
  ℕ, ◌+◌, ◌%◌, ◌≤◌, ◌<◌, ◌≡◌, ◌≢◌, ◌⊎◌, refl, true, false, none, some,
}
use prime_jennie_runtime.Prelude.Int.{ℤ, ◌+ℤ◌, ◌-ℤ◌, ◌*ℤ◌}
use prime_jennie_runtime.FastLoop.Domain.{PositionState}
use prime_jennie_runtime.KisGateway.Schemas.{answered, raised, OrderStatus}
use prime_jennie_runtime.FastLoop.EntryExecutor.{
  OrderRequest, EntryBroker, filled, align_tick_size, new_position, execute,
}
use prime_jennie_runtime.FastLoop.EntryExecutor.Ticks.{tick_size, align_lem}
use prime_jennie_runtime.FastLoop.EntryExecutor.Accounts.{
  FillOf, entry_accounts, entered_then_stopped,
}
use prime_jennie_runtime.FastLoop.TickLoop.{evaluate_exit_of}
use prime_jennie_runtime.Examples.Fixed.{fixed_point, won}
use prime_jennie_runtime.Examples.Exits.{tick_at}
use prime_jennie_runtime.Examples.Sales.{partly, running}
use prime_jennie_runtime.Examples.Sheets.{at, morning_sheet, morning_sheet_valid, any_id}

align_lem_example :
    (align_tick_size 23477 ≤ 23477)
    × (23477 < align_tick_size 23477 + tick_size 23477)
    × (tick_size (align_tick_size 23477) ≡ tick_size 23477)
    × (align_tick_size 23477 % tick_size (align_tick_size 23477) ≡ 0)
align_lem_example = align_lem 23477

abbrev seven : OrderStatus ℤ
seven = record { filled_qty = 7; avg_price = won 10000 }

abbrev pub entry_broker : EntryBroker ℤ
entry_broker = record {
  buy = answered (record { success = true; order_no = some 5 });
  confirm_order = answered (some (record { filled_qty = 6; avg_price = won 10000 }));
  check_order_status = answered (some seven);
  cancel_order = raised;
}

entry_accounts_example :
    let r = execute false morning_sheet 10 (at 10 1) entry_broker in
    ((r.ordered ≡ none)
      ⊎ ((order : OrderRequest) × (r.ordered ≡ some order)
          × (order.quantity ≡ 10)
          × (order.stock_code ≡ morning_sheet.ticker)
          × (1 ≤ 10)
          × (false ≡ false)))
    × FillOf morning_sheet r r.registered
    × ((r.result ≢ filled) ⊎ (10 ≤ r.filled_qty) ⊎ (r.cancelled ≡ some entry_broker.cancel_order))
entry_accounts_example = entry_accounts false morning_sheet 10 (at 10 1) entry_broker

abbrev entered : PositionState ℤ
entered = new_position morning_sheet (at 10 1) seven (won 0)

entered_then_stopped_example :
    (qty : ℕ) × ((evaluate_exit_of 3 running morning_sheet
        (tick_at 9400)
        none
        0
        partly
        entered).ordered
      ≡ some qty)
    × (1 ≤ qty)
    × (qty ≤ (execute false morning_sheet 10 (at 10 1) entry_broker).filled_qty)
unfolding ◌+ℤ◌ ◌-ℤ◌ ◌*ℤ◌ execute
entered_then_stopped_example =
    entered_then_stopped morning_sheet 10 (at 10 1) entry_broker entered any_id 3 running
      (tick_at 9400) none 0 partly refl morning_sheet_valid (refl, (refl, (tt, (tt, tt)))) refl
