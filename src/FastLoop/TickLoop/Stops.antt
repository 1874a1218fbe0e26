-- ===== src/FastLoop/TickLoop/Stops.antt =====
-- From a price to an order.
use prime_jennie_runtime.Prelude.{ℕ, ◌≤◌, ◌<◌, ◌≡◌, Bool, true, Option, none, some, List, arith}
use prime_jennie_runtime.Prelude.Float.{Float}
use prime_jennie_runtime.PositionSheet.{PositionSheet}
use prime_jennie_runtime.PositionSheet.Validation.{validate_all}
use prime_jennie_runtime.PositionSheet.Validation.Contents.{IsHit, first_pct, valid_sheet_stops}
use prime_jennie_runtime.FastLoop.Domain.{PositionState, TickData, ExitDecision}
use prime_jennie_runtime.FastLoop.ExitEvaluator.{evaluate}
use prime_jennie_runtime.FastLoop.ExitEvaluator.State.{evaluate-Keeps}
use prime_jennie_runtime.FastLoop.ExitExecutor.{
  SystemSnapshot, Broker, execute, sell_order, sell_quantity, confirm_sell, finish_fill,
  settle_fill, fail_exit,
}
use prime_jennie_runtime.FastLoop.ExitExecutor.Outcome.{is_allowed, sell_quantity_bounds}
use prime_jennie_runtime.FastLoop.TickLoop.{evaluate_exit_of}

module _ {F : Type 0} ⦃fl : Float F⦄ where
  sell_order_sends :
      (limit qty : ℕ) (s : PositionState F) (broker : Broker F)
      → (sell_order limit s qty broker).ordered ≡ some qty
  unfolding sell_order confirm_sell finish_fill settle_fill fail_exit
  sell_order_sends limit qty s broker = ground arith

  execute_sends :
      (limit : ℕ) (system : Option SystemSnapshot) (s : PositionState F) (d : ExitDecision F)
      (broker : Broker F)
      → d.should_close ≡ true
      → is_allowed system ≡ true
      → (execute limit system s d broker).ordered ≡ some (sell_quantity s.quantity d.portion)
  unfolding execute
  execute_sends limit system s d broker closing allowed =
      ground (arith, sell_order_sends limit (sell_quantity s.quantity d.portion) s broker)

  -- From a price to an order: on a tick at or below the stop of a valid sheet, a position with a
  -- share sends a sell order of at least one share and at most the position, where the control
  -- state lets orders through and no breakeven rule of the sheet raises, or has raised, the stop to
  -- a price below the original one.
  pub stop_sends_order :
      (is_well_formed : ℕ → Bool) (limit : ℕ) (system : Option SystemSnapshot)
      (sheet : PositionSheet F) (s : PositionState F) (tick : TickData F) (closes : Option (List F))
      (days : ℕ) (broker : Broker F)
      → validate_all is_well_formed sheet ≡ none
      → IsHit (first_pct sheet.rules) sheet.rules s tick
      → is_allowed system ≡ true
      → 0 < s.quantity
      → (qty : ℕ) × ((evaluate_exit_of limit system sheet tick closes days broker s).ordered
          ≡ some qty)
        × (1 ≤ qty)
        × (qty ≤ s.quantity)
  unfolding evaluate_exit_of
  stop_sends_order is_well_formed limit system sheet s tick closes days broker valid hit allowed
        held =
      let (d, decided, closing) =
        valid_sheet_stops is_well_formed sheet s tick none closes days valid hit in
      let s' = (evaluate sheet s tick none closes days).1 in
      let same = (evaluate-Keeps sheet s tick none closes days).quantity in
      let sends = execute_sends limit system s' d broker closing allowed in
      let (most, least) = sell_quantity_bounds s'.quantity d.portion in
      (
        sell_quantity s'.quantity d.portion,
        rw (decided, evaluate_exit_of) sends,
        omega (arith, same, least),
        omega (arith, same, most),
      )
