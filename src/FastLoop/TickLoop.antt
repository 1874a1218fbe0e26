-- ===== src/FastLoop/TickLoop.antt =====
-- What the tick loop does with one held sheet on a tick (prime_jennie_runtime/fast_loop/tick_loop.py,
-- `_evaluate_forced_liquidation` and `_evaluate_exits`). The sheet that the fetcher finds, the daily
-- closes and the business days since the entry are arguments; events and logs are left out. `none`
-- is a position that the tracker no longer holds.
pub mod Stops
pub mod Assertion
pub mod Exits
use prime_jennie_runtime.Prelude.{
  ℕ, Bool, true, false, ◌&&◌, Option, none, some, List, if◌then◌else◌,
}
use prime_jennie_runtime.Prelude.Float.{Float}
use prime_jennie_runtime.PositionSheet.{PositionSheet}
use prime_jennie_runtime.FastLoop.Domain.{PositionState, TickData, ExitDecision, Reason}
use prime_jennie_runtime.FastLoop.ExitRules.{close_all}
use prime_jennie_runtime.FastLoop.ExitEvaluator.{evaluate}
use prime_jennie_runtime.FastLoop.ExitExecutor.{
  SystemSnapshot, Broker, TrackerCall, Executed, closes, execute,
}

-- What the tracker holds after its call, and the quantity sent to the gateway, if any.
pub record Stepped (F : Type 0) : Type 0 where
  pub position : Option (PositionState F)
  pub ordered : Option ℕ

module _ {F : Type 0} where
  -- `close` drops the state, and the other calls leave it.
  abbrev pub tracked : TrackerCall → PositionState F → Option (PositionState F)
  tracked closes s = none
  tracked _ s = some s

  abbrev pub stepped : Executed F → Stepped F
  stepped r = record { position = tracked r.tracker r.state; ordered = r.ordered }

module _ {F : Type 0} ⦃fl : Float F⦄ where
  -- The body of the loop in `_evaluate_exits`.
  unfoldable pub evaluate_exit_of :
      ℕ
      → Option SystemSnapshot
      → PositionSheet F
      → TickData F
      → Option (List F)
      → ℕ
      → Broker F
      → PositionState F
      → Stepped F
  evaluate_exit_of limit system sheet tick daily_closes days broker s =
      let (decision, s') = evaluate sheet s tick none daily_closes days in
      elim decision [
        | none ↦ record { position = some s'; ordered = none }
        | some d ↦ stepped (execute limit system s' d broker)
      ]

  -- The body of the loop in `_evaluate_forced_liquidation`, behind its two tests.
  unfoldable pub force_exit_of :
      ℕ → Option SystemSnapshot → Bool → Bool → Broker F → PositionState F → Stepped F
  force_exit_of limit system armed is_member broker s =
      if armed && is_member
      then stepped (execute limit system s (close_all Reason.forced_liquidation) broker)
      else record { position = some s; ordered = none }
