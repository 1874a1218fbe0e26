-- ===== src/FastLoop/Consumer.antt =====
-- The consumer of published sheets (prime_jennie_runtime/fast_loop/consumer.py,
-- `PositionSheetConsumer._handle`): what it does with one sheet. What the cooldown answers and when
-- the queue persists the sheet, if Redis answers, are arguments. Events and logs are left out, and so is the result of the
-- subscription, a failure of which is only logged.
pub mod Admission
pub mod Waiting
use prime_jennie_runtime.Prelude.{ℕ, Bool, true, false, Option, none, some, List, if◌then◌else◌}
use prime_jennie_runtime.KisGateway.Schemas.{Answer, raised, answered}
use prime_jennie_runtime.PositionSheet.{PositionSheet}
use prime_jennie_runtime.FastLoop.PendingEntry.{Queue, is_empty, contains_ticker, add_sheet}
use prime_jennie_runtime.FastLoop.PositionTracker.{Tracker, sheet_ids_for}
use prime_jennie_runtime.FastLoop.Cooldown.{RecentStopLoss}

-- The reasons of `_emit_entry_rejected`, and the end of the handler.
pub data Handled : Type 0 where
  already_holding ticker_pending recent_stoploss_cooldown sheet_id_in_queue enqueued : Handled

-- The ticker that is subscribed, if any.
pub record Consumption (F : Type 0) : Type 0 where
  pub outcome : Handled
  pub queue : Queue F
  pub subscribed : Option ℕ

-- `recent is not None`, where an exception lets the sheet through.
abbrev pub in_cooldown : Answer (Option RecentStopLoss) → Bool
in_cooldown raised = false
in_cooldown (answered none) = false
in_cooldown (answered (some recent)) = true

module _ {F : Type 0} where
  abbrev pub rejected : Handled → Queue F → Consumption F
  rejected reason q = record { outcome = reason; queue = q; subscribed = none }

  -- Steps 4 and 5.
  unfoldable pub enqueue : Bool → Option ℕ → PositionSheet F → Queue F → Consumption F
  unfolding add_sheet
  enqueue subscribe_on_enqueue persisted_at sheet q =
      let (added, q') = add_sheet persisted_at sheet q in
      if added
      then record {
        outcome = enqueued;
        queue = q';
        subscribed = if subscribe_on_enqueue then some sheet.ticker else none;
      }
      else rejected sheet_id_in_queue q'

  unfoldable pub handle :
      Bool
      → Option ℕ
      → Answer (Option RecentStopLoss)
      → PositionSheet F
      → Tracker F
      → Queue F
      → Consumption F
  unfolding sheet_ids_for contains_ticker enqueue
  handle subscribe_on_enqueue persisted_at recent sheet t q =
      if is_empty (sheet_ids_for sheet.ticker t)
      then (if contains_ticker sheet.ticker q
          then rejected ticker_pending q
          else if in_cooldown recent
          then rejected recent_stoploss_cooldown q
          else enqueue subscribe_on_enqueue persisted_at sheet q)
      else rejected already_holding q
