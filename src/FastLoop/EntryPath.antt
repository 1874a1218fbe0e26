-- ===== src/FastLoop/EntryPath.antt =====
-- The entry path of a tick (prime_jennie_runtime/fast_loop/tick_loop.py, `_evaluate_pending_entries`):
-- the queue, the evaluator and the executor of entries, and the tracker, together. What the sizer and
-- the gateway answer for a sheet, and whether Redis answers, are arguments. Events, alerts and logs
-- are left out.
pub mod Guards
pub mod Single
pub mod Removals
use prime_jennie_runtime.Prelude.{
  ℕ, suc, Bool, true, false, Option, none, some, List, [], ◌∷◌, leb, if◌then◌else◌,
}
use prime_jennie_runtime.Prelude.Dict.{Dict, lookup, insert, erase}
use prime_jennie_runtime.Prelude.Float.{Float}
use prime_jennie_runtime.Prelude.Time.{Datetime}
use prime_jennie_runtime.PositionSheet.{PositionSheet}
use prime_jennie_runtime.FastLoop.Domain.{PositionState, TickData}
use prime_jennie_runtime.FastLoop.PendingEntry.{Queue, is_empty, remove, snapshot_for_ticker}
use prime_jennie_runtime.FastLoop.EntryConditions.{
  Indicators, Reason, entry_valid_until_expired, EvaluationResult, evaluate,
}
use prime_jennie_runtime.FastLoop.EntryExecutor.{
  OrderRequest, EntryBroker, Entered, Result, gateway_failed, execute,
}
use prime_jennie_runtime.FastLoop.PositionTracker.{Tracker, sheet_ids_for, register}
use prime_jennie_runtime.KisGateway.Schemas.{Answer, raised, answered}

pub record EntryState (F : Type 0) : Type 0 where
  pub queue : Queue F
  pub tracker : Tracker F
  pub entry_reject_counts : Dict ℕ

-- What is answered while one sheet is handled: the sizer, the control state, the gateway, the time of
-- a fill, and Redis to the queue and to the tracker.
pub record Answers (F : Type 0) : Type 0 where
  pub sizer : Answer ℕ
  pub dryrun : Bool
  pub broker : EntryBroker F
  pub filled_at : Datetime
  pub queue_up : Bool
  pub tracker_up : Bool

abbrev pub is_expiry : Reason → Bool
is_expiry entry_valid_until_expired = true
is_expiry _ = false

abbrev pub count_of : ℕ → Dict ℕ → ℕ
count_of sheet_id counts = elim (lookup sheet_id counts) [ none ↦ 0 | some n ↦ n ]

abbrev pub is_gateway_failure : Result → Bool
is_gateway_failure gateway_failed = true
is_gateway_failure _ = false

module _ {F : Type 0} where
  abbrev pub drop_sheet : Bool → ℕ → EntryState F → EntryState F
  drop_sheet up sheet_id s = record s { queue = remove up sheet_id s.queue }

  -- `self._entry_reject_counts.pop(sheet_id, None)` behind the removal.
  abbrev pub finish_sheet : Bool → ℕ → EntryState F → EntryState F
  finish_sheet up sheet_id s = record s {
    queue = remove up sheet_id s.queue;
    entry_reject_counts = erase sheet_id s.entry_reject_counts;
  }

  unfoldable pub count_reject : ℕ → Bool → ℕ → EntryState F → EntryState F
  unfolding remove lookup insert erase
  count_reject max_entry_rejects up sheet_id s =
      let count = suc (count_of sheet_id s.entry_reject_counts) in
      if leb max_entry_rejects count
      then finish_sheet up sheet_id s
      else record s { entry_reject_counts = insert sheet_id count s.entry_reject_counts }

  -- Behind the executor. An exception of the gateway, or of the tracker's Redis after the position is
  -- held in memory, ends the handling of the sheet and leaves it in the queue.
  unfoldable pub after_entry : ℕ → Answers F → ℕ → Entered F → EntryState F → EntryState F
  unfolding register count_reject remove erase
  after_entry max_entry_rejects ans sheet_id r s = elim r.registered [
    | some position ↦
        let held : EntryState F = record s {
          tracker = register ans.tracker_up position s.tracker;
        } in
        if ans.tracker_up then finish_sheet ans.queue_up sheet_id held else held
    | none ↦
        if is_gateway_failure r.result
        then s
        else if r.success
        then finish_sheet ans.queue_up sheet_id s
        else count_reject max_entry_rejects ans.queue_up sheet_id s
  ]

module _ {F : Type 0} ⦃fl : Float F⦄ where
  -- Behind the conditions: the request that was sent, if any, and the state.
  unfoldable pub enter :
      ℕ → Answers F → PositionSheet F → EntryState F → Option OrderRequest × EntryState F
  unfolding execute after_entry
  enter max_entry_rejects ans sheet s = elim ans.sizer [
    | raised ↦ (none, s)
    | answered qty ↦
        if leb qty 0
        then (none, s)
        else (let r = execute ans.dryrun sheet qty ans.filled_at ans.broker in
            (r.ordered, after_entry max_entry_rejects ans sheet.sheet_id r s))
  ]

  unfoldable pub by_result :
      ℕ
      → EvaluationResult
      → Answers F
      → PositionSheet F
      → EntryState F
      → Option OrderRequest × EntryState F
  unfolding enter remove
  by_result max_entry_rejects result ans sheet s =
      if result.passed
      then enter max_entry_rejects ans sheet s
      else if is_expiry result.reason
      then (none, drop_sheet ans.queue_up sheet.sheet_id s)
      else (none, s)

  -- One pass of the loop.
  unfoldable pub process_sheet :
      ℕ
      → TickData F
      → Indicators F
      → Datetime
      → Answers F
      → PositionSheet F
      → EntryState F
      → Option OrderRequest × EntryState F
  unfolding sheet_ids_for evaluate by_result remove
  process_sheet max_entry_rejects tick ind now ans sheet s =
      if is_empty (sheet_ids_for sheet.ticker s.tracker)
      then by_result max_entry_rejects (evaluate sheet tick ind now) ans sheet s
      else (none, drop_sheet ans.queue_up sheet.sheet_id s)

  unfoldable pub process_sheets :
      ℕ
      → TickData F
      → Indicators F
      → Datetime
      → (ℕ → Answers F)
      → List (PositionSheet F)
      → EntryState F
      → EntryState F
  unfolding process_sheet
  process_sheets max_entry_rejects tick ind now answers [] s = s
  process_sheets max_entry_rejects tick ind now answers (sheet ∷ sheets) s =
      process_sheets max_entry_rejects tick ind now answers sheets
        (process_sheet max_entry_rejects tick ind now (answers sheet.sheet_id) sheet s).1

  unfoldable pub evaluate_pending_entries :
      ℕ → TickData F → Indicators F → Datetime → (ℕ → Answers F) → EntryState F → EntryState F
  unfolding snapshot_for_ticker process_sheets
  evaluate_pending_entries max_entry_rejects tick ind now answers s =
      process_sheets max_entry_rejects tick ind now answers
        (snapshot_for_ticker tick.ticker s.queue) s
