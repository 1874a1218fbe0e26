-- ===== src/FastLoop/Run.antt =====
-- The fast loop as a whole: the consumer of sheets (prime_jennie_runtime/fast_loop/consumer.py), the
-- ticks (tick_loop.py, `_process`) and the purge of the queue (pending_entry.py) on one queue and one
-- tracker. Between two of the events no handler is under way.
use prime_jennie_runtime.Prelude.{
  ℕ, ◌≤◌, inl, inr, Bool, Option, List, [], ◌∷◌, length, arith, Bool-cases, Option-cases,
}
use prime_jennie_runtime.Prelude.Dict.{Dict, lookup, sorted}
use prime_jennie_runtime.Prelude.Float.{Float}
use prime_jennie_runtime.Prelude.Time.{Datetime}
use prime_jennie_runtime.KisGateway.Schemas.{Answer}
use prime_jennie_runtime.PositionSheet.{PositionSheet}
use prime_jennie_runtime.FastLoop.Domain.{PositionState, TickData}
use prime_jennie_runtime.FastLoop.PendingEntry.{
  Saved, ids_of, expired_ids, purge_expired, snapshot_for_ticker, empty_queue,
}
use prime_jennie_runtime.FastLoop.PendingEntry.AtMostOne.{Single, length-sorted}
use prime_jennie_runtime.FastLoop.EntryConditions.{Indicators}
use prime_jennie_runtime.FastLoop.PositionTracker.{
  Tracker, new_tracker, sheet_ids_for, persist, change,
}
use prime_jennie_runtime.FastLoop.EntryPath.{EntryState, evaluate_pending_entries}
use prime_jennie_runtime.FastLoop.EntryPath.Single.{sheets-Single, close-Single}
use prime_jennie_runtime.FastLoop.Cooldown.{RecentStopLoss}
use prime_jennie_runtime.FastLoop.Consumer.{handle}
use prime_jennie_runtime.FastLoop.Consumer.Waiting.{
  handle-Single, process_sheets-Single, remove_all-Single, length-sheets_of,
}
use prime_jennie_runtime.FastLoop.TickLoop.Exits.{
  TickAnswers, Cache, process, evaluate_forced_liquidation, evaluate_exits,
}
use prime_jennie_runtime.FastLoop.TickLoop.Exits.Preserved.{forced-P, exits-P}

-- The settings of the executor and of the loop.
pub record Settings : Type 0 where
  pub max_exit_failures : ℕ
  pub max_entry_rejects : ℕ
  pub subscribe_on_enqueue : Bool

pub data Event (F : Type 0) : Type 0 where
  published : Option ℕ → Answer (Option RecentStopLoss) → PositionSheet F → Event F
  ticked : TickData F → Indicators F → Datetime → TickAnswers F → Event F
  purged : Bool → Datetime → Event F

module _ {F : Type 0} ⦃fl : Float F⦄ where
  unfoldable pub step : Settings → EntryState F × Cache F → Event F → EntryState F × Cache F
  unfolding handle process purge_expired
  step cfg (s, cache) (published up recent sheet) = (
    record s { queue = (handle cfg.subscribe_on_enqueue up recent sheet s.tracker s.queue).queue },
    cache,
  )
  step cfg (s, cache) (ticked tick ind now ans) =
      process cfg.max_exit_failures cfg.max_entry_rejects tick ind now ans (s, cache)
  step cfg (s, cache) (purged up now) =
      (record s { queue = (purge_expired up now s.queue).1 }, cache)

  unfoldable pub run : Settings → EntryState F × Cache F → List (Event F) → EntryState F × Cache F
  unfolding step
  run cfg s [] = s
  run cfg s (e ∷ events) = run cfg (step cfg s e) events

  -- At most one sheet of a ticker waits, and at most one is held.
  abbrev Singles : EntryState F → Type 0
  Singles s = Single s.queue.by_ticker × Single s.tracker.by_ticker

  entries-Singles :
      (limit : ℕ) (tick : TickData F) (ind : Indicators F) (now : Datetime) (ans : TickAnswers F)
      (s : EntryState F)
      → Singles s
      → Singles (evaluate_pending_entries limit tick ind now ans.entries s)
  unfolding evaluate_pending_entries
  entries-Singles limit tick ind now ans s (waiting, held) =
      let sheets = snapshot_for_ticker tick.ticker s.queue in
      (
        process_sheets-Single limit tick ind now ans.entries sheets s waiting,
        sheets-Single limit tick ind now ans.entries sheets s held,
      )

  Held : Tracker F → Type 0
  Held t = Single t.by_ticker

  change-Held : (i : ℕ) (s : PositionState F) (t : Tracker F) → Held t → Held (change i (λ _. s) t)
  unfolding Held change
  change-Held i s t h = elim (Option-cases (lookup i t.states)) [
    | inl absent ↦ rw (absent, change) h
    | inr (old, present) ↦ rw (present, change) h
  ]

  persist-Held : (up : Bool) (i : ℕ) (t : Tracker F) → Held t → Held (persist up i t)
  unfolding Held persist
  persist-Held up i t h = elim (Option-cases (lookup i t.states)) [
    | inl absent ↦ rw (absent, persist) h
    | inr (s, present) ↦ rw (present, persist) h
  ]

  forced-Held :
      (limit : ℕ) (tick : TickData F) (ans : TickAnswers F) (t : Tracker F)
      → Held t
      → Held (evaluate_forced_liquidation limit tick ans t).1
  forced-Held = forced-P Held change-Held persist-Held (unfold Held in close-Single)

  exits-Held :
      (limit : ℕ) (tick : TickData F) (ans : TickAnswers F) (t : Tracker F) (cache : Cache F)
      → Held t
      → Held (evaluate_exits limit tick ans (t, cache)).1.0
  exits-Held = exits-P Held change-Held persist-Held (unfold Held in close-Single)

  process-Singles :
      (exit_limit entry_limit : ℕ) (tick : TickData F) (ind : Indicators F) (now : Datetime)
      (ans : TickAnswers F) (s : EntryState F) (cache : Cache F)
      → Singles s
      → Singles (process exit_limit entry_limit tick ind now ans (s, cache)).0
  unfolding process Held
  process-Singles exit_limit entry_limit tick ind now ans s cache (waiting, held) =
      let forced = evaluate_forced_liquidation exit_limit tick ans s.tracker in
      let exits = evaluate_exits exit_limit tick ans (forced.1, cache) in
      let held1 = forced-Held exit_limit tick ans s.tracker held in
      let held2 = exits-Held exit_limit tick ans forced.1 cache held1 in
      let left : EntryState F = record s { tracker = exits.1.0 } in
      elim (Bool-cases forced.0) [
        | inr ended ↦ rw (ended, process) (waiting, held1)
        | inl on ↦ elim (Bool-cases exits.0) [
          | inr ended ↦ rw (on, ended, process) (waiting, held2)
          | inl through ↦
              rw (on, through, process)
                (entries-Singles entry_limit tick ind now ans left (waiting, held2))
        ]
      ]

  step-Singles :
      (cfg : Settings) (s : EntryState F) (cache : Cache F) (e : Event F)
      → Singles s
      → Singles (step cfg (s, cache) e).0
  unfolding step purge_expired
  step-Singles cfg s cache (published up recent sheet) (waiting, held) =
      (handle-Single cfg.subscribe_on_enqueue up recent sheet s.tracker s.queue waiting, held)
  step-Singles cfg s cache (ticked tick ind now ans) h =
      process-Singles cfg.max_exit_failures cfg.max_entry_rejects tick ind now ans s cache h
  step-Singles cfg s cache (purged up now) (waiting, held) =
      (remove_all-Single up (expired_ids now s.queue.sheets) s.queue waiting, held)

  run-Singles :
      (cfg : Settings) (events : List (Event F)) (s : EntryState F) (cache : Cache F)
      → Singles s
      → Singles (run cfg (s, cache) events).0
  unfolding run
  run-Singles cfg [] s cache h = h
  run-Singles cfg (e ∷ events) s cache h =
      run-Singles cfg events (step cfg (s, cache) e).0 (step cfg (s, cache) e).1
        (step-Singles cfg s cache e h)

  -- The state behind a start on what Redis holds, before anything is loaded.
  abbrev pub started : Dict (Saved F) → Dict (Option (PositionState F)) → EntryState F
  started queued saved = record {
    queue = empty_queue queued;
    tracker = new_tracker saved;
    entry_reject_counts = [];
  }

  -- Over any sheets of the stream, ticks and purges, beginning with an empty queue and an empty
  -- tracker, at most one sheet of a ticker waits in the queue and at most one position of a ticker is
  -- held by the tracker, whatever the gateway, the control state, the database and Redis answer.
  -- Nothing is said of orders that the tracker has no position of.
  pub one_sheet_a_ticker :
      (cfg : Settings) (queued : Dict (Saved F)) (saved : Dict (Option (PositionState F)))
      (events : List (Event F)) (ticker : ℕ)
      → let s = (run cfg (started queued saved, []) events).0 in
        (length (snapshot_for_ticker ticker s.queue) ≤ 1)
        × (length (sheet_ids_for ticker s.tracker) ≤ 1)
  unfolding snapshot_for_ticker sheet_ids_for empty_queue new_tracker lookup
  one_sheet_a_ticker cfg queued saved events ticker =
      let s = (run cfg (started queued saved, []) events).0 in
      let (waiting, held) =
        run-Singles cfg events (started queued saved) [] (λ k. omega arith, λ k. omega arith) in
      let ids = ids_of ticker s.queue.by_ticker in
      (
        omega (
          arith,
          waiting ticker,
          length-sorted ids,
          length-sheets_of (sorted ids) s.queue.sheets,
        ),
        omega (arith, held ticker, length-sorted (ids_of ticker s.tracker.by_ticker)),
      )
