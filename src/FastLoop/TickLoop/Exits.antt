-- ===== src/FastLoop/TickLoop/Exits.antt =====
-- The loops of a tick over the sheets of its ticker (prime_jennie_runtime/fast_loop/tick_loop.py,
-- `_evaluate_forced_liquidation`, `_evaluate_exits`, `_get_daily_closes`, `_business_days_since` and
-- `_process`). A position is the tracker's own object, so what the evaluator and the executor write to
-- it is a `change` of the tracker. `false` beside a state is an exception that ends the tick: the
-- control keys and the fetcher of sheets are read without a guard. The parsing of the tick and the
-- update of the minute bars, which the indicators of the entries read, come before and are left out.
pub mod Reductions
pub mod Safety
pub mod Preserved
use prime_jennie_runtime.Prelude.{
  ℕ, zero, suc, ◌+◌, ◌-◌, ◌/◌, ◌%◌, Bool, true, false, Option, none, some, List, [], ◌∷◌, ltb, leb,
  ◌==◌, if◌then◌else◌,
}
use prime_jennie_runtime.Prelude.Dict.{Dict, lookup, insert}
use prime_jennie_runtime.Prelude.Float.{Float}
use prime_jennie_runtime.Prelude.Time.{Datetime, day, date, wall_in_kst}
use prime_jennie_runtime.KisGateway.Schemas.{Answer, raised, answered}
use prime_jennie_runtime.PositionSheet.{PositionSheet}
use prime_jennie_runtime.FastLoop.Domain.{PositionState, TickData, Reason}
use prime_jennie_runtime.FastLoop.PendingEntry.{is_empty}
use prime_jennie_runtime.FastLoop.ExitRules.{close_all}
use prime_jennie_runtime.FastLoop.ExitEvaluator.{evaluate}
use prime_jennie_runtime.FastLoop.ExitExecutor.{
  SystemSnapshot, Broker, TrackerCall, untouched, persists, closes, Executed, execute,
}
use prime_jennie_runtime.FastLoop.PositionTracker.{
  Tracker, get, sheet_ids_for, persist, close, change,
}
use prime_jennie_runtime.FastLoop.EntryConditions.{Indicators}
use prime_jennie_runtime.FastLoop.EntryPath.{EntryState, Answers, evaluate_pending_entries}

-- `_kst_date`: a naive value is taken for Korean time.
abbrev pub kst_date : Datetime → ℕ
kst_date d = elim d.offset [ none ↦ date d | some _ ↦ wall_in_kst d / day ]

-- `d.weekday()`, 0 for a Monday; 1970-01-01 was a Thursday.
abbrev pub weekday : ℕ → ℕ
weekday d = (d + 3) % 7

-- The weekdays among the `n` days behind a day.
unfoldable pub weekdays_behind : ℕ → ℕ → ℕ
weekdays_behind entry_date zero = 0
weekdays_behind entry_date (suc n) =
    let count = weekdays_behind entry_date n in
    if ltb (weekday (entry_date + suc n)) 5 then suc count else count

unfoldable pub business_days_since : Datetime → Datetime → ℕ
unfolding weekdays_behind
business_days_since entered_at now =
    if leb (kst_date now) (kst_date entered_at)
    then 0
    else weekdays_behind (kst_date entered_at) (kst_date now - kst_date entered_at)

-- What is answered about one held sheet.
pub record ExitAnswers (F : Type 0) : Type 0 where
  pub sheets : Answer (List (PositionSheet F))
  pub system : Option SystemSnapshot
  pub broker : Broker F
  pub tracker_up : Bool

-- What is answered on one tick; without a fetcher of closes, `none`.
pub record TickAnswers (F : Type 0) : Type 0 where
  pub liquidate_armed : Answer Bool
  pub is_forced : Answer Bool
  pub forced : ℕ → ExitAnswers F
  pub daily_closes : Option (Answer (List F))
  pub exits : ℕ → ExitAnswers F
  pub entries : ℕ → Answers F

abbrev pub Cache : Type 0 → Type 0
Cache F = Dict (ℕ × List F)

module _ {F : Type 0} where
  abbrev pub closes_of : Option (ℕ × List F) → Option (List F)
  closes_of none = none
  closes_of (some (fetched_on, prices)) = some prices

  abbrev pub is_from : ℕ → Option (ℕ × List F) → Bool
  is_from today none = false
  is_from today (some (fetched_on, prices)) = fetched_on == today

  unfoldable pub get_daily_closes :
      Option (Answer (List F)) → ℕ → Datetime → Cache F → Option (List F) × Cache F
  unfolding lookup insert
  get_daily_closes fetcher ticker now cache = elim fetcher [
    | none ↦ (none, cache)
    | some answer ↦
        let cached = lookup ticker cache in
        if is_from (kst_date now) cached then (closes_of cached, cache) else elim answer [
          | raised ↦ (closes_of cached, cache)
          | answered prices ↦ (some prices, insert ticker (kst_date now, prices) cache)
        ]
  ]

  -- The calls that the executor makes to the tracker.
  abbrev pub call_tracker : Bool → TrackerCall → ℕ → Tracker F → Tracker F
  call_tracker up untouched i t = t
  call_tracker up persists i t = persist up i t
  call_tracker up closes i t = close up i t

  unfoldable pub settle : Bool → ℕ → Executed F → Tracker F → Tracker F
  unfolding persist close change
  settle up i r t = call_tracker up r.tracker i (change i (λ s. r.state) t)

module _ {F : Type 0} ⦃fl : Float F⦄ where
  unfoldable pub force_sheet : ℕ → ExitAnswers F → ℕ → Tracker F → Tracker F
  unfolding settle get
  force_sheet limit ans i t = elim (get i t) [
    | none ↦ t
    | some s ↦
        settle ans.tracker_up i
          (execute limit ans.system s (close_all Reason.forced_liquidation) ans.broker) t
  ]

  unfoldable pub force_sheets : ℕ → (ℕ → ExitAnswers F) → List ℕ → Tracker F → Tracker F
  unfolding force_sheet
  force_sheets limit answers [] t = t
  force_sheets limit answers (i ∷ ids) t =
      force_sheets limit answers ids (force_sheet limit (answers i) i t)

  unfoldable pub evaluate_forced_liquidation :
      ℕ → TickData F → TickAnswers F → Tracker F → Bool × Tracker F
  unfolding force_sheets sheet_ids_for
  evaluate_forced_liquidation limit tick ans t =
      let ids = sheet_ids_for tick.ticker t in
      if is_empty ids then (true, t) else elim ans.liquidate_armed [
        | raised ↦ (false, t)
        | answered armed ↦
            if armed
            then elim ans.is_forced [
              | raised ↦ (false, t)
              | answered is_member ↦
                  if is_member then (true, force_sheets limit ans.forced ids t) else (true, t)
            ]
            else (true, t)
      ]

  -- The first sheet of the fetcher, evaluated and executed.
  unfoldable pub exit_by_sheet :
      ℕ
      → TickData F
      → Option (List F)
      → ExitAnswers F
      → List (PositionSheet F)
      → PositionState F
      → ℕ
      → Tracker F
      → Tracker F
  unfolding settle persist change business_days_since
  exit_by_sheet limit tick daily_closes ans [] s i t = t
  exit_by_sheet limit tick daily_closes ans (sheet ∷ sheets) s i t =
      let (decision, s') =
        evaluate sheet s tick none daily_closes (business_days_since s.entered_at tick.ts) in
      elim decision [
        | none ↦ persist ans.tracker_up i (change i (λ _. s') t)
        | some d ↦ settle ans.tracker_up i (execute limit ans.system s' d ans.broker) t
      ]

  unfoldable pub exit_sheet :
      ℕ → TickData F → Option (List F) → ExitAnswers F → ℕ → Tracker F → Bool × Tracker F
  unfolding exit_by_sheet get
  exit_sheet limit tick daily_closes ans i t = elim (get i t) [
    | none ↦ (true, t)
    | some s ↦ elim ans.sheets [
      | raised ↦ (false, t)
      | answered sheets ↦ (true, exit_by_sheet limit tick daily_closes ans sheets s i t)
    ]
  ]

  unfoldable pub exit_sheets :
      ℕ → TickData F → Option (List F) → (ℕ → ExitAnswers F) → List ℕ → Tracker F → Bool × Tracker F
  unfolding exit_sheet
  exit_sheets limit tick daily_closes answers [] t = (true, t)
  exit_sheets limit tick daily_closes answers (i ∷ ids) t =
      let (goes_on, t') = exit_sheet limit tick daily_closes (answers i) i t in
      let rest = exit_sheets limit tick daily_closes answers ids t' in
      if goes_on then rest else (false, t')

  unfoldable pub evaluate_exits :
      ℕ → TickData F → TickAnswers F → Tracker F × Cache F → Bool × (Tracker F × Cache F)
  unfolding exit_sheets get_daily_closes sheet_ids_for
  evaluate_exits limit tick ans (t, cache) =
      let ids = sheet_ids_for tick.ticker t in
      if is_empty ids
      then (true, (t, cache))
      else (let (daily_closes, cache') =
            get_daily_closes ans.daily_closes tick.ticker tick.ts cache in
          let (goes_on, t') = exit_sheets limit tick daily_closes ans.exits ids t in
          (goes_on, (t', cache')))

  -- The exits of a tick, and the entries behind them unless an exception has ended the tick.
  unfoldable pub process :
      ℕ
      → ℕ
      → TickData F
      → Indicators F
      → Datetime
      → TickAnswers F
      → EntryState F × Cache F
      → EntryState F × Cache F
  unfolding evaluate_forced_liquidation evaluate_exits evaluate_pending_entries
  process max_exit_failures max_entry_rejects tick ind now ans (s, cache) =
      let (armed_on, t) = evaluate_forced_liquidation max_exit_failures tick ans s.tracker in
      let (exits_on, (t', cache')) = evaluate_exits max_exit_failures tick ans (t, cache) in
      let left : EntryState F = record s { tracker = t' } in
      if armed_on
      then (if exits_on
          then (evaluate_pending_entries max_entry_rejects tick ind now ans.entries left, cache')
          else (left, cache'))
      else (record s { tracker = t }, cache)
