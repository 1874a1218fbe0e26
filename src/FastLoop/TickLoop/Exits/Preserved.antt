-- ===== src/FastLoop/TickLoop/Exits/Preserved.antt =====
-- A property of the tracker that its calls preserve is preserved by the exits of a tick.
use prime_jennie_runtime.Prelude.{
  ℕ, inl, inr, Bool, Option, none, List, [], ◌∷◌, Option-cases, Bool-cases,
}
use prime_jennie_runtime.Prelude.Dict.{lookup}
use prime_jennie_runtime.Prelude.Float.{Float}
use prime_jennie_runtime.KisGateway.Schemas.{Answer-cases}
use prime_jennie_runtime.PositionSheet.{PositionSheet}
use prime_jennie_runtime.FastLoop.Domain.{PositionState, TickData, Reason}
use prime_jennie_runtime.FastLoop.PendingEntry.{is_empty}
use prime_jennie_runtime.FastLoop.ExitRules.{close_all}
use prime_jennie_runtime.FastLoop.ExitEvaluator.{evaluate}
use prime_jennie_runtime.FastLoop.ExitExecutor.{
  TrackerCall, untouched, persists, closes, Executed, execute,
}
use prime_jennie_runtime.FastLoop.PositionTracker.{
  Tracker, get, sheet_ids_for, persist, close, change,
}
use prime_jennie_runtime.FastLoop.TickLoop.Exits.{
  ExitAnswers, TickAnswers, Cache, business_days_since, get_daily_closes, call_tracker, settle,
  force_sheet, force_sheets, evaluate_forced_liquidation, exit_by_sheet, exit_sheet, exit_sheets,
  evaluate_exits,
}

module _ {F : Type 0} (P : Tracker F → Type 0)
    (change-P : (i : ℕ) (s : PositionState F) (t : Tracker F) → P t → P (change i (λ _. s) t))
    (persist-P : (up : Bool) (i : ℕ) (t : Tracker F) → P t → P (persist up i t))
    (close-P : (up : Bool) (i : ℕ) (t : Tracker F) → P t → P (close up i t)) where
  call_tracker-P :
      (up : Bool) (call : TrackerCall) (i : ℕ) (t : Tracker F) → P t → P (call_tracker up call i t)
  call_tracker-P up untouched i t h = h
  call_tracker-P up persists i t h = persist-P up i t h
  call_tracker-P up closes i t h = close-P up i t h

  settle-P : (up : Bool) (i : ℕ) (r : Executed F) (t : Tracker F) → P t → P (settle up i r t)
  unfolding settle
  settle-P up i r t h = call_tracker-P up r.tracker i _ (change-P i r.state t h)

  force_sheet-P :
      ⦃fl : Float F⦄
      → (limit : ℕ) (ans : ExitAnswers F) (i : ℕ) (t : Tracker F) → P t
      → P (force_sheet limit ans i t)
  unfolding force_sheet get
  force_sheet-P limit ans i t h = elim (Option-cases (lookup i t.states)) [
    | inl absent ↦ rw (absent, force_sheet, get) h
    | inr (s, held) ↦
        rw (held, force_sheet, get)
          (settle-P ans.tracker_up i
            (execute limit ans.system s (close_all Reason.forced_liquidation) ans.broker) t h)
  ]

  force_sheets-P :
      ⦃fl : Float F⦄
      → (limit : ℕ) (answers : ℕ → ExitAnswers F) (ids : List ℕ) (t : Tracker F) → P t
      → P (force_sheets limit answers ids t)
  unfolding force_sheets
  force_sheets-P limit answers [] t h = h
  force_sheets-P limit answers (i ∷ ids) t h =
      force_sheets-P limit answers ids (force_sheet limit (answers i) i t)
        (force_sheet-P limit (answers i) i t h)

  exit_by_sheet-P :
      ⦃fl : Float F⦄
      → (limit : ℕ) (tick : TickData F) (prices : Option (List F)) (ans : ExitAnswers F)
        (sheets : List (PositionSheet F)) (s : PositionState F) (i : ℕ) (t : Tracker F)
      → P t
      → P (exit_by_sheet limit tick prices ans sheets s i t)
  unfolding exit_by_sheet
  exit_by_sheet-P limit tick prices ans [] s i t h = h
  exit_by_sheet-P limit tick prices ans (sheet ∷ sheets) s i t h =
      let (decision, s') =
        evaluate sheet s tick none prices (business_days_since s.entered_at tick.ts) in
      elim (Option-cases decision) [
        | inl nothing ↦
            rw (nothing, exit_by_sheet)
              (persist-P ans.tracker_up i (change i (λ _. s') t) (change-P i s' t h))
        | inr (d, decided) ↦
            rw (decided, exit_by_sheet)
              (settle-P ans.tracker_up i (execute limit ans.system s' d ans.broker) t h)
      ]

  exit_sheet-P :
      ⦃fl : Float F⦄
      → (limit : ℕ) (tick : TickData F) (prices : Option (List F)) (ans : ExitAnswers F) (i : ℕ)
        (t : Tracker F)
      → P t
      → P (exit_sheet limit tick prices ans i t).1
  unfolding exit_sheet get
  exit_sheet-P limit tick prices ans i t h = elim (Option-cases (lookup i t.states)) [
    | inl absent ↦ rw (absent, exit_sheet, get) h
    | inr (s, held) ↦ elim (Answer-cases ans.sheets) [
      | inl failed ↦ rw (held, failed, exit_sheet, get) h
      | inr (sheets, fetched) ↦
          rw (held, fetched, exit_sheet, get) (exit_by_sheet-P limit tick prices ans sheets s i t h)
    ]
  ]

  exit_sheets-P :
      ⦃fl : Float F⦄
      → (limit : ℕ) (tick : TickData F) (prices : Option (List F)) (answers : ℕ → ExitAnswers F)
        (ids : List ℕ) (t : Tracker F)
      → P t
      → P (exit_sheets limit tick prices answers ids t).1
  unfolding exit_sheets
  exit_sheets-P limit tick prices answers [] t h = h
  exit_sheets-P limit tick prices answers (i ∷ ids) t h =
      let step = exit_sheet limit tick prices (answers i) i t in
      let first = exit_sheet-P limit tick prices (answers i) i t h in
      elim (Bool-cases step.0) [
        | inl on ↦ rw (on, exit_sheets) (exit_sheets-P limit tick prices answers ids step.1 first)
        | inr off ↦ rw (off, exit_sheets) first
      ]

  pub forced-P :
      ⦃fl : Float F⦄
      → (limit : ℕ) (tick : TickData F) (ans : TickAnswers F) (t : Tracker F) → P t
      → P (evaluate_forced_liquidation limit tick ans t).1
  unfolding evaluate_forced_liquidation
  forced-P limit tick ans t h =
      let ids = sheet_ids_for tick.ticker t in
      elim (Bool-cases (is_empty ids)) [
        | inl none_held ↦ rw (none_held, evaluate_forced_liquidation) h
        | inr some_held ↦ elim (Answer-cases ans.liquidate_armed) [
          | inl failed ↦ rw (some_held, failed, evaluate_forced_liquidation) h
          | inr (armed, known) ↦ elim (Bool-cases armed) [
            | inr off ↦ rw (some_held, known, off, evaluate_forced_liquidation) h
            | inl on ↦ elim (Answer-cases ans.is_forced) [
              | inl failed ↦ rw (some_held, known, on, failed, evaluate_forced_liquidation) h
              | inr (is_member, asked) ↦ elim (Bool-cases is_member) [
                | inr other ↦ rw (some_held, known, on, asked, other, evaluate_forced_liquidation) h
                | inl listed ↦
                    rw (some_held, known, on, asked, listed, evaluate_forced_liquidation)
                      (force_sheets-P limit ans.forced ids t h)
              ]
            ]
          ]
        ]
      ]

  pub exits-P :
      ⦃fl : Float F⦄
      → (limit : ℕ) (tick : TickData F) (ans : TickAnswers F) (t : Tracker F) (cache : Cache F)
      → P t
      → P (evaluate_exits limit tick ans (t, cache)).1.0
  unfolding evaluate_exits
  exits-P limit tick ans t cache h =
      let ids = sheet_ids_for tick.ticker t in
      elim (Bool-cases (is_empty ids)) [
        | inl none_held ↦ rw (none_held, evaluate_exits) h
        | inr some_held ↦
            rw (some_held, evaluate_exits)
              (exit_sheets-P limit tick
                (get_daily_closes ans.daily_closes tick.ticker tick.ts cache).0 ans.exits ids t h)
      ]
