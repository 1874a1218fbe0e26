-- ===== src/FastLoop/TickLoop/Exits/Safety.antt =====
-- The exits of a tick take away and leave the other positions alone.
use prime_jennie_runtime.Prelude.{
  ℕ, ◌≡◌, ◌∙◌, refl, false, Option, none, some, List, [], ◌∷◌, arith, Option-cases, Bool-cases, inl,
  inr,
}
use prime_jennie_runtime.Prelude.Dict.{lookup, member, sorted, member-sorted}
use prime_jennie_runtime.Prelude.Float.{Float}
use prime_jennie_runtime.KisGateway.Schemas.{Answer-cases}
use prime_jennie_runtime.PositionSheet.{PositionSheet}
use prime_jennie_runtime.FastLoop.Domain.{PositionState, TickData, Reason}
use prime_jennie_runtime.FastLoop.PendingEntry.{ids_of, is_empty}
use prime_jennie_runtime.FastLoop.ExitRules.{close_all}
use prime_jennie_runtime.FastLoop.ExitEvaluator.{evaluate}
use prime_jennie_runtime.FastLoop.ExitEvaluator.State.{evaluate-Keeps}
use prime_jennie_runtime.FastLoop.ExitExecutor.{execute}
use prime_jennie_runtime.FastLoop.PositionTracker.{Tracker, get, sheet_ids_for, persist, change}
use prime_jennie_runtime.FastLoop.TickLoop.Exits.{
  ExitAnswers, TickAnswers, Cache, business_days_since, get_daily_closes, force_sheet, force_sheets,
  evaluate_forced_liquidation, exit_by_sheet, exit_sheet, exit_sheets, evaluate_exits,
}
use prime_jennie_runtime.FastLoop.TickLoop.Exits.Reductions.{
  IsReduced, Reduces, Reduces-refl, Reduces-trans, Touches, Touches-refl, Touches-trans,
  change-Touches, persist-Touches, settle-Touches, execute-IsReduced, IsReduced-trans,
}

module _ {F : Type 0} ⦃fl : Float F⦄ where
  force_sheet-Touches :
      (limit : ℕ) (ans : ExitAnswers F) (i : ℕ) (t : Tracker F)
      → Touches i t (force_sheet limit ans i t)
  unfolding force_sheet get
  force_sheet-Touches limit ans i t = elim (Option-cases (lookup i t.states)) [
    | inl absent ↦ rw (absent, force_sheet, get) (Touches-refl i t)
    | inr (s, held) ↦
        let d = close_all Reason.forced_liquidation in
        rw (held, force_sheet, get)
          (settle-Touches ans.tracker_up i s (execute limit ans.system s d ans.broker) t held
            (execute-IsReduced limit ans.system s d ans.broker))
  ]

  evaluate-IsReduced :
      (sheet : PositionSheet F) (s : PositionState F) (tick : TickData F) (closes : Option (List F))
      (days : ℕ)
      → IsReduced s (evaluate sheet s tick none closes days).1
  evaluate-IsReduced sheet s tick closes days =
      let k = evaluate-Keeps sheet s tick none closes days in
      record {
        quantity = omega (arith, k.quantity);
        sheet_id = k.sheet_id;
        ticker = k.ticker;
        entry_price = k.entry_price;
        entered_at = k.entered_at;
      }

  exit_by_sheet-Touches :
      (limit : ℕ) (tick : TickData F) (closes : Option (List F)) (ans : ExitAnswers F)
      (sheets : List (PositionSheet F)) (s : PositionState F) (i : ℕ) (t : Tracker F)
      → lookup i t.states ≡ some s
      → Touches i t (exit_by_sheet limit tick closes ans sheets s i t)
  unfolding exit_by_sheet
  exit_by_sheet-Touches limit tick closes ans [] s i t held = Touches-refl i t
  exit_by_sheet-Touches limit tick closes ans (sheet ∷ sheets) s i t held =
      let days = business_days_since s.entered_at tick.ts in
      let (decision, s') = evaluate sheet s tick none closes days in
      let less : IsReduced s s' = evaluate-IsReduced sheet s tick closes days in
      elim (Option-cases (evaluate sheet s tick none closes days).0) [
        | inl nothing ↦
            rw (nothing, exit_by_sheet)
              (Touches-trans i t (change i (λ _. s') t)
                (persist ans.tracker_up i (change i (λ _. s') t))
                (change-Touches i s s' t held less)
                (persist-Touches ans.tracker_up i (change i (λ _. s') t)))
        | inr (d, decided) ↦
            let r = execute limit ans.system s' d ans.broker in
            rw (decided, exit_by_sheet)
              (settle-Touches ans.tracker_up i s r t held (
                IsReduced-trans s s' r.state less
                  (execute-IsReduced limit ans.system s' d ans.broker)))
      ]

  exit_sheet-Touches :
      (limit : ℕ) (tick : TickData F) (closes : Option (List F)) (ans : ExitAnswers F) (i : ℕ)
      (t : Tracker F)
      → Touches i t (exit_sheet limit tick closes ans i t).1
  unfolding exit_sheet get
  exit_sheet-Touches limit tick closes ans i t = elim (Option-cases (lookup i t.states)) [
    | inl absent ↦ rw (absent, exit_sheet, get) (Touches-refl i t)
    | inr (s, held) ↦ elim (Answer-cases ans.sheets) [
      | inl failed ↦ rw (held, failed, exit_sheet, get) (Touches-refl i t)
      | inr (sheets, fetched) ↦
          rw (held, fetched, exit_sheet, get)
            (exit_by_sheet-Touches limit tick closes ans sheets s i t held)
    ]
  ]

  -- Every position is reduced, and no position but those of the ids changes.
  abbrev pub TouchesAll : List ℕ → Tracker F → Tracker F → Type 0
  TouchesAll ids t t' =
      (j : ℕ)
      → Reduces (lookup j t.states) (lookup j t'.states)
        × (member j ids ≡ false → lookup j t'.states ≡ lookup j t.states)

  TouchesAll-refl : (ids : List ℕ) (t : Tracker F) → TouchesAll ids t t
  TouchesAll-refl ids t j = (Reduces-refl (lookup j t.states), λ _. refl)

  TouchesAll-step :
      (i : ℕ) (ids : List ℕ) (t t' t'' : Tracker F)
      → Touches i t t'
      → TouchesAll ids t' t''
      → TouchesAll (i ∷ ids) t t''
  unfolding member
  TouchesAll-step i ids t t' t'' h k j = (
    Reduces-trans (lookup j t.states) (lookup j t'.states) (lookup j t''.states) (h j).0 (k j).0,
    λ out. (k j).1 (ground (arith, out)) ∙ (h j).1 (λ e. absurd (ground (arith, out, e))),
  )

  force_sheets-TouchesAll :
      (limit : ℕ) (answers : ℕ → ExitAnswers F) (ids : List ℕ) (t : Tracker F)
      → TouchesAll ids t (force_sheets limit answers ids t)
  unfolding force_sheets
  force_sheets-TouchesAll limit answers [] t = TouchesAll-refl [] t
  force_sheets-TouchesAll limit answers (i ∷ ids) t =
      let t' = force_sheet limit (answers i) i t in
      TouchesAll-step i ids t t' (force_sheets limit answers ids t')
        (force_sheet-Touches limit (answers i) i t) (force_sheets-TouchesAll limit answers ids t')

  exit_sheets-TouchesAll :
      (limit : ℕ) (tick : TickData F) (closes : Option (List F)) (answers : ℕ → ExitAnswers F)
      (ids : List ℕ) (t : Tracker F)
      → TouchesAll ids t (exit_sheets limit tick closes answers ids t).1
  unfolding exit_sheets
  exit_sheets-TouchesAll limit tick closes answers [] t = TouchesAll-refl [] t
  exit_sheets-TouchesAll limit tick closes answers (i ∷ ids) t =
      let step = exit_sheet limit tick closes (answers i) i t in
      let first = exit_sheet-Touches limit tick closes (answers i) i t in
      elim (Bool-cases step.0) [
        | inl on ↦
            rw (on, exit_sheets)
              (TouchesAll-step i ids t step.1 (exit_sheets limit tick closes answers ids step.1).1
                first (exit_sheets-TouchesAll limit tick closes answers ids step.1))
        | inr off ↦
            rw (off, exit_sheets)
              (TouchesAll-step i ids t step.1 step.1 first (TouchesAll-refl ids step.1))
      ]

  sorted-TouchesAll :
      (ids : List ℕ) (t t' : Tracker F) → TouchesAll (sorted ids) t t' → TouchesAll ids t t'
  sorted-TouchesAll ids t t' h j =
      ((h j).0, λ out. (h j).1 (ground (arith, out, member-sorted j ids)))

  forced-TouchesAll :
      (limit : ℕ) (tick : TickData F) (ans : TickAnswers F) (t : Tracker F)
      → TouchesAll (sheet_ids_for tick.ticker t) t (evaluate_forced_liquidation limit tick ans t).1
  unfolding evaluate_forced_liquidation
  forced-TouchesAll limit tick ans t =
      let ids = sheet_ids_for tick.ticker t in
      let same = TouchesAll-refl ids t in
      elim (Bool-cases (is_empty ids)) [
        | inl none_held ↦ rw (none_held, evaluate_forced_liquidation) same
        | inr some_held ↦ elim (Answer-cases ans.liquidate_armed) [
          | inl failed ↦ rw (some_held, failed, evaluate_forced_liquidation) same
          | inr (armed, known) ↦ elim (Bool-cases armed) [
            | inr off ↦ rw (some_held, known, off, evaluate_forced_liquidation) same
            | inl on ↦ elim (Answer-cases ans.is_forced) [
              | inl failed ↦ rw (some_held, known, on, failed, evaluate_forced_liquidation) same
              | inr (is_member, asked) ↦ elim (Bool-cases is_member) [
                | inr other ↦
                    rw (some_held, known, on, asked, other, evaluate_forced_liquidation) same
                | inl listed ↦
                    rw (some_held, known, on, asked, listed, evaluate_forced_liquidation)
                      (force_sheets-TouchesAll limit ans.forced ids t)
              ]
            ]
          ]
        ]
      ]

  exits-TouchesAll :
      (limit : ℕ) (tick : TickData F) (ans : TickAnswers F) (t : Tracker F) (cache : Cache F)
      → TouchesAll (sheet_ids_for tick.ticker t) t (evaluate_exits limit tick ans (t, cache)).1.0
  unfolding evaluate_exits
  exits-TouchesAll limit tick ans t cache =
      let ids = sheet_ids_for tick.ticker t in
      elim (Bool-cases (is_empty ids)) [
        | inl none_held ↦ rw (none_held, evaluate_exits) (TouchesAll-refl ids t)
        | inr some_held ↦
            rw (some_held, evaluate_exits)
              (exit_sheets-TouchesAll limit tick
                (get_daily_closes ans.daily_closes tick.ticker tick.ts cache).0 ans.exits ids t)
      ]

  -- What the exits of a tick may do, in both loops, whatever is answered and where an exception ends
  -- them: a position is closed or keeps its id, ticker, entry price and entry time with a quantity
  -- that is at most as large, none appears, and a position whose id the tracker does not list for the
  -- ticker of the tick stays as it is.
  pub exits_only_reduce :
      (limit : ℕ) (tick : TickData F) (ans : TickAnswers F) (t : Tracker F) (cache : Cache F)
      → let listed = ids_of tick.ticker t.by_ticker in
        TouchesAll listed t (evaluate_forced_liquidation limit tick ans t).1
        × TouchesAll listed t (evaluate_exits limit tick ans (t, cache)).1.0
  unfolding sheet_ids_for
  exits_only_reduce limit tick ans t cache =
      let listed = ids_of tick.ticker t.by_ticker in
      (
        sorted-TouchesAll listed t (evaluate_forced_liquidation limit tick ans t).1
            (forced-TouchesAll limit tick ans t),
        sorted-TouchesAll listed t (evaluate_exits limit tick ans (t, cache)).1.0
            (exits-TouchesAll limit tick ans t cache),
      )
