-- ===== src/Dca/Tick/Dates.antt =====
-- The rows of slices by their trade date.
use prime_jennie_runtime.Prelude.{
  ℕ, ◌≡◌, refl, inl, inr, Bool, false, ◌||◌, List, [], ◌∷◌, ◌++◌, All, arith, ◌==◌, Bool-cases,
}
use prime_jennie_runtime.Dca.State.{SliceExecution, Slot}
use prime_jennie_runtime.Dca.Repository.{
  SliceRow, is_pending, is_submitted, has_key, set_slice, delete_stale_pending, fetch_submitted,
  today_settled,
}
use prime_jennie_runtime.Dca.Tick.{Account}

module _ {F : Type 0} where
  unfoldable pub any_on : ℕ → List (SliceRow F) → Bool
  any_on day [] = false
  any_on day (row ∷ rows) = row.trade_date == day || any_on day rows

  -- No two rows of one trade date.
  abbrev pub OneADay : List (SliceRow F) → Type 0
  OneADay [] = Unit {0}
  OneADay (row ∷ rows) = (any_on row.trade_date rows ≡ false) × OneADay rows

  abbrev pub NoPending : List (SliceRow F) → Type 0
  NoPending rows = All (λ row. is_pending row.slice.status ≡ false) rows

  any_on-set_slice :
      (d day : ℕ) (slot : Slot) (s : SliceExecution F) (rows : List (SliceRow F))
      → any_on d (set_slice day slot s rows) ≡ any_on d rows
  unfolding any_on set_slice
  any_on-set_slice d day slot s [] = refl
  any_on-set_slice d day slot s (row ∷ rows) = elim (Bool-cases (has_key day slot row)) [
    | inl here ↦ rw (here, set_slice) refl
    | inr there ↦ rw (there, set_slice, any_on-set_slice d day slot s rows) refl
  ]

  pub set_slice-OneADay :
      (day : ℕ) (slot : Slot) (s : SliceExecution F) (rows : List (SliceRow F))
      → OneADay rows
      → OneADay (set_slice day slot s rows)
  unfolding set_slice
  set_slice-OneADay day slot s [] h = tt
  set_slice-OneADay day slot s (row ∷ rows) (p, h) = elim (Bool-cases (has_key day slot row)) [
    | inl here ↦ rw (here, set_slice) (p, h)
    | inr there ↦
        rw (there, set_slice, any_on-set_slice row.trade_date day slot s rows)
          (p, set_slice-OneADay day slot s rows h)
  ]

  set_slice-NoPending :
      (day : ℕ) (slot : Slot) (s : SliceExecution F) (rows : List (SliceRow F))
      → is_pending s.status ≡ false
      → NoPending rows
      → NoPending (set_slice day slot s rows)
  unfolding set_slice
  set_slice-NoPending day slot s [] e h = tt
  set_slice-NoPending day slot s (row ∷ rows) e (p, h) = elim (Bool-cases (has_key day slot row)) [
    | inl here ↦ rw (here, set_slice) (e, h)
    | inr there ↦ rw (there, set_slice) (p, set_slice-NoPending day slot s rows e h)
  ]

  any_on-delete :
      (d : ℕ) (rows : List (SliceRow F))
      → any_on d rows ≡ false
      → any_on d (delete_stale_pending rows) ≡ false
  unfolding any_on delete_stale_pending
  any_on-delete d [] h = refl
  any_on-delete d (row ∷ rows) h = ground (arith, any_on-delete d rows)

  pub delete-OneADay :
      (rows : List (SliceRow F))
      → OneADay rows
      → OneADay (delete_stale_pending rows) × NoPending (delete_stale_pending rows)
  unfolding delete_stale_pending
  delete-OneADay [] h = (tt, tt)
  delete-OneADay (row ∷ rows) (p, h) =
      let (one, clear) = delete-OneADay rows h in
      elim (Bool-cases (is_pending row.slice.status)) [
        | inl waiting ↦ rw (waiting, delete_stale_pending) (one, clear)
        | inr past ↦
            rw (past, delete_stale_pending)
              ((any_on-delete row.trade_date rows p, one), (past, clear))
      ]

  pub submitted_lem :
      (rows : List (SliceRow F))
      → All (λ row. is_pending row.slice.status ≡ false) (fetch_submitted rows)
  unfolding fetch_submitted
  submitted_lem [] = tt
  submitted_lem (row ∷ rows) = elim (Bool-cases (is_submitted row.slice.status)) [
    | inl sent ↦ rw (sent, fetch_submitted) (ground arith, submitted_lem rows)
    | inr other ↦ rw (other, fetch_submitted) (submitted_lem rows)
  ]

  pub settled_lem :
      (d : ℕ) (rows : List (SliceRow F))
      → NoPending rows
      → today_settled d rows ≡ false
      → any_on d rows ≡ false
  unfolding any_on today_settled
  settled_lem d [] h e = refl
  settled_lem d (row ∷ rows) (p, h) e = ground (arith, settled_lem d rows h)

  any_on-last :
      (d : ℕ) (rows : List (SliceRow F)) (row : SliceRow F)
      → any_on d (rows ++ row ∷ []) ≡ (any_on d rows || row.trade_date == d)
  unfolding any_on
  any_on-last d [] row = ground arith
  any_on-last d (other ∷ rows) row = ground (arith, any_on-last d rows row)

  pub OneADay-last :
      (rows : List (SliceRow F)) (row : SliceRow F)
      → OneADay rows
      → any_on row.trade_date rows ≡ false
      → OneADay (rows ++ row ∷ [])
  unfolding any_on
  OneADay-last [] row h e = (refl, tt)
  OneADay-last (other ∷ rows) row (p, h) e = (
    ground (arith, any_on-last other.trade_date rows row),
    OneADay-last rows row h (ground arith),
  )

  -- Between the reconciliation and the next order.
  abbrev pub Cleared : Account F → Type 0
  Cleared a = OneADay a.slices × NoPending a.slices

  pub set_slice-Cleared :
      (row : SliceRow F) (s : SliceExecution F) (rows : List (SliceRow F))
      → is_pending s.status ≡ false
      → OneADay rows × NoPending rows
      → OneADay (set_slice row.trade_date row.slot s rows)
        × NoPending (set_slice row.trade_date row.slot s rows)
  set_slice-Cleared row s rows e (one, clear) = (
    set_slice-OneADay row.trade_date row.slot s rows one,
    set_slice-NoPending row.trade_date row.slot s rows e clear,
  )
