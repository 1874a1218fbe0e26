-- ===== src/FastLoop/EntryPath/Single.antt =====
-- The positions of one ticker.
use prime_jennie_runtime.Prelude.{
  ℕ, ◌≡◌, subst, sym, inl, inr, Bool, some, List, [], ◌∷◌, arith, leb, if◌then◌else◌, Bool-cases,
  Option-cases,
}
use prime_jennie_runtime.Prelude.Dict.{lookup, sorted}
use prime_jennie_runtime.Prelude.Float.{Float}
use prime_jennie_runtime.Prelude.Time.{Datetime}
use prime_jennie_runtime.PositionSheet.{PositionSheet}
use prime_jennie_runtime.FastLoop.Domain.{TickData}
use prime_jennie_runtime.FastLoop.PendingEntry.{ids_of, is_empty, index}
use prime_jennie_runtime.FastLoop.PendingEntry.AtMostOne.{
  Single, empty_sorted, index-Single, unindex-Single,
}
use prime_jennie_runtime.FastLoop.EntryConditions.{Indicators, evaluate}
use prime_jennie_runtime.FastLoop.EntryExecutor.{Entered, execute}
use prime_jennie_runtime.FastLoop.EntryExecutor.Accounts.{FillOf, entry_accounts}
use prime_jennie_runtime.FastLoop.PositionTracker.{Tracker, sheet_ids_for, register, close}
use prime_jennie_runtime.FastLoop.EntryPath.{
  EntryState, Answers, after_entry, count_reject, finish_sheet, is_expiry, is_gateway_failure,
  enter, by_result, process_sheet, process_sheets,
}
use prime_jennie_runtime.KisGateway.Schemas.{Answer-cases}

module _ {F : Type 0} where
  count_reject-tracker :
      (limit : ℕ) (up : Bool) (sheet_id : ℕ) (s : EntryState F)
      → (count_reject limit up sheet_id s).tracker ≡ s.tracker
  unfolding count_reject
  count_reject-tracker limit up sheet_id s = ground arith

  after_entry-Single :
      (limit : ℕ) (ans : Answers F) (sheet : PositionSheet F) (r : Entered F) (s : EntryState F)
      → FillOf sheet r r.registered
      → ids_of sheet.ticker s.tracker.by_ticker ≡ []
      → Single s.tracker.by_ticker
      → Single (after_entry limit ans sheet.sheet_id r s).tracker.by_ticker
  unfolding after_entry register
  after_entry-Single limit ans sheet r s fill free h = elim (Option-cases r.registered) [
    | inl unregistered ↦
        rw (unregistered, after_entry)
          (subst (λ t. Single t.by_ticker) (sym (same limit ans sheet r s)) h)
    | inr (position, entered) ↦
        let facts : FillOf sheet r (some position) = subst (λ x. FillOf sheet r x) entered fill in
        let one : Single (index position.ticker position.sheet_id s.tracker.by_ticker) =
          index-Single position.ticker position.sheet_id s.tracker.by_ticker (rw facts.3 free) h in
        elim (Bool-cases ans.tracker_up) [
          | inl up ↦ rw (entered, up, after_entry) one
          | inr down ↦ rw (entered, down, after_entry) one
        ]
  ]
    where
      same :
          (limit : ℕ) (ans : Answers F) (sheet : PositionSheet F) (r : Entered F) (s : EntryState F)
          → (if is_gateway_failure r.result
              then s
              else if r.success
              then finish_sheet ans.queue_up sheet.sheet_id s
              else count_reject limit ans.queue_up sheet.sheet_id s).tracker
            ≡ s.tracker
      same limit ans sheet r s =
          ground (arith, count_reject-tracker limit ans.queue_up sheet.sheet_id s)

module _ {F : Type 0} ⦃fl : Float F⦄ where
  enter-Single :
      (limit : ℕ) (ans : Answers F) (sheet : PositionSheet F) (s : EntryState F)
      → ids_of sheet.ticker s.tracker.by_ticker ≡ []
      → Single s.tracker.by_ticker
      → Single (enter limit ans sheet s).1.tracker.by_ticker
  unfolding enter
  enter-Single limit ans sheet s free h = elim (Answer-cases ans.sizer) [
    | inl failed ↦ rw (failed, enter) h
    | inr (qty, sized) ↦ elim (Bool-cases (leb qty 0)) [
      | inl nothing ↦ rw (sized, nothing, enter) h
      | inr some_shares ↦
          rw (sized, some_shares, enter)
            (after_entry-Single limit ans sheet
              (execute ans.dryrun sheet qty ans.filled_at ans.broker) s
              (entry_accounts ans.dryrun sheet qty ans.filled_at ans.broker).1 free h)
    ]
  ]

  sheet-Single :
      (limit : ℕ) (tick : TickData F) (ind : Indicators F) (now : Datetime) (ans : Answers F)
      (sheet : PositionSheet F) (s : EntryState F)
      → Single s.tracker.by_ticker
      → Single (process_sheet limit tick ind now ans sheet s).1.tracker.by_ticker
  unfolding process_sheet by_result sheet_ids_for
  sheet-Single limit tick ind now ans sheet s h =
      elim (Bool-cases (is_empty (sorted (ids_of sheet.ticker s.tracker.by_ticker)))) [
        | inr held ↦ rw (held, process_sheet) h
        | inl clear ↦
            let free = empty_sorted (ids_of sheet.ticker s.tracker.by_ticker) clear in
            let result = evaluate sheet tick ind now in
            elim (Bool-cases result.passed) [
              | inl passed ↦
                  rw (clear, passed, process_sheet, by_result)
                    (enter-Single limit ans sheet s free h)
              | inr failed ↦ elim (Bool-cases (is_expiry result.reason)) [
                | inl over ↦ rw (clear, failed, over, process_sheet, by_result) h
                | inr waits ↦ rw (clear, failed, waits, process_sheet, by_result) h
              ]
            ]
      ]

  pub sheets-Single :
      (limit : ℕ) (tick : TickData F) (ind : Indicators F) (now : Datetime)
      (answers : ℕ → Answers F) (sheets : List (PositionSheet F)) (s : EntryState F)
      → Single s.tracker.by_ticker
      → Single (process_sheets limit tick ind now answers sheets s).tracker.by_ticker
  unfolding process_sheets
  sheets-Single limit tick ind now answers [] s h = h
  sheets-Single limit tick ind now answers (sheet ∷ sheets) s h =
      sheets-Single limit tick ind now answers sheets _
        (sheet-Single limit tick ind now (answers sheet.sheet_id) sheet s h)

module _ {F : Type 0} where
  pub close-Single :
      (up : Bool) (i : ℕ) (t : Tracker F) → Single t.by_ticker → Single (close up i t).by_ticker
  unfolding close
  close-Single up i t h = elim (Option-cases (lookup i t.states)) [
    | inl absent ↦ rw (absent, close) h
    | inr (s, present) ↦ rw (present, close) (unindex-Single s.ticker i t.by_ticker h)
  ]
