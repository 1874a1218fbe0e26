-- ===== src/FastLoop/Consumer/Waiting.antt =====
-- The sheets of one ticker that wait.
use prime_jennie_runtime.Prelude.{
  ℕ, ◌≤◌, ◌≡◌, inl, inr, sym, subst, Bool, Option, List, [], ◌∷◌, length, arith, Option-cases,
}
use prime_jennie_runtime.Prelude.Dict.{Dict, lookup}
use prime_jennie_runtime.Prelude.Float.{Float}
use prime_jennie_runtime.Prelude.Time.{Datetime}
use prime_jennie_runtime.KisGateway.Schemas.{Answer}
use prime_jennie_runtime.PositionSheet.{PositionSheet}
use prime_jennie_runtime.FastLoop.Domain.{TickData}
use prime_jennie_runtime.FastLoop.PendingEntry.{
  Queue, ids_of, add_sheet, remove, remove_all, sheets_of,
}
use prime_jennie_runtime.FastLoop.PendingEntry.AtMostOne.{Single, index-Single, unindex-Single}
use prime_jennie_runtime.FastLoop.EntryConditions.{Indicators}
use prime_jennie_runtime.FastLoop.PositionTracker.{Tracker}
use prime_jennie_runtime.FastLoop.EntryPath.{EntryState, Answers, process_sheet, process_sheets}
use prime_jennie_runtime.FastLoop.EntryPath.Removals.{Removed, process_sheet-Removed}
use prime_jennie_runtime.FastLoop.Cooldown.{RecentStopLoss}
use prime_jennie_runtime.FastLoop.Consumer.{handle}
use prime_jennie_runtime.FastLoop.Consumer.Admission.{Reason, IsClear, handle_accounts}

module _ {F : Type 0} where
  remove-Single :
      (up : Bool) (i : ℕ) (q : Queue F) → Single q.by_ticker → Single (remove up i q).by_ticker
  unfolding remove
  remove-Single up i q h = elim (Option-cases (lookup i q.sheets)) [
    | inl absent ↦ rw (absent, remove) h
    | inr (sheet, present) ↦ rw (present, remove) (unindex-Single sheet.ticker i q.by_ticker h)
  ]

  pub remove_all-Single :
      (up : Bool) (ids : List ℕ) (q : Queue F)
      → Single q.by_ticker
      → Single (remove_all up ids q).by_ticker
  unfolding remove_all
  remove_all-Single up [] q h = h
  remove_all-Single up (i ∷ ids) q h =
      remove_all-Single up ids (remove up i q) (remove-Single up i q h)

  add-Single :
      (up : Option ℕ) (sheet : PositionSheet F) (q : Queue F)
      → ids_of sheet.ticker q.by_ticker ≡ []
      → Single q.by_ticker
      → Single (add_sheet up sheet q).1.by_ticker
  unfolding add_sheet
  add-Single up sheet q alone h = elim (Option-cases (lookup sheet.sheet_id q.sheets)) [
    | inl new ↦ rw (new, add_sheet) (index-Single sheet.ticker sheet.sheet_id q.by_ticker alone h)
    | inr (old, there) ↦ rw (there, add_sheet) h
  ]

  pub handle-Single :
      (subscribes : Bool) (up : Option ℕ) (recent : Answer (Option RecentStopLoss))
      (sheet : PositionSheet F) (t : Tracker F) (q : Queue F)
      → Single q.by_ticker
      → Single (handle subscribes up recent sheet t q).queue.by_ticker
  handle-Single subscribes up recent sheet t q h =
      let (reason, leaves) = handle_accounts subscribes up recent sheet t q in
      elim leaves [
        | inl (entered, stored, _, _) ↦
            let clear : IsClear recent sheet t q =
              subst (λ o. Reason o recent sheet t q) entered reason in
            subst (λ r. Single r.by_ticker) (sym stored) (add-Single up sheet q clear.1 h)
        | inr (_, same, _) ↦ subst (λ r. Single r.by_ticker) (sym same) h
      ]

  Removed-Single :
      (i : ℕ) (q q' : Queue F) → Removed i q q' → Single q.by_ticker → Single q'.by_ticker
  Removed-Single i q q' (inl same) h = subst (λ r. Single r.by_ticker) (sym same) h
  Removed-Single i q q' (inr (up, gone)) h =
      subst (λ r. Single r.by_ticker) (sym gone) (remove-Single up i q h)

module _ {F : Type 0} ⦃fl : Float F⦄ where
  pub process_sheets-Single :
      (limit : ℕ) (tick : TickData F) (ind : Indicators F) (now : Datetime)
      (answers : ℕ → Answers F) (sheets : List (PositionSheet F)) (s : EntryState F)
      → Single s.queue.by_ticker
      → Single (process_sheets limit tick ind now answers sheets s).queue.by_ticker
  unfolding process_sheets
  process_sheets-Single limit tick ind now answers [] s h = h
  process_sheets-Single limit tick ind now answers (sheet ∷ sheets) s h =
      let s' = (process_sheet limit tick ind now (answers sheet.sheet_id) sheet s).1 in
      process_sheets-Single limit tick ind now answers sheets s' (
        Removed-Single sheet.sheet_id s.queue s'.queue
          (process_sheet-Removed limit tick ind now (answers sheet.sheet_id) sheet s) h)

module _ {F : Type 0} where
  pub length-sheets_of :
      (ids : List ℕ) (sheets : Dict (PositionSheet F)) → length (sheets_of ids sheets) ≤ length ids
  unfolding sheets_of
  length-sheets_of [] sheets = omega arith
  length-sheets_of (i ∷ ids) sheets = ground (arith, length-sheets_of ids sheets)
