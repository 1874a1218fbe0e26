-- ===== src/FastLoop/PendingEntry/Index.antt =====
-- The ticker index of the queue agrees with its sheets.
use prime_jennie_runtime.Prelude.{
  ℕ, ◌≡◌, ◌⊎◌, refl, Bool, true, false, not, ◌&&◌, ◌||◌, Option, none, some, List, [], ◌∷◌, arith,
  ◌==◌, if◌then◌else◌, Option-cases, inl, inr,
}
use prime_jennie_runtime.Prelude.Dict.{
  Dict, lookup, insert, add, discard, member, lookup-insert, lookup-erase, member-add,
  member-discard,
}
use prime_jennie_runtime.Prelude.Time.{Datetime}
use prime_jennie_runtime.PositionSheet.{PositionSheet}
use prime_jennie_runtime.FastLoop.PendingEntry.{
  Saved, Queue, ids_of, is_empty, index, unindex, add_sheet, remove, remove_all, expired_ids,
  purge_expired, empty_queue,
}

member-nil : (i : ℕ) (s : List ℕ) → is_empty s ≡ true → member i s ≡ false
unfolding member
member-nil i [] h = refl
member-nil i (x ∷ s) h = cc

pub ids-index :
    (t i t' i' : ℕ) (bt : Dict (List ℕ))
    → member i' (ids_of t' (index t i bt))
      ≡ (if t' == t then i' == i || member i' (ids_of t' bt) else member i' (ids_of t' bt))
unfolding index
ids-index t i t' i' bt =
    ground (arith, lookup-insert t t' (add i (ids_of t bt)) bt, member-add i i' (ids_of t bt))

pub ids-unindex :
    (t i t' i' : ℕ) (bt : Dict (List ℕ))
    → member i' (ids_of t' (unindex t i bt))
      ≡ (if t' == t then not (i' == i) && member i' (ids_of t' bt) else member i' (ids_of t' bt))
unfolding unindex
ids-unindex t i t' i' bt = elim (Option-cases (lookup t bt)) [
  | inl absent ↦ ground (arith, member-nil i' [])
  | inr (ids, present) ↦ ground (
    arith,
    lookup-erase t t' bt,
    lookup-insert t t' (discard i ids) bt,
    member-discard i i' ids,
    member-nil i' (discard i ids),
    member-nil i' [],
  )
]

-- The calls on a queue, each with how Redis answers.
pub data Call (F : Type 0) : Type 0 where
  adds : Option ℕ → PositionSheet F → Call F
  removes : Bool → ℕ → Call F
  purges : Bool → Datetime → Call F

module _ {F : Type 0} where
  -- Whether the sheet found, if any, is of that ticker.
  abbrev pub is_of : ℕ → Option (PositionSheet F) → Bool
  is_of ticker none = false
  is_of ticker (some sheet) = sheet.ticker == ticker

  -- The ticker sets and the sheets tell the same story, and each sheet stands under its own id.
  pub record IsIndexed (q : Queue F) : Type 0 where
    pub indexed : (t i : ℕ) → member i (ids_of t q.by_ticker) ≡ is_of t (lookup i q.sheets)
    pub own_id :
        (i : ℕ) (sheet : PositionSheet F) → lookup i q.sheets ≡ some sheet → sheet.sheet_id ≡ i

  empty-IsIndexed : (redis : Dict (Saved F)) → IsIndexed (empty_queue redis)
  unfolding empty_queue lookup member
  empty-IsIndexed redis = record { indexed = λ t i. refl; own_id = λ i sheet h. absurd (cc) }

  -- Storing a sheet under its own id, where the id is new or the ticker is the same.
  store-IsIndexed :
      (sheet : PositionSheet F) (q r : Queue F)
      → IsIndexed q
      → (lookup sheet.sheet_id q.sheets ≡ none)
        ⊎ (is_of sheet.ticker (lookup sheet.sheet_id q.sheets) ≡ true)
      → r.sheets ≡ insert sheet.sheet_id sheet q.sheets
      → r.by_ticker ≡ index sheet.ticker sheet.sheet_id q.by_ticker
      → IsIndexed r
  store-IsIndexed sheet q r v fresh s b = record {
    indexed = λ t i. ground (
      arith,
      v.indexed t i,
      ids-index sheet.ticker sheet.sheet_id t i q.by_ticker,
      lookup-insert sheet.sheet_id i sheet q.sheets,
    );
    own_id = λ i other h.
        ground (arith, v.own_id i other, lookup-insert sheet.sheet_id i sheet q.sheets);
  }

  add_sheet-IsIndexed :
      (up : Option ℕ) (sheet : PositionSheet F) (q : Queue F)
      → IsIndexed q
      → IsIndexed (add_sheet up sheet q).1
  unfolding add_sheet
  add_sheet-IsIndexed up sheet q v = elim (Option-cases (lookup sheet.sheet_id q.sheets)) [
    | inl fresh ↦ rw (fresh, add_sheet) (store-IsIndexed sheet q _ v (inl fresh) refl refl)
    | inr (old, present) ↦ rw (present, add_sheet) v
  ]

  remove-IsIndexed : (up : Bool) (sid : ℕ) (q : Queue F) → IsIndexed q → IsIndexed (remove up sid q)
  unfolding remove
  remove-IsIndexed up sid q v = elim (Option-cases (lookup sid q.sheets)) [
    | inl absent ↦ rw (absent, remove) v
    | inr (sheet, present) ↦
        rw (present, remove)
          (record {
            indexed = λ t i. ground (
              arith,
              v.indexed t i,
              ids-unindex sheet.ticker sid t i q.by_ticker,
              lookup-erase sid i q.sheets,
            );
            own_id = λ i other h. ground (arith, v.own_id i other, lookup-erase sid i q.sheets);
          })
  ]

  remove_all-IsIndexed :
      (up : Bool) (ids : List ℕ) (q : Queue F) → IsIndexed q → IsIndexed (remove_all up ids q)
  unfolding remove_all
  remove_all-IsIndexed up [] q v = v
  remove_all-IsIndexed up (sid ∷ ids) q v =
      remove_all-IsIndexed up ids (remove up sid q) (remove-IsIndexed up sid q v)

  purge_expired-IsIndexed :
      (up : Bool) (now : Datetime) (q : Queue F)
      → IsIndexed q
      → IsIndexed (purge_expired up now q).1
  unfolding purge_expired
  purge_expired-IsIndexed up now q v = remove_all-IsIndexed up (expired_ids now q.sheets) q v

  unfoldable pub run : Queue F → List (Call F) → Queue F
  run q [] = q
  run q (adds up sheet ∷ calls) = run (add_sheet up sheet q).1 calls
  run q (removes up sid ∷ calls) = run (remove up sid q) calls
  run q (purges up now ∷ calls) = run (purge_expired up now q).1 calls

  run_from-IsIndexed : (q : Queue F) (calls : List (Call F)) → IsIndexed q → IsIndexed (run q calls)
  unfolding run
  run_from-IsIndexed q [] v = v
  run_from-IsIndexed q (adds up sheet ∷ calls) v =
      run_from-IsIndexed (add_sheet up sheet q).1 calls (add_sheet-IsIndexed up sheet q v)
  run_from-IsIndexed q (removes up sid ∷ calls) v =
      run_from-IsIndexed (remove up sid q) calls (remove-IsIndexed up sid q v)
  run_from-IsIndexed q (purges up now ∷ calls) v =
      run_from-IsIndexed (purge_expired up now q).1 calls (purge_expired-IsIndexed up now q v)

  -- After any calls on a new queue, with Redis answering or not, a ticker's set holds exactly the ids
  -- under which a sheet of that ticker is queued, and every sheet stands under its own id.
  pub run-IsIndexed :
      (redis : Dict (Saved F)) (calls : List (Call F)) → IsIndexed (run (empty_queue redis) calls)
  run-IsIndexed redis calls = run_from-IsIndexed (empty_queue redis) calls (empty-IsIndexed redis)
