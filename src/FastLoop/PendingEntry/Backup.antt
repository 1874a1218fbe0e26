-- ===== src/FastLoop/PendingEntry/Backup.antt =====
-- What a purge removes, and what a restart brings back.
use prime_jennie_runtime.Prelude.{
  ℕ, ◌+◌, ◌≤◌, ◌<◌, ◌≡◌, leb, ap, refl, sym, ◌∙◌, Bool, true, false, Option, none, some, List, [],
  ◌∷◌, arith, ◌==◌, if◌then◌else◌, Option-cases, inl, inr, All,
}
use prime_jennie_runtime.Prelude.Dict.{
  Dict, is_some, lookup, insert, member, lookup-insert, lookup-erase, Unique, insert-Unique,
  erase-Unique,
}
use prime_jennie_runtime.Prelude.Time.{Datetime, instant}
use prime_jennie_runtime.PositionSheet.{PositionSheet}
use prime_jennie_runtime.FastLoop.PendingEntry.{
  Saved, Queue, index, save, persist, add_sheet, remove, remove_all, expired_ids, purge_expired,
  load, load_from_redis, empty_queue, expired,
}
use prime_jennie_runtime.FastLoop.PendingEntry.Index.{Call, adds, removes, purges, run}

module _ {F : Type 0} where
  lookup-remove :
      (up : Bool) (sid i : ℕ) (q : Queue F)
      → lookup i (remove up sid q).sheets ≡ (if i == sid then none else lookup i q.sheets)
  unfolding remove
  lookup-remove up sid i q = ground (arith, lookup-erase sid i q.sheets)

  lookup-remove_all :
      (up : Bool) (ids : List ℕ) (i : ℕ) (q : Queue F)
      → lookup i (remove_all up ids q).sheets ≡ (if member i ids then none else lookup i q.sheets)
  unfolding remove_all member
  lookup-remove_all up [] i q = refl
  lookup-remove_all up (sid ∷ ids) i q =
      ground (arith, lookup-remove_all up ids i (remove up sid q), lookup-remove up sid i q)

  abbrev pub is_expired : Datetime → Option (PositionSheet F) → Bool
  is_expired now none = false
  is_expired now (some sheet) = expired now sheet

  member-expired_ids :
      (now : Datetime) (sheets : Dict (PositionSheet F)) (i : ℕ)
      → Unique sheets
      → member i (expired_ids now sheets) ≡ is_expired now (lookup i sheets)
  unfolding member expired_ids lookup
  member-expired_ids now [] i u = refl
  member-expired_ids now ((sid, sheet) ∷ sheets) i u =
      ground (arith, member-expired_ids now sheets i u.1)

  -- A purge removes exactly the sheets whose entry window has ended, and no other is touched.
  pub purge_removes_expired :
      (up : Bool) (now : Datetime) (q : Queue F) (i : ℕ)
      → Unique q.sheets
      → lookup i (purge_expired up now q).1.sheets
        ≡ (if is_expired now (lookup i q.sheets) then none else lookup i q.sheets)
  unfolding purge_expired
  purge_removes_expired up now q i u = ground (
    arith,
    lookup-remove_all up (expired_ids now q.sheets) i q,
    member-expired_ids now q.sheets i u,
  )

  -- What a key holds, whether or not it has expired.
  abbrev payload_of : Option (Saved F) → Option (PositionSheet F)
  payload_of none = none
  payload_of (some saved) = saved.payload

  -- The key lives until less than a second before the sheet's entry window ends.
  abbrev LivesFor : Option (Saved F) → PositionSheet F → Type 0
  LivesFor none sheet = Unit {0}
  LivesFor (some saved) sheet = instant sheet.entry.valid_until < saved.expires_at + 1_000_000

  -- Redis holds what the queue holds, and long enough.
  pub record IsBacked (q : Queue F) : Type 0 where
    pub backed : (i : ℕ) → payload_of (lookup i q.redis) ≡ lookup i q.sheets
    pub lives :
        (i : ℕ) (sheet : PositionSheet F)
        → lookup i q.sheets ≡ some sheet
        → LivesFor (lookup i q.redis) sheet
    pub unique : Unique q.redis
    pub own_id :
        (i : ℕ) (sheet : PositionSheet F) → lookup i q.sheets ≡ some sheet → sheet.sheet_id ≡ i

  save-LivesFor :
      (now : ℕ) (sheet : PositionSheet F)
      → instant sheet.entry.valid_until < (save now sheet).expires_at + 1_000_000
  unfolding save
  save-LivesFor now sheet = omega arith

  saved_payload : (now : ℕ) (sheet : PositionSheet F) → (save now sheet).payload ≡ some sheet
  unfolding save
  saved_payload now sheet = refl

  add_sheet-IsBacked :
      (now : ℕ) (sheet : PositionSheet F) (q : Queue F)
      → IsBacked q
      → IsBacked (add_sheet (some now) sheet q).1
  unfolding add_sheet persist
  add_sheet-IsBacked now sheet q v = elim (Option-cases (lookup sheet.sheet_id q.sheets)) [
    | inl fresh ↦
        rw (fresh, add_sheet)
          (record {
            backed = λ i. ground (
              arith,
              v.backed i,
              saved_payload now sheet,
              lookup-insert sheet.sheet_id i sheet q.sheets,
              lookup-insert sheet.sheet_id i (save now sheet) q.redis,
            );
            lives = λ i other h. ground (
              arith,
              v.lives i other,
              save-LivesFor now sheet,
              lookup-insert sheet.sheet_id i sheet q.sheets,
              lookup-insert sheet.sheet_id i (save now sheet) q.redis,
            );
            unique = insert-Unique sheet.sheet_id (save now sheet) q.redis v.unique;
            own_id = λ i other h.
                ground (arith, v.own_id i other, lookup-insert sheet.sheet_id i sheet q.sheets);
          })
    | inr (old, present) ↦ rw (present, add_sheet) v
  ]

  remove-IsBacked : (sid : ℕ) (q : Queue F) → IsBacked q → IsBacked (remove true sid q)
  unfolding remove
  remove-IsBacked sid q v = elim (Option-cases (lookup sid q.sheets)) [
    | inl absent ↦ rw (absent, remove) v
    | inr (sheet, present) ↦
        rw (present, remove)
          (record {
            backed = λ i.
                ground (arith, v.backed i, lookup-erase sid i q.sheets, lookup-erase sid i q.redis);
            lives = λ i other h.
                ground
                  (arith, v.lives i other, lookup-erase sid i q.sheets, lookup-erase sid i q.redis);
            unique = erase-Unique sid q.redis v.unique;
            own_id = λ i other h. ground (arith, v.own_id i other, lookup-erase sid i q.sheets);
          })
  ]

  remove_all-IsBacked : (ids : List ℕ) (q : Queue F) → IsBacked q → IsBacked (remove_all true ids q)
  unfolding remove_all
  remove_all-IsBacked [] q v = v
  remove_all-IsBacked (sid ∷ ids) q v =
      remove_all-IsBacked ids (remove true sid q) (remove-IsBacked sid q v)

  -- Redis answers every call.
  abbrev pub Answered : Call F → Type 0
  Answered (adds up sheet) = is_some up ≡ true
  Answered (removes up sid) = up ≡ true
  Answered (purges up now) = up ≡ true

  run-IsBacked :
      (q : Queue F) (calls : List (Call F))
      → All Answered calls
      → IsBacked q
      → IsBacked (run q calls)
  unfolding run purge_expired
  run-IsBacked q [] h v = v
  run-IsBacked q (adds none sheet ∷ calls) (a, h) v = absurd (cc)
  run-IsBacked q (adds (some now) sheet ∷ calls) (a, h) v =
      run-IsBacked (add_sheet (some now) sheet q).1 calls h (add_sheet-IsBacked now sheet q v)
  run-IsBacked q (removes up sid ∷ calls) (a, h) v =
      run-IsBacked (remove up sid q) calls h (rw a (remove-IsBacked sid q v))
  run-IsBacked q (purges up now ∷ calls) (a, h) v =
      run-IsBacked (purge_expired up now q).1 calls h
        (rw a (remove_all-IsBacked (expired_ids now q.sheets) q v))

  -- A payload stands under the id of its sheet.
  abbrev Own : Dict (Saved F) → Type 0
  Own redis =
      (i : ℕ) (saved : Saved F) (sheet : PositionSheet F)
      → lookup i redis ≡ some saved
      → saved.payload ≡ some sheet
      → sheet.sheet_id ≡ i

  -- What a load at `now` makes of a key.
  abbrev found_at : ℕ → Option (Saved F) → Option (PositionSheet F) → Option (PositionSheet F)
  found_at now none kept = kept
  found_at now (some saved) kept =
      if leb saved.expires_at now
      then kept
      else elim saved.payload [ none ↦ kept | some sheet ↦ some sheet ]

  Own-tail :
      (key : ℕ) (p : Saved F) (rest : Dict (Saved F))
      → Unique ((key, p) ∷ rest)
      → Own ((key, p) ∷ rest)
      → Own rest
  unfolding lookup
  Own-tail key p rest u own i saved sheet h = own i saved sheet (ground arith)

  Own-head :
      (key : ℕ) (p : Saved F) (sheet : PositionSheet F) (rest : Dict (Saved F))
      → Own ((key, p) ∷ rest)
      → p.payload ≡ some sheet
      → sheet.sheet_id ≡ key
  unfolding lookup
  Own-head key p sheet rest own h = own key p sheet (ground arith) h

  abbrev stored_into : PositionSheet F → Queue F → Queue F
  stored_into sheet q = record q {
    sheets = insert sheet.sheet_id sheet q.sheets;
    by_ticker = index sheet.ticker sheet.sheet_id q.by_ticker;
  }

  lookup-load :
      (now : ℕ) (redis : Dict (Saved F)) (q : Queue F) (i : ℕ)
      → Unique redis
      → Own redis
      → lookup i (load now redis q).sheets ≡ found_at now (lookup i redis) (lookup i q.sheets)
  unfolding load lookup
  lookup-load now [] q i u own = refl
  lookup-load now ((key, p) ∷ rest) q i u own = elim (Option-cases p.payload) [
    | inl bad ↦ ground (arith, bad, lookup-load now rest q i u.1 (Own-tail key p rest u own))
    | inr (sheet, good) ↦ ground (
      arith,
      good,
      lookup-load now rest q i u.1 (Own-tail key p rest u own),
      lookup-load now rest (stored_into sheet q) i u.1 (Own-tail key p rest u own),
      lookup-insert sheet.sheet_id i sheet q.sheets,
      Own-head key p sheet rest own good,
    )
  ]

  empty-IsBacked : IsBacked (empty_queue {F = F} [])
  unfolding empty_queue lookup
  empty-IsBacked = record {
    backed = λ i. refl;
    lives = λ i sheet h. tt;
    unique = tt;
    own_id = λ i sheet h. absurd (cc);
  }

  kept_for :
      (now : ℕ) (o : Option (Saved F)) (sheet : PositionSheet F)
      → payload_of o ≡ some sheet
      → LivesFor o sheet
      → now + 1_000_000 ≤ instant sheet.entry.valid_until
      → found_at now o none ≡ some sheet
  kept_for now none sheet h k late = absurd (cc)
  kept_for now (some saved) sheet h k late = ground (arith, h)

  found_payload :
      (now : ℕ) (o : Option (Saved F)) (sheet : PositionSheet F)
      → found_at now o none ≡ some sheet
      → payload_of o ≡ some sheet
  found_payload now none sheet h = absurd (cc)
  found_payload now (some saved) sheet h = ground arith

  -- A restart brings the waiting sheets back: take any calls on a new queue over an empty Redis that
  -- answers every one of them, and a fresh queue that loads that Redis at `now`. A queued sheet whose
  -- entry window lasts for another second at least is there under its id, and whatever is there is
  -- what was queued under that id.
  pub restart_restores :
      (calls : List (Call F)) (now i : ℕ) (sheet : PositionSheet F)
      → All Answered calls
      → let q = run (empty_queue []) calls in
        let fresh = load_from_redis now (empty_queue q.redis) in
        (lookup i q.sheets ≡ some sheet
          → now + 1_000_000 ≤ instant sheet.entry.valid_until
          → lookup i fresh.sheets ≡ some sheet)
        × (lookup i fresh.sheets ≡ some sheet → lookup i q.sheets ≡ some sheet)
  unfolding load_from_redis empty_queue run lookup
  restart_restores calls now i sheet answered =
      let v = run-IsBacked (empty_queue []) calls answered empty-IsBacked in
      let q = run (empty_queue []) calls in
      let loaded =
        lookup-load now q.redis (empty_queue q.redis) i v.unique
          (λ j saved s h k. v.own_id j s (sym (v.backed j) ∙ (ap payload_of h ∙ k))) in
      (
        λ held later.
            loaded
            ∙ kept_for now (lookup i q.redis) sheet (v.backed i ∙ held) (v.lives i sheet held)
                later,
        λ there. sym (v.backed i) ∙ found_payload now (lookup i q.redis) sheet (sym loaded ∙ there),
      )
