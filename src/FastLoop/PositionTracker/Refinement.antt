-- ===== src/FastLoop/PositionTracker/Refinement.antt =====
-- Each call of the tracker keeps to its specification.
use prime_jennie_runtime.Prelude.{
  ℕ, ◌≡◌, refl, ◌∙◌, Bool, true, false, Option, none, some, List, [], ◌∷◌, arith, All, ◌==◌,
  Option-cases, inl, inr,
}
use prime_jennie_runtime.Prelude.Dict.{
  lookup, member, lookup-insert, lookup-erase, Unique, insert-Unique, erase-Unique,
}
use prime_jennie_runtime.FastLoop.Domain.{PositionState}
use prime_jennie_runtime.FastLoop.PendingEntry.{ids_of}
use prime_jennie_runtime.FastLoop.PendingEntry.Index.{ids-index, ids-unindex}
use prime_jennie_runtime.FastLoop.PositionTracker.{
  Tracker, new_tracker, encode_state, persist_state, register, persist, close, change,
}
use prime_jennie_runtime.FastLoop.PositionTracker.Specification.{
  Call, registers, persists, closes, changes, Positions, call, run, specified, no_positions,
  promised, is_of, IsLawful,
}

module _ {F : Type 0} where
  abbrev pub stored : Option (PositionState F) → Option (Option (PositionState F))
  stored none = none
  stored (some s) = some (some s)

  pub record Refines (ticker_of : ℕ → ℕ) (t : Tracker F) (p : Positions F) : Type 0 where
    pub live : (i : ℕ) → lookup i t.states ≡ p.live i
    pub saved : (i : ℕ) → lookup i t.redis ≡ stored (p.saved i)
    pub unique : Unique t.redis
    pub own :
        (i : ℕ) (s : PositionState F)
        → p.live i ≡ some s
        → (s.sheet_id ≡ i) × (s.ticker ≡ ticker_of i)
    pub own_saved : (i : ℕ) (s : PositionState F) → p.saved i ≡ some s → s.sheet_id ≡ i
    pub indexed : (k i : ℕ) → member i (ids_of k t.by_ticker) ≡ is_of k (p.live i)

same_ticker : (ticker_of : ℕ → ℕ) (a b : ℕ) → a ≡ b → ticker_of a ≡ ticker_of b
same_ticker ticker_of a b e = rw e

module _ {F : Type 0} (ticker_of : ℕ → ℕ) where
  encode_id : (s : PositionState F) → (encode_state s).sheet_id ≡ s.sheet_id
  unfolding encode_state
  encode_id s = refl

  -- The ticker of a live position is that of its sheet.
  live_ticker :
      (t : Tracker F) (p : Positions F) (k i : ℕ)
      → Refines ticker_of t p
      → is_of k (p.live i) ≡ true
      → ticker_of i ≡ k
  live_ticker t p k i v h = elim (Option-cases (p.live i)) [
    | inl gone ↦ absurd (let e : false ≡ true = rw gone at h in cc)
    | inr (s, here) ↦
        let e : (s.ticker == k) ≡ true = rw here at h in
        let (_, own) = v.own i s here in ground arith
  ]

  register-Refines :
      (up : Bool) (s : PositionState F) (t : Tracker F) (p : Positions F)
      → s.ticker ≡ ticker_of s.sheet_id
      → Refines ticker_of t p
      → Refines ticker_of (register up s t) (specified (registers up s) p)
  unfolding register persist_state
  register-Refines up s t p ticker v = record {
    live = λ i. ground (arith, v.live i, lookup-insert s.sheet_id i s t.states);
    saved =
        λ i. ground (arith, v.saved i, lookup-insert s.sheet_id i (some (encode_state s)) t.redis);
    unique =
        ground (arith, v.unique, insert-Unique s.sheet_id (some (encode_state s)) t.redis v.unique);
    own = λ i r h. ground (arith, ticker, v.own i r);
    own_saved = λ i r h. ground (arith, encode_id s, v.own_saved i r);
    indexed = λ k i. ground (
      arith,
      ticker,
      v.indexed k i,
      live_ticker t p k i v,
      same_ticker ticker_of i s.sheet_id,
      ids-index s.ticker s.sheet_id k i t.by_ticker,
    );
  }

  persist-Refines :
      (up : Bool) (i : ℕ) (t : Tracker F) (p : Positions F)
      → Refines ticker_of t p
      → Refines ticker_of (persist up i t) (specified (persists up i) p)
  unfolding persist persist_state
  persist-Refines up i t p v = elim (Option-cases (p.live i)) [
    | inl gone ↦ rw (v.live i ∙ gone, gone, persist) v
    | inr (s, here) ↦
        let (id, _) = v.own i s here in
        rw (v.live i ∙ here, here, persist)
          (record {
            live = v.live;
            saved = λ j.
                ground (
                  arith,
                  id,
                  v.saved j,
                  lookup-insert s.sheet_id j (some (encode_state s)) t.redis,
                );
            unique = ground (
              arith,
              v.unique,
              insert-Unique s.sheet_id (some (encode_state s)) t.redis v.unique,
            );
            own = v.own;
            own_saved = λ j r h. ground (arith, id, encode_id s, v.own_saved j r);
            indexed = v.indexed;
          })
  ]

  close-Refines :
      (up : Bool) (i : ℕ) (t : Tracker F) (p : Positions F)
      → Refines ticker_of t p
      → Refines ticker_of (close up i t) (specified (closes up i) p)
  unfolding close
  close-Refines up i t p v = elim (Option-cases (p.live i)) [
    | inl gone ↦
        rw (v.live i ∙ gone, gone, close)
          (record {
            live = λ j. ground (arith, v.live j, same_live i j, gone);
            saved = v.saved;
            unique = v.unique;
            own = λ j r h. ground (arith, v.own j r);
            own_saved = v.own_saved;
            indexed = λ k j. ground (arith, v.indexed k j, same_live i j, gone);
          })
    | inr (s, here) ↦
        rw (v.live i ∙ here, here, close)
          (record {
            live = λ j. ground (arith, v.live j, lookup-erase i j t.states);
            saved = λ j. ground (arith, v.saved j, lookup-erase i j t.redis);
            unique = ground (arith, v.unique, erase-Unique i t.redis v.unique);
            own = λ j r h. ground (arith, v.own j r);
            own_saved = λ j r h. ground (arith, v.own_saved j r);
            indexed = λ k j. ground (
              arith,
              v.indexed k j,
              live_ticker t p k j v,
              same_ticker ticker_of j i,
              (v.own i s here).1,
              ids-unindex s.ticker i k j t.by_ticker,
            );
          })
  ]
    where
      same_live : (a b : ℕ) → a ≡ b → p.live a ≡ p.live b
      same_live a b e = rw e

  change-Refines :
      (i : ℕ) (f : PositionState F → PositionState F) (t : Tracker F) (p : Positions F)
      → ((s : PositionState F) → ((f s).sheet_id ≡ s.sheet_id) × ((f s).ticker ≡ s.ticker))
      → Refines ticker_of t p
      → Refines ticker_of (change i f t) (specified (changes i f) p)
  unfolding change
  change-Refines i f t p keeps v = elim (Option-cases (p.live i)) [
    | inl gone ↦
        rw (v.live i ∙ gone, gone, change)
          (record {
            live = λ j. ground (arith, v.live j, same_live i j, gone);
            saved = v.saved;
            unique = v.unique;
            own = λ j r h. ground (arith, v.own j r);
            own_saved = v.own_saved;
            indexed = λ k j. ground (arith, v.indexed k j, same_live i j, gone);
          })
    | inr (s, here) ↦
        let (id, own) = v.own i s here in
        let (same_id, same_of) = keeps s in
        rw (v.live i ∙ here, here, change)
          (record {
            live = λ j. ground (arith, v.live j, lookup-insert i j (f s) t.states);
            saved = v.saved;
            unique = v.unique;
            own = λ j r h.
                ground (arith, id, own, same_id, same_of, v.own j r, same_ticker ticker_of j i);
            own_saved = v.own_saved;
            indexed = λ k j. ground (arith, v.indexed k j, same_live i j, here, same_of);
          })
  ]
    where
      same_live : (a b : ℕ) → a ≡ b → p.live a ≡ p.live b
      same_live a b e = rw e

  call-Refines :
      (c : Call F) (t : Tracker F) (p : Positions F)
      → IsLawful ticker_of c
      → Refines ticker_of t p
      → Refines ticker_of (call c t) (specified c p)
  call-Refines (registers up s) t p lawful v = register-Refines up s t p lawful v
  call-Refines (persists up i) t p lawful v = persist-Refines up i t p v
  call-Refines (closes up i) t p lawful v = close-Refines up i t p v
  call-Refines (changes i f) t p lawful v = change-Refines i f t p lawful v

  pub run-Refines :
      (calls : List (Call F)) (t : Tracker F) (p : Positions F)
      → All (IsLawful ticker_of) calls
      → Refines ticker_of t p
      → Refines ticker_of (run t calls) (promised p calls)
  unfolding run promised
  run-Refines [] t p lawful v = v
  run-Refines (c ∷ calls) t p (l, lawful) v =
      run-Refines calls (call c t) (specified c p) lawful (call-Refines c t p l v)

  pub new-Refines : Refines ticker_of (new_tracker {F = F} []) no_positions
  unfolding new_tracker lookup member
  new-Refines = record {
    live = λ i. refl;
    saved = λ i. refl;
    unique = tt;
    own = λ i s h. absurd (cc);
    own_saved = λ i s h. absurd (cc);
    indexed = λ k i. refl;
  }
