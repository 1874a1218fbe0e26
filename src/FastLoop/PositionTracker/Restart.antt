-- ===== src/FastLoop/PositionTracker/Restart.antt =====
-- The tracker against its specification, a restart included.
use prime_jennie_runtime.Prelude.{
  ℕ, ◌≡◌, refl, sym, ap, ◌∙◌, Option, none, some, List, [], ◌∷◌, map, arith, All,
}
use prime_jennie_runtime.Prelude.Dict.{
  Dict, is_some, lookup, insert, member, sorted, lookup-insert, member-sorted, Unique,
}
use prime_jennie_runtime.FastLoop.Domain.{PositionState}
use prime_jennie_runtime.FastLoop.PendingEntry.{ids_of, index}
use prime_jennie_runtime.FastLoop.PositionTracker.{
  Tracker, new_tracker, get, sheet_ids_for, active_sheet_ids, load, load_from_redis,
}
use prime_jennie_runtime.FastLoop.PositionTracker.Specification.{
  Call, Positions, run, no_positions, promised, is_of, IsLawful,
}
use prime_jennie_runtime.FastLoop.PositionTracker.Refinement.{stored, run-Refines, new-Refines}

member-keys : {V : Type 0} (i : ℕ) (d : Dict V) → member i (map (λ e. e.0) d) ≡ is_some (lookup i d)
unfolding member lookup
member-keys i [] = refl
member-keys i ((j, x) ∷ d) = ground (arith, member-keys i d)

module _ {F : Type 0} where
  -- A payload stands under the id of its state.
  abbrev Own : Dict (Option (PositionState F)) → Type 0
  Own redis = (i : ℕ) (s : PositionState F) → lookup i redis ≡ some (some s) → s.sheet_id ≡ i

  abbrev payload :
      Option (Option (PositionState F)) → Option (PositionState F) → Option (PositionState F)
  payload (some (some s)) kept = some s
  payload (some none) kept = kept
  payload none kept = kept

  Own-tail :
      (key : ℕ) (x : Option (PositionState F)) (rest : Dict (Option (PositionState F)))
      → Unique ((key, x) ∷ rest)
      → Own ((key, x) ∷ rest)
      → Own rest
  unfolding lookup
  Own-tail key x rest u own i s h = own i s (ground arith)

  Own-head :
      (key : ℕ) (s : PositionState F) (rest : Dict (Option (PositionState F)))
      → Own ((key, some s) ∷ rest)
      → s.sheet_id ≡ key
  unfolding lookup
  Own-head key s rest own = own key s (ground arith)

  lookup-load :
      (redis : Dict (Option (PositionState F))) (t : Tracker F) (i : ℕ)
      → Unique redis
      → Own redis
      → lookup i (load redis t).states ≡ payload (lookup i redis) (lookup i t.states)
  unfolding load lookup
  lookup-load [] t i u own = refl
  lookup-load ((key, none) ∷ rest) t i u own =
      ground (arith, lookup-load rest t i u.1 (Own-tail key none rest u own))
  lookup-load ((key, some s) ∷ rest) t i u own =
      let stored_into : Tracker F = record t {
        states = insert s.sheet_id s t.states;
        by_ticker = index s.ticker s.sheet_id t.by_ticker;
      } in
      ground (
        arith,
        lookup-load rest stored_into i u.1 (Own-tail key (some s) rest u own),
        lookup-insert s.sheet_id i s t.states,
        Own-head key s rest own,
      )

  unstored :
      (o : Option (PositionState F)) (s : PositionState F) → stored o ≡ some (some s) → o ≡ some s
  unstored o s h = ground arith

  payload-stored : (o : Option (PositionState F)) → payload (stored o) none ≡ o
  payload-stored o = ground arith

  -- The tracker implements its specification. After any calls on a new tracker over an empty Redis,
  -- with Redis answering or not, it returns the live position under every id; the ids that it lists as
  -- active are those of the live positions, and the ids that it lists for a ticker those of the live
  -- positions of that ticker; and a fresh tracker that loads the same Redis returns the position last
  -- saved under every id. The conditions are that a sheet has one ticker and that a change leaves the
  -- id and the ticker of a position alone.
  pub tracker_refines :
      (ticker_of : ℕ → ℕ) (calls : List (Call F)) (ticker i : ℕ)
      → All (IsLawful ticker_of) calls
      → let t = run (new_tracker []) calls in
        let p = promised no_positions calls in
        (get i t ≡ p.live i)
        × (member i (active_sheet_ids t) ≡ is_some (p.live i))
        × (member i (sheet_ids_for ticker t) ≡ is_of ticker (p.live i))
        × (get i (load_from_redis (new_tracker t.redis)) ≡ p.saved i)
  unfolding get active_sheet_ids sheet_ids_for load_from_redis new_tracker lookup
  tracker_refines ticker_of calls ticker i lawful =
      let t = run (new_tracker []) calls in
      let p : Positions F = promised no_positions calls in
      let v =
        run-Refines ticker_of calls (new_tracker []) no_positions lawful (new-Refines ticker_of) in
      let active : member i (sorted (map (λ e. e.0) t.states)) ≡ is_some (lookup i t.states) =
        member-sorted i (map (λ e. e.0) t.states) ∙ member-keys i t.states in
      let own : Own t.redis =
        λ j s h. v.own_saved j s (unstored (p.saved j) s (sym (v.saved j) ∙ h)) in
      (
        v.live i,
        active ∙ ap (λ o. is_some o) (v.live i),
        member-sorted i (ids_of ticker t.by_ticker) ∙ v.indexed ticker i,
        lookup-load t.redis (new_tracker t.redis) i v.unique own
            ∙ ap (λ o. payload o none) (v.saved i)
            ∙ payload-stored (p.saved i),
      )
