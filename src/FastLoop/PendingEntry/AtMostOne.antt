-- ===== src/FastLoop/PendingEntry/AtMostOne.antt =====
-- Ticker sets with at most one id, in the queue and in the tracker of positions.
use prime_jennie_runtime.Prelude.{
  ℕ, suc, ◌≤◌, ◌≡◌, refl, inl, inr, true, false, List, [], ◌∷◌, length, arith, ◌==◌, if◌then◌else◌,
  Option-cases,
}
use prime_jennie_runtime.Prelude.Dict.{
  Dict, lookup, add, discard, member, sorted, insert_sorted, lookup-insert, lookup-erase,
}
use prime_jennie_runtime.FastLoop.PendingEntry.{ids_of, is_empty, index, unindex}

-- No ticker has two ids.
abbrev pub Single : Dict (List ℕ) → Type 0
Single by_ticker = (k : ℕ) → length (ids_of k by_ticker) ≤ 1

not_empty : (x : ℕ) (xs : List ℕ) → is_empty (insert_sorted x xs) ≡ false
unfolding insert_sorted
not_empty x [] = refl
not_empty x (y ∷ ys) = ground arith

pub empty_sorted : (xs : List ℕ) → is_empty (sorted xs) ≡ true → xs ≡ []
unfolding sorted
empty_sorted [] h = refl
empty_sorted (x ∷ xs) h = absurd (let e = not_empty x (sorted xs) in cc)

length-insert_sorted : (x : ℕ) (xs : List ℕ) → length (insert_sorted x xs) ≡ suc (length xs)
unfolding insert_sorted
length-insert_sorted x [] = refl
length-insert_sorted x (y ∷ ys) = ground (arith, length-insert_sorted x ys)

pub length-sorted : (xs : List ℕ) → length (sorted xs) ≡ length xs
unfolding sorted
length-sorted [] = refl
length-sorted (x ∷ xs) = omega (arith, length-sorted xs, length-insert_sorted x (sorted xs))

ids_index :
    (t i k : ℕ) (bt : Dict (List ℕ))
    → ids_of t bt ≡ []
    → ids_of k (index t i bt) ≡ (if k == t then i ∷ [] else ids_of k bt)
unfolding index add member
ids_index t i k bt e = ground (arith, lookup-insert t k (add i (ids_of t bt)) bt)

pub index-Single :
    (t i : ℕ) (bt : Dict (List ℕ)) → ids_of t bt ≡ [] → Single bt → Single (index t i bt)
index-Single t i bt e h k = ground (arith, ids_index t i k bt e, h k)

length-discard : (x : ℕ) (s : List ℕ) → length (discard x s) ≤ length s
unfolding discard
length-discard x [] = omega arith
length-discard x (y ∷ s) = ground (arith, length-discard x s)

pub unindex-Single : (t i : ℕ) (bt : Dict (List ℕ)) → Single bt → Single (unindex t i bt)
unfolding unindex
unindex-Single t i bt h k = elim (Option-cases (lookup t bt)) [
  | inl absent ↦ ground (arith, h k)
  | inr (ids, present) ↦ ground (
    arith,
    h k,
    h t,
    length-discard i ids,
    lookup-erase t k bt,
    lookup-insert t k (discard i ids) bt,
  )
]
