-- ===== src/SlowLoop/ExitHints/Order.antt =====
-- The order of the exit rules.
use mathlib.Core.List.{Perm}
use mathlib.Core.List.Perm
use prime_jennie_runtime.Prelude.{
  ℕ, ◌≤◌, ◌≡◌, inl, inr, Bool, List, [], ◌∷◌, All, arith, leb, leb→le, Bool-cases,
}
use prime_jennie_runtime.PositionSheet.Raw.{RawRule}
use prime_jennie_runtime.SlowLoop.ExitHints.{order_of, place, sort_by_order}

module _ {F : Type 0} where
  abbrev pub Ordered : List (RawRule F) → Type 0
  Ordered [] = Unit {0}
  Ordered (r ∷ rs) = All (λ s. order_of r ≤ order_of s) rs × Ordered rs

  place-Perm : (r : RawRule F) (rs : List (RawRule F)) → Perm (place r rs) (r ∷ rs)
  unfolding place
  place-Perm r [] = Perm.refl (r ∷ [])
  place-Perm r (s ∷ rs) = elim (Bool-cases (leb (order_of r) (order_of s))) [
    | inl first ↦ rw (first, place) (Perm.refl (r ∷ s ∷ rs))
    | inr later ↦ rw (later, place) (Perm.trans (Perm.cons s (place-Perm r rs)) (Perm.swap r s rs))
  ]

  pub sort-Perm : (rs : List (RawRule F)) → Perm (sort_by_order rs) rs
  unfolding sort_by_order
  sort-Perm [] = Perm.nil
  sort-Perm (r ∷ rs) = Perm.trans (place-Perm r (sort_by_order rs)) (Perm.cons r (sort-Perm rs))

  place-All :
      (P : RawRule F → Type 0) (r : RawRule F) (rs : List (RawRule F))
      → P r
      → All P rs
      → All P (place r rs)
  unfolding place
  place-All P r [] p h = (p, tt)
  place-All P r (s ∷ rs) p h = elim (Bool-cases (leb (order_of r) (order_of s))) [
    | inl first ↦ rw (first, place) (p, h)
    | inr later ↦ rw (later, place) (h.0, place-All P r rs p h.1)
  ]

  All-above :
      (m n : ℕ) (rs : List (RawRule F))
      → m ≤ n
      → All (λ s. n ≤ order_of s) rs
      → All (λ s. m ≤ order_of s) rs
  All-above m n [] l h = tt
  All-above m n (s ∷ rs) l (p, h) = (omega arith, All-above m n rs l h)

  place-Ordered : (r : RawRule F) (rs : List (RawRule F)) → Ordered rs → Ordered (place r rs)
  unfolding place
  place-Ordered r [] h = (tt, tt)
  place-Ordered r (s ∷ rs) (p, h) = elim (Bool-cases (leb (order_of r) (order_of s))) [
    | inl first ↦
        let below = leb→le (order_of r) (order_of s) first in
        rw (first, place) ((below, All-above (order_of r) (order_of s) rs below p), (p, h))
    | inr later ↦
        rw (later, place)
          (place-All (λ x. order_of s ≤ order_of x) r rs (leb_false later) p, place-Ordered r rs h)
  ]
    where
      leb_false : {a b : ℕ} → leb a b ≡ Bool.false → b ≤ a
      leb_false h = ground arith

  pub sort-Ordered : (rs : List (RawRule F)) → Ordered (sort_by_order rs)
  unfolding sort_by_order
  sort-Ordered [] = tt
  sort-Ordered (r ∷ rs) = place-Ordered r (sort_by_order rs) (sort-Ordered rs)
