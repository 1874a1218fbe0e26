-- ===== src/SlowLoop/Selection/Survivors.antt =====
-- Who is selected, and in which order.
use mathlib.Core.List.{Perm, Mem, filter, mem-filter}
use mathlib.Core.List.Perm
use prime_jennie_runtime.Prelude.{
  ℕ, ◌≡◌, ◌↔◌, refl, ap, sym, subst, ◌⊎◌, inl, inr, Bool, true, false, Option, List, [], ◌∷◌, All,
  arith, Bool-cases,
}
use prime_jennie_runtime.Prelude.Dict.{Dict}
use prime_jennie_runtime.Prelude.Float.{Float, lt}
use prime_jennie_runtime.SlowLoop.Selection.{
  in_previous, survives, survivors, place, sort_falling, select_with_hysteresis,
}

is_true? : (b : Bool) → Dec (b ≡ true)
is_true? true = yes refl
is_true? false = no (λ h. absurd (cc))

module _ {F : Type 0} ⦃fl : Float F⦄ where
  -- Each score is at least every one behind it.
  abbrev pub Falling : Dict F → Type 0
  Falling [] = Unit {0}
  Falling (score ∷ scores) = All (λ other. fl.le other.1 score.1 ≡ true) scores × Falling scores

  place-Perm : (score : ℕ × F) (scores : Dict F) → Perm (place score scores) (score ∷ scores)
  unfolding place
  place-Perm score [] = Perm.refl (score ∷ [])
  place-Perm score (other ∷ scores) = elim (Bool-cases (lt score.1 other.1)) [
    | inl below ↦
        rw (below, place)
          (Perm.trans (Perm.cons other (place-Perm score scores)) (Perm.swap score other scores))
    | inr above ↦ rw (above, place) (Perm.refl (score ∷ other ∷ scores))
  ]

  sort-Perm : (scores : Dict F) → Perm (sort_falling scores) scores
  unfolding sort_falling
  sort-Perm [] = Perm.nil
  sort-Perm (score ∷ scores) =
      Perm.trans (place-Perm score (sort_falling scores)) (Perm.cons score (sort-Perm scores))

  place-All :
      (P : ℕ × F → Type 0) (score : ℕ × F) (scores : Dict F)
      → P score
      → All P scores
      → All P (place score scores)
  unfolding place
  place-All P score [] p h = (p, tt)
  place-All P score (other ∷ scores) p h = elim (Bool-cases (lt score.1 other.1)) [
    | inl below ↦ rw (below, place) (h.0, place-All P score scores p h.1)
    | inr above ↦ rw (above, place) (p, h)
  ]

  All-below :
      (a b : F) (scores : Dict F)
      → fl.le a b ≡ true
      → All (λ other. fl.le other.1 a ≡ true) scores
      → All (λ other. fl.le other.1 b ≡ true) scores
  All-below a b [] l h = tt
  All-below a b (other ∷ scores) l (p, h) = (fl.le_trans other.1 a b p l, All-below a b scores l h)

  place-Falling : (score : ℕ × F) (scores : Dict F) → Falling scores → Falling (place score scores)
  unfolding place
  place-Falling score [] h = (tt, tt)
  place-Falling score (other ∷ scores) (p, h) = elim (Bool-cases (lt score.1 other.1)) [
    | inl below ↦
        rw (below, place)
          (
            place-All (λ x. fl.le x.1 other.1 ≡ true) score scores
                (fl.le_total other.1 score.1 (ground arith)) p,
            place-Falling score scores h,
          )
    | inr above ↦
        rw (above, place)
          ((ground arith, All-below other.1 score.1 scores (ground arith) p), (p, h))
  ]

  sort-Falling : (scores : Dict F) → Falling (sort_falling scores)
  unfolding sort_falling
  sort-Falling [] = tt
  sort-Falling (score ∷ scores) = place-Falling score (sort_falling scores) (sort-Falling scores)

  survivors-filter :
      (previous : Option (List ℕ)) (entry exit : F) (scores : Dict F)
      → survivors previous entry exit scores
        ≡ filter (λ x. is_true? (survives previous entry exit x)) scores
  unfolding survivors is_true?
  survivors-filter previous entry exit [] = refl
  survivors-filter previous entry exit (score ∷ scores) =
      elim (Bool-cases (survives previous entry exit score)) [
        | inl kept ↦
            rw (kept, survivors, filter)
              (ap (λ xs. score ∷ xs) (survivors-filter previous entry exit scores))
        | inr dropped ↦
            rw (dropped, survivors, filter) (survivors-filter previous entry exit scores)
      ]

  survives_lem :
      (previous : Option (List ℕ)) (entry exit : F) (x : ℕ × F)
      → (survives previous entry exit x ≡ true)
        ↔ ((fl.le entry x.1 ≡ true) ⊎ ((fl.le exit x.1 ≡ true) × (in_previous x.0 previous ≡ true)))
  unfolding survives
  survives_lem previous entry exit x = ground arith

  -- A code is selected with its score exactly when the score reaches the entry threshold, or it
  -- reaches the exit threshold and the code was selected before; and the selection is ordered by
  -- falling score.
  pub selection_keeps :
      (previous : Option (List ℕ)) (entry exit : F) (scores : Dict F) (x : ℕ × F)
      → (Mem x (select_with_hysteresis previous entry exit scores) ↔ (
          Mem x scores
          × ((fl.le entry x.1 ≡ true)
              ⊎ ((fl.le exit x.1 ≡ true) × (in_previous x.0 previous ≡ true)))))
        × Falling (select_with_hysteresis previous entry exit scores)
  unfolding select_with_hysteresis
  selection_keeps previous entry exit scores x =
      let perm = sort-Perm (survivors previous entry exit scores) in
      let same = survivors-filter previous entry exit scores in
      let kept = mem-filter (λ y. is_true? (survives previous entry exit y)) in
      let meaning = survives_lem previous entry exit x in
      (
        (
          λ m.
              let (listed, passes) =
                kept.0 (subst (λ xs. Mem x xs) same ((Perm.mem_iff perm).0 m)) in
              (listed, meaning.0 passes),
          λ (listed, reaches).
              (Perm.mem_iff perm).1
                (subst (λ xs. Mem x xs) (sym same) (kept.1 (listed, meaning.1 reaches))),
        ),
        sort-Falling (survivors previous entry exit scores),
      )
