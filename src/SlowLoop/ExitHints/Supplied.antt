-- ===== src/SlowLoop/ExitHints/Supplied.antt =====
-- What the normalised rules contain.
use prime_jennie_runtime.Prelude.{
  ◌≡◌, ◌⊎◌, inl, inr, Bool, true, ◌||◌, List, [], ◌∷◌, ◌++◌, arith, leb, Bool-cases, refl, subst,
}
use prime_jennie_runtime.Prelude.Float.{Float}
use prime_jennie_runtime.PositionSheet.Raw.{RuleType, RawRule, fixed_sl, time_stop, trailing_tp}
use prime_jennie_runtime.SlowLoop.ExitHints.{
  has_type, any_of_type, place, order_of, sort_by_order, first_of_type, supplement, normalize_rules,
  normalize_scout_exit_hint,
}

or_swap : (a b c d : Bool) → d ≡ (b || c) → (a || d) ≡ (b || (a || c))
or_swap a b c d h = ground arith

abbrev pub IsRequired : RuleType → Type 0
IsRequired t = (t ≡ fixed_sl) ⊎ (t ≡ time_stop) ⊎ (t ≡ trailing_tp)

module _ {F : Type 0} where
  any-append :
      (t : RuleType) (rs ss : List (RawRule F))
      → any_of_type t (rs ++ ss) ≡ (any_of_type t rs || any_of_type t ss)
  unfolding any_of_type
  any-append t [] ss = refl
  any-append t (r ∷ rs) ss = ground (arith, any-append t rs ss)

  any-first :
      (t : RuleType) (ds : List (RawRule F)) → any_of_type t (first_of_type t ds) ≡ any_of_type t ds
  unfolding any_of_type first_of_type
  any-first t [] = refl
  any-first t (d ∷ ds) = ground (arith, any-first t ds)

  any-place :
      (t : RuleType) (r : RawRule F) (rs : List (RawRule F))
      → any_of_type t (place r rs) ≡ (has_type t r || any_of_type t rs)
  unfolding any_of_type place
  any-place t r [] = refl
  any-place t r (s ∷ rs) = elim (Bool-cases (leb (order_of r) (order_of s))) [
    | inl first ↦ rw (first, place) refl
    | inr later ↦
        rw (later, place)
          (or_swap (has_type t s) (has_type t r) (any_of_type t rs) (any_of_type t (place r rs))
            (any-place t r rs))
  ]

  pub any-sort :
      (t : RuleType) (rs : List (RawRule F)) → any_of_type t (sort_by_order rs) ≡ any_of_type t rs
  unfolding any_of_type sort_by_order
  any-sort t [] = refl
  any-sort t (r ∷ rs) = ground (arith, any-sort t rs, any-place t r (sort_by_order rs))

  supplied :
      (t : RuleType) (normalized default_rules : List (RawRule F))
      → any_of_type t default_rules ≡ true
      → (any_of_type t normalized || any_of_type t (supplement t normalized default_rules)) ≡ true
  unfolding supplement
  supplied t normalized default_rules h = ground (arith, any-first t default_rules)

  any_of_four :
      (t : RuleType) (n a b c : List (RawRule F))
      → ((any_of_type t n || any_of_type t a) ≡ true)
        ⊎ ((any_of_type t n || any_of_type t b) ≡ true)
        ⊎ ((any_of_type t n || any_of_type t c) ≡ true)
      → any_of_type t (n ++ (a ++ (b ++ c))) ≡ true
  any_of_four t n a b c h =
      ground (arith, any-append t n (a ++ (b ++ c)), any-append t a (b ++ c), any-append t b c)

module _ {F : Type 0} ⦃fl : Float F⦄ where
  -- A required type that the defaults of the policy have stands among the rules that any hint is
  -- brought to.
  pub hint_is_supplied :
      (t : RuleType) (raw default_rules : List (RawRule F))
      → IsRequired t
      → any_of_type t default_rules ≡ true
      → any_of_type t (normalize_scout_exit_hint raw default_rules) ≡ true
  unfolding normalize_scout_exit_hint
  hint_is_supplied t raw ds required h =
      let n = normalize_rules raw in
      let supply : (u : RuleType)
          → t ≡ u
          → (any_of_type t n || any_of_type t (supplement u n ds)) ≡ true =
        λ u e.
          subst (λ x. (any_of_type t n || any_of_type t (supplement x n ds)) ≡ true) e
            (supplied t n ds h) in
      any_of_four t n (supplement fixed_sl n ds) (supplement time_stop n ds)
        (supplement trailing_tp n ds)
        (elim required [
          | inl e ↦ inl (supply fixed_sl e)
          | inr (inl e) ↦ inr (inl (supply time_stop e))
          | inr (inr e) ↦ inr (inr (supply trailing_tp e))
        ])
