-- ===== src/SlowLoop/StrategyEngine/Rules.antt =====
-- The rules that a raw list reads as.
use prime_jennie_runtime.Prelude.{
  ℕ, ◌≡◌, ◌≤◌, refl, Bool, true, false, Option, none, some, List, [], ◌∷◌, All, arith, ◌>>=◌,
}
use prime_jennie_runtime.Prelude.Float.{Float}
use prime_jennie_runtime.PositionSheet.{ExitRule}
use prime_jennie_runtime.PositionSheet.Raw.{
  RuleType, trailing_tp, RawRule, parse_fields, parse_rule, parse_rules,
}
use prime_jennie_runtime.PositionSheet.Validation.{any_rule}
use prime_jennie_runtime.SlowLoop.ExitHints.{order_of, any_of_type, has_type}
use prime_jennie_runtime.SlowLoop.ExitHints.Order.{Ordered}

-- The place of a rule in the order that the specification of the sheet recommends.
abbrev pub place_of : {F : Type 0} → ExitRule F → ℕ
place_of (ExitRule.overextension_exit rsi_threshold) = 0
place_of (ExitRule.profit_floor activate_pct floor_pct) = 1
place_of (ExitRule.trailing_tp activate_pct drop_pct) = 2
place_of (ExitRule.fixed_tp pct) = 3
place_of (ExitRule.scale_out levels) = 4
place_of (ExitRule.breakeven activate_pct floor_pct) = 5
place_of (ExitRule.death_cross ma_short ma_long min_loss_pct) = 6
place_of (ExitRule.fixed_sl pct) = 7
place_of (ExitRule.time_stop mode value) = 8
place_of (ExitRule.recovery_exit pct) = 99

abbrev pub IsOrdered : {F : Type 0} → List (ExitRule F) → Type 0
IsOrdered [] = Unit {0}
IsOrdered (rule ∷ rules) = All (λ r. place_of rule ≤ place_of r) rules × IsOrdered rules

abbrev pub is_trailing_tp : {F : Type 0} → ExitRule F → Bool
is_trailing_tp (ExitRule.trailing_tp activate_pct drop_pct) = true
is_trailing_tp _ = false

pub bind_some :
    {A B : Type 0} (o : Option A) (f : A → Option B) (b : B)
    → (o >>= f) ≡ some b
    → (a : A) × (o ≡ some a) × (f a ≡ some b)
bind_some none f b h = absurd (cc)
bind_some (some a) f b h = (a, refl, h)

module _ {F : Type 0} ⦃fl : Float F⦄ where
  parse_fields_lem :
      (t : RuleType) (raw : RawRule F) (rule : ExitRule F)
      → raw.type ≡ some t
      → parse_fields t raw ≡ some rule
      → (place_of rule ≡ order_of raw) × (is_trailing_tp rule ≡ has_type trailing_tp raw)
  unfolding parse_fields
  parse_fields_lem t raw rule h k = ground arith

  parse_rule_lem :
      (raw : RawRule F) (rule : ExitRule F)
      → parse_rule raw ≡ some rule
      → (place_of rule ≡ order_of raw) × (is_trailing_tp rule ≡ has_type trailing_tp raw)
  unfolding parse_rule
  parse_rule_lem raw rule h =
      let (t, typed, parsed) = bind_some raw.type _ rule h in
      parse_fields_lem t raw rule typed parsed

  parse_rules-above :
      (n : ℕ) (raw : List (RawRule F)) (rules : List (ExitRule F))
      → parse_rules raw ≡ some rules
      → All (λ r. n ≤ order_of r) raw
      → All (λ r. n ≤ place_of r) rules
  unfolding parse_rules
  parse_rules-above n [] [] h a = tt
  parse_rules-above n [] (r ∷ rules) h a = absurd (cc)
  parse_rules-above n (raw ∷ raws) rules h (p, a) =
      let (rule, k, l) = bind_some (parse_rule raw) _ rules h in
      let (rest, m, e) = bind_some (parse_rules raws) _ rules l in
      let same : rules ≡ rule ∷ rest = cc in
      rw same (rw (parse_rule_lem raw rule k).0 p, parse_rules-above n raws rest m a)

  pub parse_rules-IsOrdered :
      (raw : List (RawRule F)) (rules : List (ExitRule F))
      → parse_rules raw ≡ some rules
      → Ordered raw
      → IsOrdered rules
  unfolding parse_rules
  parse_rules-IsOrdered [] [] h o = tt
  parse_rules-IsOrdered [] (r ∷ rules) h o = absurd (cc)
  parse_rules-IsOrdered (raw ∷ raws) rules h (p, o) =
      let (rule, k, l) = bind_some (parse_rule raw) _ rules h in
      let (rest, m, e) = bind_some (parse_rules raws) _ rules l in
      let same : rules ≡ rule ∷ rest = cc in
      rw same (
        rw (parse_rule_lem raw rule k).0 (parse_rules-above (order_of raw) raws rest m p),
        parse_rules-IsOrdered raws rest m o,
      )

  pub parse_rules-any :
      (raw : List (RawRule F)) (rules : List (ExitRule F))
      → parse_rules raw ≡ some rules
      → any_rule is_trailing_tp rules ≡ any_of_type trailing_tp raw
  unfolding parse_rules any_rule any_of_type
  parse_rules-any [] [] h = refl
  parse_rules-any [] (r ∷ rules) h = absurd (cc)
  parse_rules-any (raw ∷ raws) rules h =
      let (rule, k, l) = bind_some (parse_rule raw) _ rules h in
      let (rest, m, e) = bind_some (parse_rules raws) _ rules l in
      let same : rules ≡ rule ∷ rest = cc in
      rw (same, (parse_rule_lem raw rule k).1, parse_rules-any raws rest m) refl
