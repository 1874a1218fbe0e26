-- ===== src/PositionSheet/Validation/Contents.antt =====
-- What a valid sheet guarantees.
use prime_jennie_runtime.Prelude.{
  ℕ, ◌≡◌, refl, ap, sym, subst, ◌∙◌, Bool, true, Option, none, some, List, [], ◌∷◌, ◌++◌, arith,
  All,
}
use prime_jennie_runtime.Prelude.Float.{Float}
use prime_jennie_runtime.Prelude.Time.{Datetime}
use prime_jennie_runtime.PositionSheet.{ExitRule, PositionSheet, fixed_sl}
use prime_jennie_runtime.PositionSheet.Validation.{any_rule, is_fixed_sl, check_rules, validate_all}
use prime_jennie_runtime.FastLoop.Domain.{
  PositionState, TickData, ExitDecision, update_high, current_return_pct,
}
use prime_jennie_runtime.FastLoop.ExitEvaluator.{evaluate, evaluate_rules}
use prime_jennie_runtime.FastLoop.ExitEvaluator.StopLoss.{
  stop_price, AtOrAbove, RaisesOver, stop_loss_closes,
}

module _ {F : Type 0} where
  -- The percentage of the first stop loss.
  abbrev pub first_pct : List (ExitRule F) → Option F
  first_pct [] = none
  first_pct (fixed_sl pct ∷ rules) = some pct
  first_pct (rule ∷ rules) = first_pct rules

  fixed_sl_stands :
      (rules : List (ExitRule F))
      → any_rule is_fixed_sl rules ≡ true
      → (before : List (ExitRule F)) × (pct : F) × (after : List (ExitRule F)) × (rules
          ≡ before ++ fixed_sl pct ∷ after)
        × (first_pct rules ≡ some pct)
  unfolding any_rule
  fixed_sl_stands [] h = absurd (cc)
  fixed_sl_stands (fixed_sl pct ∷ rules) h = ([], pct, rules, refl, refl)
  fixed_sl_stands (rule ∷ rules) h =
      let (before, pct, after, split, first) = fixed_sl_stands rules h in
      (rule ∷ before, pct, after, ap (λ x. rule ∷ x) split, first)

  All-before : (P : ExitRule F → Type 0) (xs ys : List (ExitRule F)) → All P (xs ++ ys) → All P xs
  All-before P [] ys h = tt
  All-before P (x ∷ xs) ys (p, h) = (p, All-before P xs ys h)

module _ {F : Type 0} ⦃fl : Float F⦄ where
  valid_has_fixed_sl :
      (is_well_formed : ℕ → Bool) (sheet : PositionSheet F)
      → validate_all is_well_formed sheet ≡ none
      → any_rule is_fixed_sl sheet.rules ≡ true
  unfolding validate_all check_rules
  valid_has_fixed_sl is_well_formed sheet valid = ground arith

  -- The price has reached the stop of `pct`, and no breakeven rule raises, or has raised, the stop to
  -- a price below that. Nothing is asked where there is no stop loss.
  abbrev pub IsHit : Option F → List (ExitRule F) → PositionState F → TickData F → Type 0
  IsHit none rules s tick = Unit {0}
  IsHit (some pct) rules s tick =
      (fl.le tick.price (stop_price s.entry_price pct) ≡ true)
      × AtOrAbove (stop_price s.entry_price pct) s.breakeven_sl_price
      × All (RaisesOver (stop_price s.entry_price pct) s.entry_price) rules

  update_high_keeps :
      (price : F) (s : PositionState F)
      → ((update_high price s).entry_price ≡ s.entry_price)
        × ((update_high price s).breakeven_sl_price ≡ s.breakeven_sl_price)
  unfolding update_high
  update_high_keeps price s = ground arith

  closes_behind :
      (before after : List (ExitRule F)) (pct : F) (s s' : PositionState F) (tick : TickData F)
      (now : Datetime) (closes : Option (List F)) (days : ℕ) (ret : F)
      → s'.entry_price ≡ s.entry_price
      → s'.breakeven_sl_price ≡ s.breakeven_sl_price
      → IsHit (some pct) (before ++ fixed_sl pct ∷ after) s tick
      → (d : ExitDecision F) × ((evaluate_rules
            (before ++ fixed_sl pct ∷ after)
            s'
            tick
            now
            closes
            days
            ret).0
          ≡ some d)
        × (d.should_close ≡ true)
  closes_behind before after pct s s' tick now closes days ret entry raised (hit, above, over) =
      let (d, decided, sells) =
        stop_loss_closes tick now closes days ret (stop_price s.entry_price pct) hit before after
          pct s' (ap (λ x. stop_price x pct) (sym entry))
          (subst (λ x. All (RaisesOver (stop_price s.entry_price pct) x) before) (sym entry)
            (All-before (RaisesOver (stop_price s.entry_price pct) s.entry_price) before
              (fixed_sl pct ∷ after) over))
          (subst (λ x. AtOrAbove (stop_price s.entry_price pct) x) (sym raised) above) in
      (d, decided, sells.0)

  evaluate_closes :
      (rules : List (ExitRule F)) (sheet : PositionSheet F) (s : PositionState F)
      (tick : TickData F) (now : Option Datetime) (closes : Option (List F)) (days : ℕ)
      → sheet.rules ≡ rules
      → any_rule is_fixed_sl rules ≡ true
      → IsHit (first_pct rules) rules s tick
      → (d : ExitDecision F) × ((evaluate sheet s tick now closes days).0 ≡ some d)
        × (d.should_close ≡ true)
  unfolding evaluate
  evaluate_closes rules sheet s tick now closes days same has hit =
      let (before, pct, after, split, first) = fixed_sl_stands rules has in
      let (entry, raised) = update_high_keeps tick.price s in
      let ts : Datetime = elim now [ none ↦ tick.ts | some t ↦ t ] in
      let ret = current_return_pct (update_high tick.price s) tick.price in
      subst
        (λ x.
          (d : ExitDecision F) × ((evaluate_rules x (update_high tick.price s) tick ts closes days
              ret).0
            ≡ some d)
          × (d.should_close ≡ true))
        (sym (same ∙ split))
        (closes_behind before after pct s (update_high tick.price s) tick ts closes days ret entry
          raised
          (subst (λ x. IsHit (some pct) x s tick) split
            (subst (λ x. IsHit x rules s tick) first hit)))

  -- A valid sheet protects its position: when the price reaches the stop of its first `fixed_sl`,
  -- the evaluation of the tick returns a decision that closes. The condition is that no breakeven
  -- rule of the sheet raises, or has raised, the stop to a price below that.
  pub valid_sheet_stops :
      (is_well_formed : ℕ → Bool) (sheet : PositionSheet F) (s : PositionState F)
      (tick : TickData F) (now : Option Datetime) (closes : Option (List F)) (days : ℕ)
      → validate_all is_well_formed sheet ≡ none
      → IsHit (first_pct sheet.rules) sheet.rules s tick
      → (d : ExitDecision F) × ((evaluate sheet s tick now closes days).0 ≡ some d)
        × (d.should_close ≡ true)
  valid_sheet_stops is_well_formed sheet s tick now closes days valid hit =
      evaluate_closes sheet.rules sheet s tick now closes days refl
        (valid_has_fixed_sl is_well_formed sheet valid) hit
