-- ===== src/FastLoop/ExitEvaluator/Protected.antt =====
-- The assertion in `_check_breakeven`.
use prime_jennie_runtime.Prelude.{
  ℕ, suc, ◌⊎◌, ◌≡◌, refl, true, false, Option, List, [], ◌∷◌, arith, Option-cases, inl, inr,
}
use prime_jennie_runtime.Prelude.Dict.{is_some}
use prime_jennie_runtime.Prelude.Float.{Float}
use prime_jennie_runtime.Prelude.Time.{Datetime}
use prime_jennie_runtime.PositionSheet.{
  ExitRule, PositionSheet, trailing_tp, breakeven, scale_out, overextension_exit, profit_floor,
  death_cross,
}
use prime_jennie_runtime.FastLoop.Domain.{PositionState, TickData, update_high}
use prime_jennie_runtime.FastLoop.ExitRules.{
  check_trailing_tp, check_breakeven, scale_out_from, check_scale_out, check_overextension,
  check_profit_floor, check_death_cross_rule,
}
use prime_jennie_runtime.FastLoop.ExitEvaluator.{
  evaluate_rule, evaluate_rules, evaluate, rule_raises, rules_raise, evaluate_raises,
}

module _ {F : Type 0} ⦃fl : Float F⦄ where
  -- A protected position has a raised price: what `_check_breakeven` asserts.
  abbrev pub IsProtected : PositionState F → Type 0
  IsProtected s = (s.breakeven_active ≡ false) ⊎ (is_some s.breakeven_sl_price ≡ true)

  scale_out-IsProtected :
      (idx : ℕ) (levels : List (F × F)) (s : PositionState F) (ret : F)
      → IsProtected s
      → IsProtected (scale_out_from idx levels s ret).1
  unfolding scale_out_from
  scale_out-IsProtected idx [] s ret h = h
  scale_out-IsProtected idx ((t, p) ∷ levels) s ret h =
      ground (arith, scale_out-IsProtected (suc idx) levels s ret h)

  rule-IsProtected :
      (tick : TickData F) (now : Datetime) (closes : Option (List F)) (days : ℕ) (ret : F)
      (rule : ExitRule F) (s : PositionState F)
      → IsProtected s
      → IsProtected (evaluate_rule rule s tick now closes days ret).1
  unfolding evaluate_rule check_trailing_tp check_breakeven check_scale_out check_overextension
      check_profit_floor check_death_cross_rule
  rule-IsProtected tick now closes days ret (trailing_tp a d) s h = ground arith
  rule-IsProtected tick now closes days ret (breakeven a f) s h = ground arith
  rule-IsProtected tick now closes days ret (scale_out levels) s h =
      scale_out-IsProtected 0 levels s ret h
  rule-IsProtected tick now closes days ret (overextension_exit t) s h = ground arith
  rule-IsProtected tick now closes days ret (profit_floor a f) s h = ground arith
  rule-IsProtected tick now closes days ret (death_cross sh lo m) s h = ground arith
  rule-IsProtected tick now closes days ret _ s h = h

  rules-IsProtected :
      (tick : TickData F) (now : Datetime) (closes : Option (List F)) (days : ℕ) (ret : F)
      (rules : List (ExitRule F)) (s : PositionState F)
      → IsProtected s
      → IsProtected (evaluate_rules rules s tick now closes days ret).1
  unfolding evaluate_rules
  rules-IsProtected tick now closes days ret [] s h = h
  rules-IsProtected tick now closes days ret (rule ∷ rules) s h =
      elim (Option-cases (evaluate_rule rule s tick now closes days ret).0) [
        | inl passed ↦
            rw (passed, evaluate_rules)
              (rules-IsProtected tick now closes days ret rules
                (evaluate_rule rule s tick now closes days ret).1
                (rule-IsProtected tick now closes days ret rule s h))
        | inr (d, decided) ↦
            rw (decided, evaluate_rules) (rule-IsProtected tick now closes days ret rule s h)
      ]

  -- An evaluation keeps a protected position one that has a raised price.
  pub evaluate-IsProtected :
      (sheet : PositionSheet F) (s : PositionState F) (tick : TickData F) (now : Option Datetime)
      (closes : Option (List F)) (days : ℕ)
      → IsProtected s
      → IsProtected (evaluate sheet s tick now closes days).1
  unfolding evaluate update_high
  evaluate-IsProtected sheet s tick now closes days h =
      rules-IsProtected tick _ closes days _ sheet.rules (update_high tick.price s) (ground arith)

  rule_silent :
      (rule : ExitRule F) (s : PositionState F) → IsProtected s → rule_raises rule s ≡ false
  unfolding rule_raises
  rule_silent (breakeven a f) s h = ground arith
  rule_silent _ s h = refl

  rules_silent :
      (tick : TickData F) (now : Datetime) (closes : Option (List F)) (days : ℕ) (ret : F)
      (rules : List (ExitRule F)) (s : PositionState F)
      → IsProtected s
      → rules_raise rules s tick now closes days ret ≡ false
  unfolding rules_raise
  rules_silent tick now closes days ret [] s h = refl
  rules_silent tick now closes days ret (rule ∷ rules) s h = ground (
    arith,
    rule_silent rule s h,
    rules_silent tick now closes days ret rules (evaluate_rule rule s tick now closes days ret).1
        (rule-IsProtected tick now closes days ret rule s h),
  )

  pub evaluate_silent :
      (sheet : PositionSheet F) (s : PositionState F) (tick : TickData F) (now : Option Datetime)
      (closes : Option (List F)) (days : ℕ)
      → IsProtected s
      → evaluate_raises sheet s tick now closes days ≡ false
  unfolding evaluate_raises update_high
  evaluate_silent sheet s tick now closes days h =
      rules_silent tick _ closes days _ sheet.rules (update_high tick.price s) (ground arith)
