-- ===== src/FastLoop/ExitEvaluator/FirstMatch.antt =====
-- What stands behind an active breakeven rule.
use prime_jennie_runtime.Prelude.{ℕ, ◌≡◌, ◌∙◌, true, Option, some, List, [], ◌∷◌, ◌++◌, arith}
use prime_jennie_runtime.Prelude.Float.{Float}
use prime_jennie_runtime.Prelude.Time.{Datetime}
use prime_jennie_runtime.PositionSheet.{ExitRule, breakeven}
use prime_jennie_runtime.FastLoop.Domain.{PositionState, TickData}
use prime_jennie_runtime.FastLoop.ExitRules.{check_breakeven, breakeven_decision}
use prime_jennie_runtime.FastLoop.ExitEvaluator.{evaluate_rule, evaluate_rules}
use prime_jennie_runtime.FastLoop.ExitEvaluator.State.{evaluate_rule-Keeps}

module _ {F : Type 0} ⦃fl : Float F⦄ (tick : TickData F) (now : Datetime) (closes : Option (List F))
    (days : ℕ) (ret : F) where
  -- A protected position with a raised price.
  abbrev pub Raised : F → PositionState F → Type 0
  Raised p s = (s.breakeven_active ≡ true) × (s.breakeven_sl_price ≡ some p)

  breakeven_decides :
      (a f p : F) (s : PositionState F)
      → Raised p s
      → check_breakeven a f s tick ret ≡ (some (breakeven_decision p tick), s)
  unfolding check_breakeven
  breakeven_decides a f p s h = ground arith

  evaluate_rule-Raised :
      (rule : ExitRule F) (p : F) (s : PositionState F)
      → Raised p s
      → Raised p (evaluate_rule rule s tick now closes days ret).1
  evaluate_rule-Raised rule p s h =
      let k = evaluate_rule-Keeps tick now closes days ret rule s in
      (k.breakeven h.0, k.raised h.0 ∙ h.1)

  -- Once a breakeven rule has raised the stop, it decides every later tick that reaches it, so no
  -- rule listed behind it is evaluated again: the result is the same whatever rules follow it.
  -- In the sheet order that the repository recommends, these are `death_cross`, `fixed_sl` and
  -- `time_stop`.
  pub breakeven_shadows_later :
      (rules later later' : List (ExitRule F)) (a f p : F) (s : PositionState F)
      → s.breakeven_active ≡ true
      → s.breakeven_sl_price ≡ some p
      → evaluate_rules (rules ++ breakeven a f ∷ later) s tick now closes days ret
        ≡ evaluate_rules (rules ++ breakeven a f ∷ later') s tick now closes days ret
  unfolding evaluate_rules evaluate_rule
  breakeven_shadows_later [] later later' a f p s on raised =
      ground (arith, breakeven_decides a f p s (on, raised))
  breakeven_shadows_later (rule ∷ rules) later later' a f p s on raised =
      let k = evaluate_rule-Raised rule p s (on, raised) in
      ground (
        arith,
        breakeven_shadows_later rules later later' a f p
            (evaluate_rule rule s tick now closes days ret).1 k.0 k.1,
      )
