-- ===== src/FastLoop/ExitEvaluator.antt =====
-- The first-match evaluation of a sheet's exit rules
-- (prime_jennie_runtime/fast_loop/exit_evaluator.py, `evaluate` and `_evaluate_rule`). The children
-- hold the proofs.
pub mod State
pub mod Protected
pub mod FirstMatch
pub mod StopLoss
pub mod Levels
use prime_jennie_runtime.Prelude.{
  ℕ, Bool, true, false, not, ◌&&◌, Option, none, some, List, [], ◌∷◌, if◌then◌else◌,
}
use prime_jennie_runtime.Prelude.Dict.{is_some}
use prime_jennie_runtime.Prelude.Float.{Float}
use prime_jennie_runtime.Prelude.Time.{Datetime}
use prime_jennie_runtime.PositionSheet.{
  ExitRule, PositionSheet, fixed_sl, fixed_tp, trailing_tp, breakeven, scale_out, time_stop,
  overextension_exit, profit_floor, death_cross, recovery_exit,
}
use prime_jennie_runtime.FastLoop.Domain.{PositionState, TickData, update_high, current_return_pct}
use prime_jennie_runtime.FastLoop.ExitRules.{
  Checked, check_fixed_sl, check_fixed_tp, check_trailing_tp, check_breakeven, check_scale_out,
  check_time_stop, check_overextension, check_profit_floor, check_death_cross_rule,
  check_recovery_exit,
}

module _ {F : Type 0} ⦃fl : Float F⦄ where
  -- `_evaluate_rule`, the dispatch on the rule's type.
  unfoldable pub evaluate_rule :
      ExitRule F → PositionState F → TickData F → Datetime → Option (List F) → ℕ → F → Checked F
  evaluate_rule (fixed_sl pct) s tick now closes days ret = (check_fixed_sl pct s tick, s)
  evaluate_rule (fixed_tp pct) s tick now closes days ret = (check_fixed_tp pct ret, s)
  evaluate_rule (trailing_tp activate drop) s tick now closes days ret =
      check_trailing_tp activate drop s tick ret
  evaluate_rule (breakeven activate floor) s tick now closes days ret =
      check_breakeven activate floor s tick ret
  evaluate_rule (scale_out levels) s tick now closes days ret = check_scale_out levels s ret
  evaluate_rule (time_stop mode value) s tick now closes days ret =
      (check_time_stop mode value now days, s)
  evaluate_rule (overextension_exit threshold) s tick now closes days ret =
      check_overextension threshold s tick
  evaluate_rule (profit_floor activate floor) s tick now closes days ret =
      check_profit_floor activate floor s ret
  evaluate_rule (death_cross short long min_loss) s tick now closes days ret =
      check_death_cross_rule short long min_loss s now closes ret
  evaluate_rule (recovery_exit pct) s tick now closes days ret = (check_recovery_exit pct ret, s)

  -- Where `_check_breakeven` raises its AssertionError: the flag is set and the price is not. What
  -- `evaluate_rule` has as the result there is never used.
  unfoldable pub rule_raises : ExitRule F → PositionState F → Bool
  rule_raises (breakeven activate floor) s =
      s.breakeven_active && not (is_some s.breakeven_sl_price)
  rule_raises _ s = false

  -- The loop over `sheet.exit.rules`: the first decision ends it.
  unfoldable pub evaluate_rules :
      List (ExitRule F)
      → PositionState F
      → TickData F
      → Datetime
      → Option (List F)
      → ℕ
      → F
      → Checked F
  evaluate_rules [] s tick now closes days ret = (none, s)
  evaluate_rules (rule ∷ rules) s tick now closes days ret =
      let (decision, s') = evaluate_rule rule s tick now closes days ret in
      elim decision [
        | none ↦ evaluate_rules rules s' tick now closes days ret
        | some d ↦ (some d, s')
      ]

  -- Whether the loop comes to a rule that raises.
  unfoldable pub rules_raise :
      List (ExitRule F) → PositionState F → TickData F → Datetime → Option (List F) → ℕ → F → Bool
  unfolding rule_raises
  rules_raise [] s tick now closes days ret = false
  rules_raise (rule ∷ rules) s tick now closes days ret =
      let (decision, s') = evaluate_rule rule s tick now closes days ret in
      let rest = rules_raise rules s' tick now closes days ret in
      if rule_raises rule s then true else elim decision [ none ↦ rest | some d ↦ false ]

  unfoldable pub evaluate_raises :
      PositionSheet F → PositionState F → TickData F → Option Datetime → Option (List F) → ℕ → Bool
  unfolding rules_raise
  evaluate_raises sheet s tick now closes days =
      let evaluation_ts : Datetime = elim now [ none ↦ tick.ts | some t ↦ t ] in
      let s' = update_high tick.price s in
      rules_raise sheet.rules s' tick evaluation_ts closes days (current_return_pct s' tick.price)

  unfoldable pub evaluate :
      PositionSheet F
      → PositionState F
      → TickData F
      → Option Datetime
      → Option (List F)
      → ℕ
      → Checked F
  unfolding evaluate_rules
  evaluate sheet s tick now closes days =
      let evaluation_ts : Datetime = elim now [ none ↦ tick.ts | some t ↦ t ] in
      let s' = update_high tick.price s in
      let current_return = current_return_pct s' tick.price in
      evaluate_rules sheet.rules s' tick evaluation_ts closes days current_return
