-- ===== src/FastLoop/ExitEvaluator/StopLoss.antt =====
-- The stop loss: a position whose price is at or below its stop is closed, whatever rules stand in
-- front of `fixed_sl`.
use prime_jennie_runtime.Prelude.{
  ℕ, suc, ◌≡◌, ◌⊎◌, refl, sym, ap, subst, ◌∙◌, true, Option, none, some, List, [], ◌∷◌, ◌++◌, arith,
  Option-cases, inl, inr, All,
}
use prime_jennie_runtime.Prelude.Float.{Float}
use prime_jennie_runtime.Prelude.Time.{Datetime}
use prime_jennie_runtime.PositionSheet.{
  ExitRule, eod, hold_days, fixed_sl, breakeven, scale_out, time_stop,
}
use prime_jennie_runtime.FastLoop.Domain.{PositionState, TickData, ExitDecision, Reason}
use prime_jennie_runtime.FastLoop.ExitRules.{
  close_all, check_fixed_sl, check_fixed_tp, check_trailing_tp, check_breakeven, breakeven_decision,
  scale_out_from, check_scale_out, check_time_stop, check_overextension, check_profit_floor,
  check_death_cross_rule, check_recovery_exit,
}
use prime_jennie_runtime.FastLoop.ExitEvaluator.{evaluate_rule, evaluate_rules}
use prime_jennie_runtime.FastLoop.ExitEvaluator.State.{evaluate_rule-Keeps}

module _ {F : Type 0} ⦃fl : Float F⦄ where
  -- The price at which `fixed_sl` closes an unprotected position.
  abbrev pub stop_price : F → F → F
  stop_price entry_price pct = fl.mul entry_price (fl.sub (fl.decimal 10 1) pct)

  -- A raised stop lies at or above the original one.
  abbrev pub AtOrAbove : F → Option F → Type 0
  AtOrAbove stop none = Unit {0}
  AtOrAbove stop (some p) = fl.le stop p ≡ true

  -- Where the rule is a breakeven rule, the floor that it raises the stop to lies at or above it.
  abbrev pub RaisesOver : F → F → ExitRule F → Type 0
  RaisesOver stop entry_price (breakeven activate floor) =
      fl.le stop (fl.mul entry_price (fl.add (fl.decimal 10 1) floor)) ≡ true
  RaisesOver stop entry_price _ = Unit {0}

  -- A decision that sells: everything, or the portion of a level of `scale_out`.
  abbrev pub Sells : ExitDecision F → Type 0
  Sells d =
      (d.should_close ≡ true) × ((d.portion ≡ fl.decimal 10 1) ⊎ (d.reason ≡ Reason.scale_out))

  abbrev Closes : Option (ExitDecision F) → Type 0
  Closes none = Unit {0}
  Closes (some d) = Sells d

  scale_out-Closes :
      (idx : ℕ) (levels : List (F × F)) (s : PositionState F) (ret : F)
      → Closes (scale_out_from idx levels s ret).0
  unfolding scale_out_from
  scale_out-Closes idx [] s ret = tt
  scale_out-Closes idx ((t, p) ∷ levels) s ret =
      ground (arith, scale_out-Closes (suc idx) levels s ret)

  scale_out_raised :
      (idx : ℕ) (levels : List (F × F)) (s : PositionState F) (ret : F)
      → (scale_out_from idx levels s ret).1.breakeven_sl_price ≡ s.breakeven_sl_price
  unfolding scale_out_from
  scale_out_raised idx [] s ret = refl
  scale_out_raised idx ((t, p) ∷ levels) s ret =
      ground (arith, scale_out_raised (suc idx) levels s ret)

  module _ (tick : TickData F) (now : Datetime) (closes : Option (List F)) (days : ℕ) (ret : F)
      (stop : F) (hit : fl.le tick.price stop ≡ true) where
    breakeven_closes : (p : F) → fl.le stop p ≡ true → Sells (breakeven_decision p tick)
    unfolding breakeven_decision
    breakeven_closes p h =
        rw (fl.le_trans tick.price stop p hit h, breakeven_decision) (refl, inl refl)

    breakeven_step :
        (a f : F) (s : PositionState F)
        → RaisesOver stop s.entry_price (breakeven a f)
        → AtOrAbove stop s.breakeven_sl_price
        → Closes (check_breakeven a f s tick ret).0
          × AtOrAbove stop (check_breakeven a f s tick ret).1.breakeven_sl_price
    unfolding check_breakeven
    breakeven_step a f s over above = elim (Option-cases s.breakeven_sl_price) [
      | inl unset ↦
          ground (arith, breakeven_closes (fl.mul s.entry_price (fl.add (fl.decimal 10 1) f)) over)
      | inr (p, set) ↦
          let over_p : fl.le stop p ≡ true = ground arith in
          ground (
            arith,
            breakeven_closes p over_p,
            breakeven_closes (fl.mul s.entry_price (fl.add (fl.decimal 10 1) f)) over,
          )
    ]

    rule_step :
        (rule : ExitRule F) (s : PositionState F)
        → RaisesOver stop s.entry_price rule
        → AtOrAbove stop s.breakeven_sl_price
        → Closes (evaluate_rule rule s tick now closes days ret).0
          × AtOrAbove stop (evaluate_rule rule s tick now closes days ret).1.breakeven_sl_price
    unfolding evaluate_rule check_fixed_sl check_fixed_tp check_trailing_tp check_time_stop
        check_overextension check_profit_floor check_death_cross_rule check_recovery_exit
        check_scale_out
    rule_step (breakeven a f) s over above = breakeven_step a f s over above
    rule_step (scale_out levels) s over above =
        ground (arith, scale_out-Closes 0 levels s ret, scale_out_raised 0 levels s ret)
    rule_step (time_stop eod v) s over above = ground arith
    rule_step (time_stop hold_days none) s over above = ground arith
    rule_step (time_stop hold_days (some v)) s over above = ground arith
    rule_step _ s over above = ground arith

    fixed_sl_closes :
        (pct : F) (s : PositionState F)
        → stop ≡ stop_price s.entry_price pct
        → (check_fixed_sl pct s tick) ≡ some (close_all Reason.fixed_sl)
    unfolding check_fixed_sl
    fixed_sl_closes pct s e = elim (Option-cases s.breakeven_sl_price) [
      | inl unset ↦ ground arith
      | inr (p, set) ↦ ground (arith, fl.le_trans tick.price stop p hit, fl.le_total p stop)
    ]

    fixed_sl_decides :
        (pct : F) (s : PositionState F)
        → stop ≡ stop_price s.entry_price pct
        → (evaluate_rule (fixed_sl pct) s tick now closes days ret).0
          ≡ some (close_all Reason.fixed_sl)
    unfolding evaluate_rule
    fixed_sl_decides pct s e = fixed_sl_closes pct s e

    pub stop_loss_closes :
        (before after : List (ExitRule F)) (pct : F) (s : PositionState F)
        → stop ≡ stop_price s.entry_price pct
        → All (RaisesOver stop s.entry_price) before
        → AtOrAbove stop s.breakeven_sl_price
        → (d : ExitDecision F) × ((evaluate_rules
              (before ++ fixed_sl pct ∷ after)
              s
              tick
              now
              closes
              days
              ret).0
            ≡ some d)
          × Sells d
    unfolding evaluate_rules
    stop_loss_closes [] after pct s e over above =
        (close_all Reason.fixed_sl, ground (arith, fixed_sl_decides pct s e), (refl, inl refl))
    stop_loss_closes (rule ∷ before) after pct s e over above =
        elim (Option-cases (evaluate_rule rule s tick now closes days ret).0) [
          | inl passed ↦
              let (d, decided, closing) =
                stop_loss_closes before after pct (evaluate_rule rule s tick now closes days ret).1
                  (e ∙ ap (λ x. stop_price x pct) (sym same))
                  (subst (λ x. All (RaisesOver stop x) before) (sym same) over.1) step.1 in
              (d, ground arith, closing)
          | inr (d, decided) ↦ (d, ground arith, rw decided at step.0)
        ]
      where
        same : (evaluate_rule rule s tick now closes days ret).1.entry_price ≡ s.entry_price
        same = (evaluate_rule-Keeps tick now closes days ret rule s).entry_price

        step :
            Closes (evaluate_rule rule s tick now closes days ret).0
            × AtOrAbove stop (evaluate_rule rule s tick now closes days ret).1.breakeven_sl_price
        step = rule_step rule s over.0 above
