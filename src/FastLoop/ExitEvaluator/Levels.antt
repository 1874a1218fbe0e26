-- ===== src/FastLoop/ExitEvaluator/Levels.antt =====
-- How often a level of `scale_out` is decided.
use prime_jennie_runtime.Prelude.{
  ℕ, suc, ◌≤◌, ◌≡◌, refl, Bool, true, false, Option, none, some, List, [], ◌∷◌, arith, ◌==◌,
  Option-cases, Bool-cases, inl, inr, if◌then◌else◌,
}
use prime_jennie_runtime.Prelude.Float.{Float}
use prime_jennie_runtime.Prelude.Time.{Datetime}
use prime_jennie_runtime.PositionSheet.{
  ExitRule, PositionSheet, fixed_sl, fixed_tp, trailing_tp, breakeven, scale_out, time_stop,
  overextension_exit, profit_floor, death_cross, recovery_exit,
}
use prime_jennie_runtime.FastLoop.Domain.{PositionState, TickData, ExitDecision, update_high}
use prime_jennie_runtime.FastLoop.ExitRules.{
  Checked, contains, check_fixed_sl, check_fixed_tp, check_trailing_tp, check_breakeven,
  scale_out_from, check_scale_out, check_time_stop, check_overextension, check_profit_floor,
  check_death_cross_rule, check_recovery_exit,
}
use prime_jennie_runtime.FastLoop.ExitEvaluator.{evaluate_rule, evaluate_rules, evaluate}
use prime_jennie_runtime.FastLoop.ExitEvaluator.State.{evaluate_rule-Keeps, evaluate-Keeps}

abbrev is_level : ℕ → Option ℕ → Bool
is_level i none = false
is_level i (some j) = i == j

-- One tick with what the loop passes beside it.
pub record Moment (F : Type 0) : Type 0 where
  pub tick : TickData F
  pub now : Option Datetime
  pub closes : Option (List F)
  pub days : ℕ

module _ {F : Type 0} ⦃fl : Float F⦄ where
  -- The decision sells level `i`.
  abbrev pub names : ℕ → Option (ExitDecision F) → Bool
  names i none = false
  names i (some d) = is_level i d.level_index

  -- A level that was decided is marked, and a marked one is not decided.
  abbrev Once : ℕ → PositionState F → Checked F → Type 0
  Once i s r =
      (contains i s.scale_out_executed ≡ true → names i r.0 ≡ false)
      × (names i r.0 ≡ true → contains i r.1.scale_out_executed ≡ true)

  scale_out-Once :
      (i idx : ℕ) (levels : List (F × F)) (s : PositionState F) (ret : F)
      → Once i s (scale_out_from idx levels s ret)
  unfolding scale_out_from
  scale_out-Once i idx [] s ret = ground arith
  scale_out-Once i idx ((t, p) ∷ levels) s ret =
      let (marked, marks) = scale_out-Once i (suc idx) levels s ret in
      (λ h. ground (arith, marked h), λ h. ground (arith, marks))

  module _ (tick : TickData F) (now : Datetime) (closes : Option (List F)) (days : ℕ)
      (ret : F) where
    rule-Once :
        (i : ℕ) (rule : ExitRule F) (s : PositionState F)
        → Once i s (evaluate_rule rule s tick now closes days ret)
    unfolding evaluate_rule check_fixed_sl check_fixed_tp check_trailing_tp check_breakeven
        check_scale_out check_time_stop check_overextension check_profit_floor
        check_death_cross_rule check_recovery_exit
    rule-Once i (scale_out levels) s = scale_out-Once i 0 levels s ret
    rule-Once i (fixed_sl p) s = ground arith
    rule-Once i (fixed_tp p) s = ground arith
    rule-Once i (trailing_tp a d) s = ground arith
    rule-Once i (breakeven a f) s = ground arith
    rule-Once i (time_stop m v) s = ground arith
    rule-Once i (overextension_exit t) s = ground arith
    rule-Once i (profit_floor a f) s = ground arith
    rule-Once i (death_cross sh lo m) s = ground arith
    rule-Once i (recovery_exit p) s = ground arith

    rules-Once :
        (i : ℕ) (rules : List (ExitRule F)) (s : PositionState F)
        → Once i s (evaluate_rules rules s tick now closes days ret)
    unfolding evaluate_rules
    rules-Once i [] s = ground arith
    rules-Once i (rule ∷ rules) s =
        elim (Option-cases (evaluate_rule rule s tick now closes days ret).0) [
          | inl passed ↦
              let s' = (evaluate_rule rule s tick now closes days ret).1 in
              let (marked, marks) = rules-Once i rules s' in
              let kept = (evaluate_rule-Keeps tick now closes days ret rule s).levels i in
              rw (passed, evaluate_rules) (λ h. marked (kept h), marks)
          | inr (d, decided) ↦
              let once = rw decided at (rule-Once i rule s) in rw (decided, evaluate_rules) once
        ]

  evaluate-Once :
      (i : ℕ) (sheet : PositionSheet F) (s : PositionState F) (m : Moment F)
      → Once i s (evaluate sheet s m.tick m.now m.closes m.days)
  unfolding evaluate update_high
  evaluate-Once i sheet s m =
      let (marked, marks) =
        rules-Once m.tick _ m.closes m.days _ i sheet.rules (update_high m.tick.price s) in
      (λ h. marked (ground arith), marks)

  -- How often the evaluations of the ticks decide to sell level `i`.
  pub times_decided : ℕ → PositionSheet F → PositionState F → List (Moment F) → ℕ
  times_decided i sheet s [] = 0
  times_decided i sheet s (m ∷ ms) =
      let r = evaluate sheet s m.tick m.now m.closes m.days in
      let rest = times_decided i sheet r.1 ms in if names i r.0 then suc rest else rest

  marked_never :
      (i : ℕ) (sheet : PositionSheet F) (s : PositionState F) (ms : List (Moment F))
      → contains i s.scale_out_executed ≡ true
      → times_decided i sheet s ms ≡ 0
  unfolding times_decided
  marked_never i sheet s [] h = refl
  marked_never i sheet s (m ∷ ms) h =
      let r = evaluate sheet s m.tick m.now m.closes m.days in
      let kept = (evaluate-Keeps sheet s m.tick m.now m.closes m.days).levels i h in
      rw ((evaluate-Once i sheet s m).0 h, times_decided) (marked_never i sheet r.1 ms kept)

  -- Over any ticks, each level of `scale_out` is decided at most once.
  pub level_decided_once :
      (i : ℕ) (sheet : PositionSheet F) (s : PositionState F) (ms : List (Moment F))
      → times_decided i sheet s ms ≤ 1
  unfolding times_decided
  level_decided_once i sheet s [] = omega arith
  level_decided_once i sheet s (m ∷ ms) =
      let r = evaluate sheet s m.tick m.now m.closes m.days in
      let once = evaluate-Once i sheet s m in
      elim (Bool-cases (names i r.0)) [
        | inl decided ↦
            let none_later = marked_never i sheet r.1 ms (once.1 decided) in
            ground (arith, none_later, decided)
        | inr other ↦ let later = level_decided_once i sheet r.1 ms in ground (arith, later, other)
      ]
