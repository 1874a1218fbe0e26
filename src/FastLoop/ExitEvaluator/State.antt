-- ===== src/FastLoop/ExitEvaluator/State.antt =====
-- What an evaluation may do to the position's state.
use prime_jennie_runtime.Prelude.{
  ℕ, suc, ◌≡◌, refl, ◌∙◌, true, Option, List, [], ◌∷◌, arith, Option-cases, inl, inr,
}
use prime_jennie_runtime.Prelude.Float.{Float}
use prime_jennie_runtime.Prelude.Time.{Datetime}
use prime_jennie_runtime.PositionSheet.{
  ExitRule, PositionSheet, trailing_tp, breakeven, scale_out, overextension_exit, profit_floor,
  death_cross,
}
use prime_jennie_runtime.FastLoop.Domain.{PositionState, TickData, update_high}
use prime_jennie_runtime.FastLoop.ExitRules.{
  contains, check_trailing_tp, check_breakeven, scale_out_from, check_scale_out,
  check_overextension, check_profit_floor, check_death_cross_rule,
}
use prime_jennie_runtime.FastLoop.ExitEvaluator.{evaluate_rule, evaluate_rules, evaluate}

contains-cons : (i j : ℕ) (xs : List ℕ) → contains i xs ≡ true → contains i (j ∷ xs) ≡ true
contains-cons i j xs h = ground arith

module _ {F : Type 0} ⦃fl : Float F⦄ where
  -- From `s` to `t` nothing that was latched is undone, and the position itself is untouched.
  pub record Keeps (s t : PositionState F) : Type 0 where
    pub sheet_id : t.sheet_id ≡ s.sheet_id
    pub ticker : t.ticker ≡ s.ticker
    pub entry_price : t.entry_price ≡ s.entry_price
    pub quantity : t.quantity ≡ s.quantity
    pub entered_at : t.entered_at ≡ s.entered_at
    pub exit_fail_count : t.exit_fail_count ≡ s.exit_fail_count
    pub high_watermark : fl.le s.high_watermark t.high_watermark ≡ true
    pub trailing : s.trailing_active ≡ true → t.trailing_active ≡ true
    pub profit_floor : s.profit_floor_active ≡ true → t.profit_floor_active ≡ true
    pub breakeven : s.breakeven_active ≡ true → t.breakeven_active ≡ true
    pub raised : s.breakeven_active ≡ true → t.breakeven_sl_price ≡ s.breakeven_sl_price
    pub overextension : s.overextension_triggered ≡ true → t.overextension_triggered ≡ true
    pub levels :
        (i : ℕ) → contains i s.scale_out_executed ≡ true → contains i t.scale_out_executed ≡ true

  Keeps-refl : (s : PositionState F) → Keeps s s
  Keeps-refl s = record {
    sheet_id = refl;
    ticker = refl;
    entry_price = refl;
    quantity = refl;
    entered_at = refl;
    exit_fail_count = refl;
    high_watermark = fl.le_refl s.high_watermark;
    trailing = λ h. h;
    profit_floor = λ h. h;
    breakeven = λ h. h;
    raised = λ _. refl;
    overextension = λ h. h;
    levels = λ i h. h;
  }

  Keeps-trans : (s t u : PositionState F) → Keeps s t → Keeps t u → Keeps s u
  Keeps-trans s t u p q = record {
    sheet_id = q.sheet_id ∙ p.sheet_id;
    ticker = q.ticker ∙ p.ticker;
    entry_price = q.entry_price ∙ p.entry_price;
    quantity = q.quantity ∙ p.quantity;
    entered_at = q.entered_at ∙ p.entered_at;
    exit_fail_count = q.exit_fail_count ∙ p.exit_fail_count;
    high_watermark =
        fl.le_trans s.high_watermark t.high_watermark u.high_watermark p.high_watermark
          q.high_watermark;
    trailing = λ h. q.trailing (p.trailing h);
    profit_floor = λ h. q.profit_floor (p.profit_floor h);
    breakeven = λ h. q.breakeven (p.breakeven h);
    raised = λ h. q.raised (p.breakeven h) ∙ p.raised h;
    overextension = λ h. q.overextension (p.overextension h);
    levels = λ i h. q.levels i (p.levels i h);
  }

  update_high-Keeps : (price : F) (s : PositionState F) → Keeps s (update_high price s)
  unfolding update_high
  update_high-Keeps price s =
      ground (arith, Keeps-refl s, fl.le_refl s.high_watermark, fl.le_total price s.high_watermark)

  trailing-Keeps :
      (activate drop : F) (s : PositionState F) (tick : TickData F) (ret : F)
      → Keeps s (check_trailing_tp activate drop s tick ret).1
  unfolding check_trailing_tp
  trailing-Keeps activate drop s tick ret = ground (arith, Keeps-refl s)

  breakeven-Keeps :
      (activate floor : F) (s : PositionState F) (tick : TickData F) (ret : F)
      → Keeps s (check_breakeven activate floor s tick ret).1
  unfolding check_breakeven
  breakeven-Keeps activate floor s tick ret = ground (arith, Keeps-refl s)

  level-Keeps :
      (idx : ℕ) (s : PositionState F)
      → Keeps s (record s { scale_out_executed = idx ∷ s.scale_out_executed })
  level-Keeps idx s =
      let k = Keeps-refl s in
      record {
        sheet_id = k.sheet_id;
        ticker = k.ticker;
        entry_price = k.entry_price;
        quantity = k.quantity;
        entered_at = k.entered_at;
        exit_fail_count = k.exit_fail_count;
        high_watermark = k.high_watermark;
        trailing = k.trailing;
        profit_floor = k.profit_floor;
        breakeven = k.breakeven;
        raised = k.raised;
        overextension = k.overextension;
        levels = λ i h. contains-cons i idx s.scale_out_executed h;
      }

  scale_out-Keeps :
      (idx : ℕ) (levels : List (F × F)) (s : PositionState F) (ret : F)
      → Keeps s (scale_out_from idx levels s ret).1
  unfolding scale_out_from
  scale_out-Keeps idx [] s ret = Keeps-refl s
  scale_out-Keeps idx ((t, p) ∷ levels) s ret =
      ground (arith, scale_out-Keeps (suc idx) levels s ret, Keeps-refl s, level-Keeps idx s)

  overextension-Keeps :
      (threshold : F) (s : PositionState F) (tick : TickData F)
      → Keeps s (check_overextension threshold s tick).1
  unfolding check_overextension
  overextension-Keeps threshold s tick = ground (arith, Keeps-refl s)

  profit_floor-Keeps :
      (activate floor : F) (s : PositionState F) (ret : F)
      → Keeps s (check_profit_floor activate floor s ret).1
  unfolding check_profit_floor
  profit_floor-Keeps activate floor s ret = ground (arith, Keeps-refl s)

  death_cross-Keeps :
      (short long : ℕ) (min_loss : F) (s : PositionState F) (now : Datetime)
      (closes : Option (List F)) (ret : F)
      → Keeps s (check_death_cross_rule short long min_loss s now closes ret).1
  unfolding check_death_cross_rule
  death_cross-Keeps short long min_loss s now closes ret = ground (arith, Keeps-refl s)

  module _ (tick : TickData F) (now : Datetime) (closes : Option (List F)) (days : ℕ)
      (ret : F) where
    pub evaluate_rule-Keeps :
        (rule : ExitRule F) (s : PositionState F)
        → Keeps s (evaluate_rule rule s tick now closes days ret).1
    unfolding evaluate_rule check_scale_out
    evaluate_rule-Keeps (trailing_tp a d) s = trailing-Keeps a d s tick ret
    evaluate_rule-Keeps (breakeven a f) s = breakeven-Keeps a f s tick ret
    evaluate_rule-Keeps (scale_out levels) s = scale_out-Keeps 0 levels s ret
    evaluate_rule-Keeps (overextension_exit t) s = overextension-Keeps t s tick
    evaluate_rule-Keeps (profit_floor a f) s = profit_floor-Keeps a f s ret
    evaluate_rule-Keeps (death_cross sh lo m) s = death_cross-Keeps sh lo m s now closes ret
    evaluate_rule-Keeps _ s = Keeps-refl s

    pub evaluate_rules-Keeps :
        (rules : List (ExitRule F)) (s : PositionState F)
        → Keeps s (evaluate_rules rules s tick now closes days ret).1
    unfolding evaluate_rules
    evaluate_rules-Keeps [] s = Keeps-refl s
    evaluate_rules-Keeps (rule ∷ rules) s =
        elim (Option-cases (evaluate_rule rule s tick now closes days ret).0) [
          | inl passed ↦
              rw (passed, evaluate_rules)
                (Keeps-trans s (evaluate_rule rule s tick now closes days ret).1 _
                  (evaluate_rule-Keeps rule s)
                  (evaluate_rules-Keeps rules (evaluate_rule rule s tick now closes days ret).1))
          | inr (d, decided) ↦ rw (decided, evaluate_rules) (evaluate_rule-Keeps rule s)
        ]

  -- One evaluation of a tick changes nothing of the position but its memory of prices and of rules:
  -- the sheet, the ticker, the entry, the quantity and the failure count stay, the highest price
  -- seen never falls, and no latch is undone: trailing, profit floor and overextension stay on,
  -- a raised stop keeps its price, and a level that was sold stays marked.
  pub evaluate-Keeps :
      (sheet : PositionSheet F) (s : PositionState F) (tick : TickData F) (now : Option Datetime)
      (closes : Option (List F)) (days : ℕ)
      → Keeps s (evaluate sheet s tick now closes days).1
  unfolding evaluate
  evaluate-Keeps sheet s tick now closes days =
      Keeps-trans s (update_high tick.price s) _ (update_high-Keeps tick.price s)
        (evaluate_rules-Keeps tick _ closes days _ sheet.rules (update_high tick.price s))
