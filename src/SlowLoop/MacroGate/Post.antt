-- ===== src/SlowLoop/MacroGate/Post.antt =====
-- When the gate is open after post-processing, and with which size.
use prime_jennie_runtime.Prelude.{
  ◌≡◌, refl, true, false, not, ◌&&◌, ◌||◌, List, arith, if◌then◌else◌,
}
use prime_jennie_runtime.Prelude.Float.{Float}
use prime_jennie_runtime.SlowLoop.MacroGate.{
  closed, MacroGateOutput, RecentMacroRun, MarketSnapshot, PostContext, check_closed_conditions,
  discretize_sync, is_closed, is_empty, found, run_post_processing,
}

module _ {F : Type 0} ⦃fl : Float F⦄ where
  -- The gate after post-processing is closed exactly when the model closed it, a deterministic
  -- condition holds and the override is not switched off, or an earlier run of the day is found
  -- closed, the guard is not switched off and the mode is not paper.
  pub post_gate :
      (raw : MacroGateOutput F) (snapshot : MarketSnapshot F) (history : List (RecentMacroRun F))
      (c : PostContext F)
      → is_closed (run_post_processing raw snapshot history c).output.gate
        ≡ is_closed raw.gate
          || not c.auto_override_disabled && not (is_empty (check_closed_conditions snapshot))
          || not c.reversal_guard_disabled && found c.lookup && not c.paper_mode
  unfolding run_post_processing
  post_gate raw snapshot history c = ground arith

  discretize_closed : (x : F) → (discretize_sync x closed).0 ≡ fl.decimal 0 1
  unfolding discretize_sync
  discretize_closed x = refl

  -- The sizes: a closed gate has size 0.0, and an open one 0.75 or 1.0 by the model's own size,
  -- 0.75 up to and including 0.75. The condition is that the literals 0.0, 0.75 and 1.0 compare as
  -- they should.
  pub post_size :
      (raw : MacroGateOutput F) (snapshot : MarketSnapshot F) (history : List (RecentMacroRun F))
      (c : PostContext F)
      → fl.le (fl.decimal 0 1) (fl.decimal 75 2) ≡ true
      → fl.le (fl.decimal 10 1) (fl.decimal 75 2) ≡ false
      → let o = (run_post_processing raw snapshot history c).output in
        o.size_multiplier ≡ (
          if is_closed o.gate
          then fl.decimal 0 1
          else if fl.le raw.size_multiplier (fl.decimal 75 2)
          then fl.decimal 75 2
          else fl.decimal 10 1)
  unfolding run_post_processing discretize_sync
  post_size raw snapshot history c zero_low one_high = ground (
    arith,
    fl.le_trans (fl.decimal 10 1) raw.size_multiplier (fl.decimal 75 2),
    fl.le_trans raw.size_multiplier (fl.decimal 0 1) (fl.decimal 75 2),
    fl.le_total raw.size_multiplier (fl.decimal 0 1),
    fl.le_total (fl.decimal 10 1) raw.size_multiplier,
    fl.le_trans (fl.decimal 10 1) (fl.decimal 0 1) (fl.decimal 75 2),
  )
