-- ===== src/SlowLoop/StrategyEngine/Outcomes.antt =====
-- Every outcome of the engine.
use prime_jennie_runtime.Prelude.{
  ℕ, ◌≡◌, ◌≢◌, ◌≤◌, ◌⊎◌, inl, inr, refl, sym, subst, true, false, Option, none, some, Option-cases,
  arith,
}
use prime_jennie_runtime.Prelude.Float.{Float, lt}
use prime_jennie_runtime.PositionSheet.{StrategyTag, rsi_rebound, unlisted}
use prime_jennie_runtime.PositionSheet.Validation.{min_position_pct}
use prime_jennie_runtime.PositionSheet.Validation.Meaning.{IsAllowed}
use prime_jennie_runtime.SlowLoop.StrategyEngine.Assembly.{
  raises, ScreeningCandidate, StrategyEntry, StrategyEngineInputs, Engine, assemble, final_pct,
  MacroGate, open_gate, closed, manual_override,
}
use prime_jennie_runtime.SlowLoop.StrategyEngine.Gates.{
  Passes, AssembledFrom, Branch, build_with_policy-Branch, tag-IsAllowed,
}
use prime_jennie_runtime.SlowLoop.StrategyEngine.{
  Reason, deprecated_tag, unknown_tag, no_policy, conviction_below_min, macro_closed,
  duplicate_today, recent_stoploss_cooldown, today_exit_cooldown, sector_cap_exceeded,
  size_below_min, Outcome, rejected, failed, built, SectorRun, start_run, count_of, count_sector,
  sector_is_full, is_closed, tag_reason, refusal, build_sheet_with_reason,
}

tag_reason_lem :
    (t : StrategyTag) (reason : Reason)
    → tag_reason t ≡ some reason
    → ((reason ≡ deprecated_tag) × (t ≡ rsi_rebound))
      ⊎ ((reason ≡ unknown_tag) × ((tag : ℕ) × (t ≡ unlisted tag)))
tag_reason_lem rsi_rebound reason h = inl (cc, refl)
tag_reason_lem (unlisted tag) reason h = inr (cc, (tag, refl))
tag_reason_lem _ reason h = absurd (cc)

is_closed_lem : (gate : MacroGate) → is_closed gate ≡ true → gate ≡ closed
is_closed_lem closed h = refl
is_closed_lem open_gate h = absurd (cc)
is_closed_lem manual_override h = absurd (cc)

open_lem : (gate : MacroGate) → is_closed gate ≡ false → gate ≢ closed
open_lem closed h = absurd (cc)
open_lem open_gate h = λ e. absurd (cc)
open_lem manual_override h = λ e. absurd (cc)

sector_is_full_lem :
    (cap : ℕ) (sector : Option ℕ) (run : SectorRun)
    → sector_is_full cap sector run ≡ true
    → (k : ℕ) × (sector ≡ some k) × (cap ≤ count_of k run)
unfolding sector_is_full
sector_is_full_lem cap none run h = absurd (cc)
sector_is_full_lem cap (some k) run h = (k, refl, ground arith)

module _ {F : Type 0} ⦃fl : Float F⦄ where
  -- The tag has a policy, and `P` holds of it.
  abbrev pub WithPolicy : Engine F → ScreeningCandidate F → (StrategyEntry F → Type 0) → Type 0
  WithPolicy engine candidate P =
      IsAllowed candidate.strategy_tag
      × ((entry : StrategyEntry F) × (engine.policy candidate.strategy_tag ≡ some entry) × P entry)

  -- What stands against the candidate under each reason, mostly with the gate before it passed.
  abbrev pub Refuses :
      Engine F → SectorRun → ScreeningCandidate F → StrategyEngineInputs F → Reason → Type 0
  Refuses engine run candidate inputs deprecated_tag = candidate.strategy_tag ≡ rsi_rebound
  Refuses engine run candidate inputs unknown_tag =
      (tag : ℕ) × (candidate.strategy_tag ≡ unlisted tag)
  Refuses engine run candidate inputs no_policy = engine.policy candidate.strategy_tag ≡ none
  Refuses engine run candidate inputs conviction_below_min =
      lt candidate.conviction engine.min_conviction ≡ true
  Refuses engine run candidate inputs macro_closed =
      (lt candidate.conviction engine.min_conviction ≡ false) × (inputs.gate ≡ closed)
  Refuses engine run candidate inputs duplicate_today =
      (inputs.gate ≢ closed)
      × (engine.checker.active_sheet_today candidate.ticker inputs.generated_at ≡ true)
  Refuses engine run candidate inputs recent_stoploss_cooldown =
      (engine.checker.active_sheet_today candidate.ticker inputs.generated_at ≡ false)
      × (engine.checker.recent_stop_loss candidate.ticker ≡ true)
  Refuses engine run candidate inputs today_exit_cooldown =
      (engine.checker.recent_stop_loss candidate.ticker ≡ false)
      × (engine.checker.recent_exit_today candidate.ticker inputs.generated_at ≡ true)
  Refuses engine run candidate inputs sector_cap_exceeded =
      (engine.checker.recent_exit_today candidate.ticker inputs.generated_at ≡ false)
      × ((sector : ℕ) × (engine.sector_of candidate.ticker ≡ some sector)
          × (engine.sector_cap ≤ count_of sector run))
  Refuses engine run candidate inputs size_below_min =
      (entry : StrategyEntry F) × (engine.policy candidate.strategy_tag ≡ some entry)
      × (lt (final_pct engine inputs entry) min_position_pct ≡ true)

  refusal-Refuses :
      (engine : Engine F) (run : SectorRun) (candidate : ScreeningCandidate F)
      (inputs : StrategyEngineInputs F) (entry : StrategyEntry F) (reason : Reason)
      → engine.policy candidate.strategy_tag ≡ some entry
      → refusal engine run candidate inputs entry ≡ some reason
      → Refuses engine run candidate inputs reason
  unfolding refusal sector_is_full
  refusal-Refuses engine run candidate inputs entry deprecated_tag found h = absurd (ground arith)
  refusal-Refuses engine run candidate inputs entry unknown_tag found h = absurd (ground arith)
  refusal-Refuses engine run candidate inputs entry no_policy found h = absurd (ground arith)
  refusal-Refuses engine run candidate inputs entry conviction_below_min found h = ground arith
  refusal-Refuses engine run candidate inputs entry macro_closed found h =
      (ground arith, is_closed_lem inputs.gate (ground arith))
  refusal-Refuses engine run candidate inputs entry duplicate_today found h =
      (open_lem inputs.gate (ground arith), ground arith)
  refusal-Refuses engine run candidate inputs entry recent_stoploss_cooldown found h = ground arith
  refusal-Refuses engine run candidate inputs entry today_exit_cooldown found h = ground arith
  refusal-Refuses engine run candidate inputs entry sector_cap_exceeded found h = (
    ground arith,
    sector_is_full_lem engine.sector_cap (engine.sector_of candidate.ticker) run (ground arith),
  )
  refusal-Refuses engine run candidate inputs entry size_below_min found h =
      (entry, found, ground arith)

  -- A refusal and a failure leave the sectors of the run as they are, a sheet counts in its sector.
  -- A failure and a sheet have passed every gate, and the sheet is valid and made of its inputs.
  abbrev pub Explained :
      Engine F
      → SectorRun
      → ScreeningCandidate F
      → StrategyEngineInputs F
      → Outcome F × SectorRun
      → Type 0
  Explained engine run candidate inputs (rejected reason, after) =
      Refuses engine run candidate inputs reason × (after ≡ run)
  Explained engine run candidate inputs (failed error, after) =
      WithPolicy engine candidate (λ entry.
        Passes engine run candidate inputs entry
        × (assemble engine candidate inputs entry ≡ raises error))
      × (after ≡ run)
  Explained engine run candidate inputs (built sheet, after) =
      WithPolicy engine candidate (λ entry.
        Passes engine run candidate inputs entry
        × AssembledFrom engine candidate inputs entry sheet)
      × (after ≡ count_sector (engine.sector_of candidate.ticker) run)

  tag-Refuses :
      (engine : Engine F) (run : SectorRun) (candidate : ScreeningCandidate F)
      (inputs : StrategyEngineInputs F) (reason : Reason)
      → tag_reason candidate.strategy_tag ≡ some reason
      → Refuses engine run candidate inputs reason
  tag-Refuses engine run candidate inputs reason h =
      elim (tag_reason_lem candidate.strategy_tag reason h) [
        | inl (is, tag) ↦ subst (Refuses engine run candidate inputs) (sym is) tag
        | inr (is, tag) ↦ subst (Refuses engine run candidate inputs) (sym is) tag
      ]

  explain :
      (engine : Engine F) (run : SectorRun) (candidate : ScreeningCandidate F)
      (inputs : StrategyEngineInputs F) (entry : StrategyEntry F) (result : Outcome F × SectorRun)
      → IsAllowed candidate.strategy_tag
      → engine.policy candidate.strategy_tag ≡ some entry
      → Branch engine run candidate inputs entry result
      → Explained engine run candidate inputs result
  explain engine run candidate inputs entry (rejected reason, after) allowed found (b, same) =
      (refusal-Refuses engine run candidate inputs entry reason found b, same)
  explain engine run candidate inputs entry (failed error, after) allowed found (p, b, same) =
      ((allowed, (entry, found, (p, b))), same)
  explain engine run candidate inputs entry (built sheet, after) allowed found (p, b, same) =
      ((allowed, (entry, found, (p, b))), same)

  -- Every outcome of the engine is explained: what a refusal's reason says is so of the candidate,
  -- its inputs and the checker's answers, and neither a refused candidate nor one whose assembly
  -- raises uses a slot of its sector; a candidate that becomes a sheet passed the gates on
  -- conviction, on the macro state, on the day's sheets, stops and exits, on its sector and on the
  -- least size, its sheet is valid and made of its inputs, and its sector's count grows by one.
  pub build_sheet_with_reason-Explained :
      (engine : Engine F) (state : SectorRun) (candidate : ScreeningCandidate F)
      (inputs : StrategyEngineInputs F)
      → Explained engine
          (start_run inputs.scout_run_id state)
          candidate
          inputs
          (build_sheet_with_reason engine state candidate inputs)
  unfolding build_sheet_with_reason
  build_sheet_with_reason-Explained engine state candidate inputs =
      let run = start_run inputs.scout_run_id state in
      elim (Option-cases (tag_reason candidate.strategy_tag)) [
        | inr (reason, refused) ↦
            rw (refused, build_sheet_with_reason)
              (tag-Refuses engine run candidate inputs reason refused, refl)
        | inl allowed ↦ elim (Option-cases (engine.policy candidate.strategy_tag)) [
          | inl missing ↦ rw (allowed, missing, build_sheet_with_reason) (missing, refl)
          | inr (entry, found) ↦
              rw (allowed, found, build_sheet_with_reason)
                (explain engine run candidate inputs entry _
                  (tag-IsAllowed candidate.strategy_tag allowed) found
                  (build_with_policy-Branch engine run candidate inputs entry))
        ]
      ]
