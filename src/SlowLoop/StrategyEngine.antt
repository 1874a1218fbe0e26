-- ===== src/SlowLoop/StrategyEngine.antt =====
-- The strategy engine (prime_jennie_runtime/slow_loop/strategy/engine.py, `StrategyEngine`): a
-- candidate of the scout becomes a position sheet, or is refused for a reason, or the assembly raises.
-- The log is left out.
pub mod Assembly
pub mod Gates
pub mod Outcomes
pub mod Sheets
pub mod Rules
use prime_jennie_runtime.Prelude.{
  ℕ, suc, Bool, true, false, Option, none, some, [], leb, ◌==◌, if◌then◌else◌,
}
use prime_jennie_runtime.Prelude.Dict.{Dict, lookup, insert}
use prime_jennie_runtime.Prelude.Float.{Float, lt}
use prime_jennie_runtime.PositionSheet.{StrategyTag, rsi_rebound, unlisted, PositionSheet}
use prime_jennie_runtime.PositionSheet.Validation.{min_position_pct}
use prime_jennie_runtime.SlowLoop.StrategyEngine.Assembly.{
  Raised, MacroGate, closed, ScreeningCandidate, StrategyEntry, StrategyEngineInputs, Engine,
  final_pct, assemble, raises, ok,
}

-- `rejection_reason`
pub data Reason : Type 0 where
  deprecated_tag unknown_tag no_policy conviction_below_min macro_closed : Reason
  duplicate_today recent_stoploss_cooldown today_exit_cooldown : Reason
  sector_cap_exceeded size_below_min : Reason

pub record SectorRun : Type 0 where
  pub sector_run_id : Option ℕ
  pub sector_counts : Dict ℕ

pub data Outcome (F : Type 0) : Type 0 where
  rejected : Reason → Outcome F
  failed : Raised → Outcome F
  built : PositionSheet F → Outcome F

abbrev pub new_sector_run : SectorRun
new_sector_run = record { sector_run_id = none; sector_counts = [] }

-- `if inputs.scout_run_id != self._sector_run_id`
unfoldable pub start_run : ℕ → SectorRun → SectorRun
start_run scout_run_id run =
    let fresh : SectorRun = record { sector_run_id = some scout_run_id; sector_counts = [] } in
    elim run.sector_run_id [ none ↦ fresh | some id ↦ if id == scout_run_id then run else fresh ]

abbrev pub count_of : ℕ → SectorRun → ℕ
count_of sector run = elim (lookup sector run.sector_counts) [ none ↦ 0 | some n ↦ n ]

unfoldable pub sector_is_full : ℕ → Option ℕ → SectorRun → Bool
sector_is_full cap none run = false
sector_is_full cap (some sector) run = leb cap (count_of sector run)

unfoldable pub count_sector : Option ℕ → SectorRun → SectorRun
count_sector none run = run
count_sector (some sector) run = record run {
  sector_counts = insert sector (suc (count_of sector run)) run.sector_counts;
}

abbrev pub tag_reason : StrategyTag → Option Reason
tag_reason rsi_rebound = some deprecated_tag
tag_reason (unlisted tag) = some unknown_tag
tag_reason _ = none

abbrev pub is_closed : MacroGate → Bool
is_closed closed = true
is_closed _ = false

module _ {F : Type 0} ⦃fl : Float F⦄ where
  -- The gates behind the policy's, in the order of the code.
  unfoldable pub refusal :
      Engine F
      → SectorRun
      → ScreeningCandidate F
      → StrategyEngineInputs F
      → StrategyEntry F
      → Option Reason
  unfolding sector_is_full
  refusal engine run candidate inputs entry =
      let asked = engine.checker in
      if lt candidate.conviction engine.min_conviction
      then some conviction_below_min
      else if is_closed inputs.gate
      then some macro_closed
      else if asked.active_sheet_today candidate.ticker inputs.generated_at
      then some duplicate_today
      else if asked.recent_stop_loss candidate.ticker
      then some recent_stoploss_cooldown
      else if asked.recent_exit_today candidate.ticker inputs.generated_at
      then some today_exit_cooldown
      else if sector_is_full engine.sector_cap (engine.sector_of candidate.ticker) run
      then some sector_cap_exceeded
      else if lt (final_pct engine inputs entry) min_position_pct
      then some size_below_min
      else none

  unfoldable pub build_with_policy :
      Engine F
      → SectorRun
      → ScreeningCandidate F
      → StrategyEngineInputs F
      → StrategyEntry F
      → Outcome F × SectorRun
  unfolding refusal assemble count_sector
  build_with_policy engine run candidate inputs entry =
      elim (refusal engine run candidate inputs entry) [
        | some reason ↦ (rejected reason, run)
        | none ↦ elim (assemble engine candidate inputs entry) [
          | raises error ↦ (failed error, run)
          | ok sheet ↦ (built sheet, count_sector (engine.sector_of candidate.ticker) run)
        ]
      ]

  unfoldable pub build_sheet_with_reason :
      Engine F → SectorRun → ScreeningCandidate F → StrategyEngineInputs F → Outcome F × SectorRun
  unfolding start_run build_with_policy
  build_sheet_with_reason engine state candidate inputs =
      let run = start_run inputs.scout_run_id state in
      elim (tag_reason candidate.strategy_tag) [
        | some reason ↦ (rejected reason, run)
        | none ↦ elim (engine.policy candidate.strategy_tag) [
          | none ↦ (rejected no_policy, run)
          | some entry ↦ build_with_policy engine run candidate inputs entry
        ]
      ]
