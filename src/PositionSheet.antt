-- ===== src/PositionSheet.antt =====
-- The position sheet, the contract between the slow and the fast loop
-- (prime_jennie_runtime/position_sheet/schema.py). Sheet ids and tickers are only compared and sorted
-- by the code modelled here, so they are numbers.
pub mod Validation
pub mod Raw
use prime_jennie_runtime.Prelude.{ℕ, Option, List}
use prime_jennie_runtime.Prelude.Time.{Datetime}

pub data StopMode : Type 0 where
  eod hold_days : StopMode

-- The ten exit rules.
pub data ExitRule (F : Type 0) : Type 0 where
  fixed_sl : (pct : F) → ExitRule F
  fixed_tp : (pct : F) → ExitRule F
  trailing_tp : (activate_pct drop_pct : F) → ExitRule F
  breakeven : (activate_pct floor_pct : F) → ExitRule F
  scale_out : (levels : List (F × F)) → ExitRule F
  time_stop : (mode : StopMode) (value : Option ℕ) → ExitRule F
  overextension_exit : (rsi_threshold : F) → ExitRule F
  profit_floor : (activate_pct floor_pct : F) → ExitRule F
  death_cross : (ma_short ma_long : ℕ) (min_loss_pct : F) → ExitRule F
  recovery_exit : (pct : F) → ExitRule F

-- The six entry conditions.
pub data EntryCondition (F : Type 0) : Type 0 where
  price_below : (value : F) → EntryCondition F
  price_above : (value : F) → EntryCondition F
  volume_over_ma20 : (min_ratio : F) → EntryCondition F
  spread_under_bps : (max_bps : F) → EntryCondition F
  rsi_under : (threshold : F) → EntryCondition F
  price_above_recent_high : (lookback : ℕ) → EntryCondition F

pub data EntryTrigger : Type 0 where
  limit market : EntryTrigger

pub record SizeSection (F : Type 0) : Type 0 where
  pub base_pct : F
  pub macro_multiplier : F
  pub risk_multiplier : F
  pub final_pct : F
  pub max_notional_krw : ℕ
  pub max_notional_pct : Option F

pub record EntrySection (F : Type 0) : Type 0 where
  pub trigger : EntryTrigger
  pub price : Option F
  pub valid_until : Datetime
  pub conditions : List (EntryCondition F)

-- The strategy tags: the five that are allowed, the deprecated one, and any other text.
pub data StrategyTag : Type 0 where
  gap_up_rebound sector_momentum earnings_drift mean_revert_rsi manual_adopt : StrategyTag
  rsi_rebound : StrategyTag
  unlisted : ℕ → StrategyTag

-- `rules` is `exit.rules`. The provenance section is left out: no code modelled here reads it.
pub record PositionSheet (F : Type 0) : Type 0 where
  pub sheet_id : ℕ
  pub generated_at : Datetime
  pub valid_until : Datetime
  pub ticker : ℕ
  pub strategy_tag : StrategyTag
  pub size : SizeSection F
  pub entry : EntrySection F
  pub rules : List (ExitRule F)
