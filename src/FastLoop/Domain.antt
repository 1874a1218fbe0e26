-- ===== src/FastLoop/Domain.antt =====
-- The fast loop's own types (prime_jennie_runtime/fast_loop/domain.py).
use prime_jennie_runtime.Prelude.{ℕ, Bool, Option, List, if◌then◌else◌}
use prime_jennie_runtime.Prelude.Float.{Float, lt}
use prime_jennie_runtime.Prelude.Time.{Datetime}

-- `scale_out_executed` is a set of level indices: a list of which only membership is read.
pub record PositionState (F : Type 0) : Type 0 where
  pub sheet_id : ℕ
  pub ticker : ℕ
  pub entry_price : F
  pub quantity : ℕ
  pub entered_at : Datetime
  pub high_watermark : F
  pub peak_return_pct : F
  pub trailing_active : Bool
  pub profit_floor_active : Bool
  pub breakeven_active : Bool
  pub breakeven_sl_price : Option F
  pub scale_out_executed : List ℕ
  pub death_cross_checked_at : Option Datetime
  pub overextension_triggered : Bool
  pub exit_fail_count : ℕ

pub record TickData (F : Type 0) : Type 0 where
  pub ticker : ℕ
  pub price : F
  pub ts : Datetime
  pub rsi_1m : Option F
  pub volume : Option F
  pub bid : Option F
  pub ask : Option F

-- The reasons that an exit decision is recorded under.
pub data Reason : Type 0 where
  fixed_sl fixed_tp trailing_tp breakeven breakeven_sl_raise scale_out time_stop : Reason
  overextension_exit profit_floor death_cross recovery_exit forced_liquidation : Reason

-- `matched_rule_type` is the reason, but for `breakeven_sl_raise`, whose rule is `breakeven`, and
-- `forced_liquidation`, which has none. The log payload `metadata` is left out, but for the index of
-- the level that a `scale_out` names there.
pub record ExitDecision (F : Type 0) : Type 0 where
  pub should_close : Bool
  pub reason : Reason
  pub portion : F
  pub new_sl_price : Option F
  pub level_index : Option ℕ

module _ {F : Type 0} ⦃fl : Float F⦄ where
  unfoldable pub update_high : F → PositionState F → PositionState F
  update_high price s =
      if lt s.high_watermark price
      then record s {
        high_watermark = price;
        peak_return_pct =
            if lt (fl.of_ℕ 0) s.entry_price
            then fl.sub (fl.div price s.entry_price) (fl.decimal 10 1)
            else s.peak_return_pct;
      }
      else s

  unfoldable pub current_return_pct : PositionState F → F → F
  current_return_pct s price =
      if fl.le s.entry_price (fl.of_ℕ 0)
      then fl.decimal 0 1
      else fl.sub (fl.div price s.entry_price) (fl.decimal 10 1)
