-- ===== src/FastLoop/ExitRules.antt =====
-- The checkers of the ten exit rules (prime_jennie_runtime/fast_loop/exit_evaluator.py). A checker that changes the state returns it
-- with its decision.
use Prim.Native.Nat.{◌%◌}
use prime_jennie_runtime.Prelude.{
  ℕ, suc, Bool, true, false, ◌||◌, Option, none, some, List, [], ◌∷◌, leb, ◌==◌, ◌&&◌,
  if◌then◌else◌,
}
use prime_jennie_runtime.Prelude.Float.{Float, lt, neg}
use prime_jennie_runtime.Prelude.Time.{Datetime, date, time, day, wall_in_kst, time_of_day}
use prime_jennie_runtime.PositionSheet.{StopMode, eod, hold_days}
use prime_jennie_runtime.FastLoop.Domain.{PositionState, TickData, ExitDecision, Reason}
use prime_jennie_runtime.FastLoop.Indicators.{check_death_cross}

-- `idx in state.scale_out_executed`
abbrev pub contains : ℕ → List ℕ → Bool
contains i [] = false
contains i (x ∷ xs) = i == x || contains i xs

abbrev pub time_stop_cutoff : ℕ
time_stop_cutoff = time 15 20

-- `now.astimezone(KST)`, or for a naive value `now.replace(tzinfo=KST)`: its time of day.
unfoldable pub kst_time : Datetime → ℕ
kst_time now = elim now.offset [ none ↦ time_of_day now | some _ ↦ wall_in_kst now % day ]

-- `state.death_cross_checked_at.date() == now.date()`
abbrev pub checked_today : Option Datetime → Datetime → Bool
checked_today none now = false
checked_today (some at) now = date at == date now

-- What a checker hands back: its decision, and the state that it leaves.
abbrev pub Checked : Type 0 → Type 0
Checked F = Option (ExitDecision F) × PositionState F

module _ {F : Type 0} ⦃fl : Float F⦄ where
  -- `_make_decision(should_close=True, …)` for the whole position.
  abbrev pub close_all : Reason → ExitDecision F
  close_all reason = record {
    should_close = true;
    reason = reason;
    portion = fl.decimal 10 1;
    new_sl_price = none;
    level_index = none;
  }

  unfoldable pub sl_threshold : F → PositionState F → F
  sl_threshold pct s =
      let threshold = fl.mul s.entry_price (fl.sub (fl.decimal 10 1) pct) in
      elim s.breakeven_sl_price [
        | none ↦ threshold
        | some raised ↦ if lt threshold raised then raised else threshold
      ]

  unfoldable pub check_fixed_sl : F → PositionState F → TickData F → Option (ExitDecision F)
  unfolding sl_threshold
  check_fixed_sl pct s tick =
      if fl.le tick.price (sl_threshold pct s) then some (close_all Reason.fixed_sl) else none

  unfoldable pub check_fixed_tp : F → F → Option (ExitDecision F)
  check_fixed_tp pct current_return =
      if fl.le pct current_return then some (close_all Reason.fixed_tp) else none

  unfoldable pub trailing_stop : F → PositionState F → TickData F → Option (ExitDecision F)
  trailing_stop drop_pct s tick =
      if lt tick.price (fl.mul s.high_watermark (fl.sub (fl.decimal 10 1) drop_pct))
      then some (close_all Reason.trailing_tp)
      else none

  unfoldable pub check_trailing_tp : F → F → PositionState F → TickData F → F → Checked F
  unfolding trailing_stop
  check_trailing_tp activate_pct drop_pct s tick current_return =
      if s.trailing_active
      then (trailing_stop drop_pct s tick, s)
      else if fl.le activate_pct current_return
      then (trailing_stop drop_pct s tick, record s { trailing_active = true })
      else (none, s)

  -- The part of `_check_breakeven` behind its assertion that the raised price is set.
  unfoldable pub breakeven_decision : F → TickData F → ExitDecision F
  breakeven_decision floor_price tick =
      if fl.le tick.price floor_price
      then record {
        should_close = true;
        reason = Reason.breakeven;
        portion = fl.decimal 10 1;
        new_sl_price = some floor_price;
        level_index = none;
      }
      else record {
        should_close = false;
        reason = Reason.breakeven_sl_raise;
        portion = fl.decimal 10 1;
        new_sl_price = some floor_price;
        level_index = none;
      }

  unfoldable pub raise_floor : F → PositionState F → TickData F → Checked F
  unfolding breakeven_decision
  raise_floor floor_price s tick = (some (breakeven_decision floor_price tick), s)

  -- Where the flag is set and the price is not, the source raises AssertionError, which is
  -- `rule_raises` of the evaluator; the result written here for that case stands for no result.
  unfoldable pub check_breakeven : F → F → PositionState F → TickData F → F → Checked F
  unfolding raise_floor
  check_breakeven activate_pct floor_pct s tick current_return =
      let floor_price = fl.mul s.entry_price (fl.add (fl.decimal 10 1) floor_pct) in
      if s.breakeven_active
      then elim s.breakeven_sl_price [ none ↦ (none, s) | some p ↦ raise_floor p s tick ]
      else if fl.le activate_pct current_return
      then raise_floor floor_price
          (record s { breakeven_active = true; breakeven_sl_price = some floor_price }) tick
      else (none, s)

  abbrev scale_out_decision : ℕ → F → ExitDecision F
  scale_out_decision idx portion_pct = record {
    should_close = true;
    reason = Reason.scale_out;
    portion = portion_pct;
    new_sl_price = none;
    level_index = some idx;
  }

  -- The loop over `enumerate(rule.levels)`, from index `idx`.
  unfoldable pub scale_out_from : ℕ → List (F × F) → PositionState F → F → Checked F
  scale_out_from idx [] s current_return = (none, s)
  scale_out_from idx ((trigger_pct, portion_pct) ∷ levels) s current_return =
      let rest = scale_out_from (suc idx) levels s current_return in
      if contains idx s.scale_out_executed
      then rest
      else if fl.le trigger_pct current_return
      then (
        some (scale_out_decision idx portion_pct),
        record s { scale_out_executed = idx ∷ s.scale_out_executed },
      )
      else (none, s)

  unfoldable pub check_scale_out : List (F × F) → PositionState F → F → Checked F
  unfolding scale_out_from
  check_scale_out levels s current_return = scale_out_from 0 levels s current_return

  unfoldable pub check_time_stop : StopMode → Option ℕ → Datetime → ℕ → Option (ExitDecision F)
  unfolding kst_time
  check_time_stop eod value now entered_business_days =
      if leb time_stop_cutoff (kst_time now) then some (close_all Reason.time_stop) else none
  check_time_stop hold_days none now entered_business_days = none
  check_time_stop hold_days (some value) now entered_business_days =
      if leb value entered_business_days && leb time_stop_cutoff (kst_time now)
      then some (close_all Reason.time_stop)
      else none

  unfoldable pub check_overextension : F → PositionState F → TickData F → Checked F
  check_overextension rsi_threshold s tick =
      if s.overextension_triggered then (none, s) else elim tick.rsi_1m [
        | none ↦ (none, s)
        | some rsi ↦
            if fl.le rsi_threshold rsi
            then (
              some (close_all Reason.overextension_exit),
              record s { overextension_triggered = true },
            )
            else (none, s)
      ]

  unfoldable pub floor_breach : F → F → Option (ExitDecision F)
  floor_breach floor_pct current_return =
      if lt current_return floor_pct then some (close_all Reason.profit_floor) else none

  unfoldable pub check_profit_floor : F → F → PositionState F → F → Checked F
  unfolding floor_breach
  check_profit_floor activate_pct floor_pct s current_return =
      if s.profit_floor_active
      then (floor_breach floor_pct current_return, s)
      else if fl.le activate_pct s.peak_return_pct
      then (floor_breach floor_pct current_return, record s { profit_floor_active = true })
      else (none, s)

  unfoldable pub check_recovery_exit : F → F → Option (ExitDecision F)
  check_recovery_exit pct current_return =
      if fl.le pct current_return then some (close_all Reason.recovery_exit) else none

  abbrev is_empty : Option (List F) → Bool
  is_empty none = true
  is_empty (some []) = true
  is_empty (some (x ∷ xs)) = false

  abbrev closes_of : Option (List F) → List F
  closes_of none = []
  closes_of (some closes) = closes

  unfoldable pub check_death_cross_rule :
      ℕ → ℕ → F → PositionState F → Datetime → Option (List F) → F → Checked F
  check_death_cross_rule ma_short ma_long min_loss_pct s now daily_closes current_return =
      if is_empty daily_closes
      then (none, s)
      else if checked_today s.death_cross_checked_at now
      then (none, s)
      else if fl.le current_return (neg min_loss_pct)
      then (
        if check_death_cross (closes_of daily_closes) ma_short ma_long (fl.decimal 2 3)
            then some (close_all Reason.death_cross)
            else none,
        record s { death_cross_checked_at = some now },
      )
      else (none, s)
