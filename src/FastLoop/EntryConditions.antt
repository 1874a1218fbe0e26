-- ===== src/FastLoop/EntryConditions.antt =====
-- The entry conditions of a waiting sheet (prime_jennie_runtime/fast_loop/pending_entry.py,
-- `EntryConditionEvaluator`). The indicators are those of `IndicatorProvider`: functions that may
-- have no answer yet. The figures inside a reason text are left out.
pub mod Outcome
use Prim.Native.Nat.{◌%◌}
use prime_jennie_runtime.Prelude.{
  ℕ, Bool, true, false, ◌||◌, Option, none, some, List, [], ◌∷◌, leb, if◌then◌else◌,
}
use prime_jennie_runtime.Prelude.Float.{Float, lt}
use prime_jennie_runtime.Prelude.Time.{Datetime, time, day, wall_in_kst, at_or_before}
use prime_jennie_runtime.PositionSheet.{
  PositionSheet, EntryCondition, price_below, price_above, volume_over_ma20, spread_under_bps,
  rsi_under, price_above_recent_high,
}
use prime_jennie_runtime.FastLoop.Domain.{TickData}
use prime_jennie_runtime.FastLoop.BarEngine.{
  Engine, volume_ma20, intraday_cum_volume, rsi, recent_high,
}

pub data Reason : Type 0 where
  before_market_open entry_valid_until_expired no_conditions all_passed : Reason
  price_below_fail price_above_fail : Reason
  volume_over_ma20_no_data volume_over_ma20_zero_ma volume_over_ma20_fail : Reason
  rsi_under_no_data rsi_under_fail : Reason
  price_above_recent_high_no_data price_above_recent_high_fail : Reason
  spread_under_bps_no_quote spread_under_bps_invalid_mid spread_under_bps_fail : Reason

-- `none` where the condition holds, and the reason where it does not.
abbrev pub Verdict : Type 0
Verdict = Option Reason

pub record EvaluationResult : Type 0 where
  pub passed : Bool
  pub reason : Reason

pub record Indicators (F : Type 0) : Type 0 where
  pub volume_ma20 : ℕ → Option F
  pub intraday_cum_volume : ℕ → Option F
  pub rsi_1m : ℕ → Option F
  pub recent_high : ℕ → ℕ → Option F

abbrev pub require : Bool → Reason → Verdict
require true reason = none
require false reason = some reason

-- `kst.time() >= MARKET_OPEN_TIME`, a naive time being taken for UTC.
unfoldable pub is_after_market_open : Datetime → Bool
is_after_market_open now = leb (time 9 0) (wall_in_kst now % day)

module _ {F : Type 0} ⦃fl : Float F⦄ where
  unfoldable pub volume_verdict : F → Option F → Option F → Verdict
  volume_verdict min_ratio (some ma20) (some cum_vol) =
      if fl.le ma20 (fl.of_ℕ 0)
      then some volume_over_ma20_zero_ma
      else require (fl.le min_ratio (fl.div cum_vol ma20)) volume_over_ma20_fail
  volume_verdict min_ratio _ _ = some volume_over_ma20_no_data

  unfoldable pub spread_verdict : F → Option F → Option F → Verdict
  spread_verdict max_bps (some ask) (some bid) =
      let mid = fl.div (fl.add ask bid) (fl.decimal 20 1) in
      if fl.le ask (fl.of_ℕ 0) || fl.le bid (fl.of_ℕ 0)
      then some spread_under_bps_no_quote
      else if fl.le mid (fl.of_ℕ 0)
      then some spread_under_bps_invalid_mid
      else require (fl.le (fl.mul (fl.div (fl.sub ask bid) mid) (fl.decimal 100000 1)) max_bps)
          spread_under_bps_fail
  spread_verdict max_bps _ _ = some spread_under_bps_no_quote

  abbrev pub known : Reason → Option F → (F → Verdict) → Verdict
  known no_data none test = some no_data
  known no_data (some x) test = test x

  unfoldable pub evaluate_one : EntryCondition F → TickData F → Indicators F → Verdict
  unfolding volume_verdict spread_verdict
  evaluate_one (price_below value) tick ind = require (lt tick.price value) price_below_fail
  evaluate_one (price_above value) tick ind = require (lt value tick.price) price_above_fail
  evaluate_one (volume_over_ma20 min_ratio) tick ind =
      volume_verdict min_ratio (ind.volume_ma20 tick.ticker) (ind.intraday_cum_volume tick.ticker)
  evaluate_one (rsi_under threshold) tick ind =
      known rsi_under_no_data (ind.rsi_1m tick.ticker)
        λ rsi. require (lt rsi threshold) rsi_under_fail
  evaluate_one (price_above_recent_high lookback) tick ind =
      known price_above_recent_high_no_data (ind.recent_high tick.ticker lookback)
        λ high. require (lt high tick.price) price_above_recent_high_fail
  evaluate_one (spread_under_bps max_bps) tick ind = spread_verdict max_bps tick.ask tick.bid

  -- The loop over the conditions: the first that fails has the last word.
  unfoldable pub first_failure : List (EntryCondition F) → TickData F → Indicators F → Verdict
  unfolding evaluate_one
  first_failure [] tick ind = none
  first_failure (cond ∷ conditions) tick ind =
      let rest = first_failure conditions tick ind in
      elim (evaluate_one cond tick ind) [ none ↦ rest | some reason ↦ some reason ]

  abbrev pub result_of : List (EntryCondition F) → Verdict → EvaluationResult
  result_of conditions (some reason) = record { passed = false; reason = reason }
  result_of [] none = record { passed = true; reason = no_conditions }
  result_of (cond ∷ conditions) none = record { passed = true; reason = all_passed }

  unfoldable pub evaluate :
      PositionSheet F → TickData F → Indicators F → Datetime → EvaluationResult
  unfolding is_after_market_open first_failure
  evaluate sheet tick ind now =
      let conditions = sheet.entry.conditions in
      if is_after_market_open now
      then if at_or_before sheet.entry.valid_until now
        then record { passed = false; reason = entry_valid_until_expired }
        else result_of conditions (first_failure conditions tick ind)
      else record { passed = false; reason = before_market_open }

  -- `BarEngineIndicatorProvider`, at a time.
  unfoldable pub bar_engine_indicators : Engine F → ℕ → Indicators F
  bar_engine_indicators engine now = record {
    volume_ma20 = λ ticker. volume_ma20 engine ticker 20;
    intraday_cum_volume = λ ticker. some (intraday_cum_volume engine ticker now);
    rsi_1m = λ ticker. rsi engine ticker 14;
    recent_high = λ ticker lookback. recent_high engine ticker lookback;
  }
