-- ===== src/FastLoop/RiskThrottle.antt =====
-- The intraday risk throttle (prime_jennie_runtime/fast_loop/risk_throttle.py): five levels, worse
-- ones at once, better ones a level at a time behind a timer. Times are in microseconds. Redis is the
-- value of its two keys; that they expire or are damaged between calls is a step of the environment
-- (RiskThrottle/Recovery).
pub mod Levels
pub mod Recovery
use prime_jennie_runtime.Prelude.{
  ℕ, zero, suc, ◌+◌, ◌-◌, ◌*◌, Bool, true, false, not, ◌||◌, Option, none, some, ltb, leb, ◌==◌,
  if◌then◌else◌,
}
use prime_jennie_runtime.Prelude.Float.{Float, neg}
use prime_jennie_runtime.Prelude.Time.{seconds}

pub data Level : Type 0 where
  normal caution warning danger critical : Level

-- RISK_LEVEL_SEVERITY
abbrev pub severity : Level → ℕ
severity normal = 0
severity caution = 1
severity warning = 2
severity danger = 3
severity critical = 4

-- _SEVERITY_TO_LEVEL, which the code asks for severities of levels only.
abbrev pub level_of : ℕ → Level
level_of zero = normal
level_of (suc zero) = caution
level_of (suc (suc zero)) = warning
level_of (suc (suc (suc zero))) = danger
level_of (suc (suc (suc (suc n)))) = critical

-- RECOVERY_CYCLES, with the default of `.get(prev_level, 1)`.
abbrev pub recovery_cycles : Level → ℕ
recovery_cycles critical = 6
recovery_cycles danger = 4
recovery_cycles warning = 2
recovery_cycles caution = 1
recovery_cycles normal = 1

abbrev pub recovery_cycle_sec : ℕ
recovery_cycle_sec = 300

abbrev pub required : Level → ℕ
required level = seconds (recovery_cycles level * recovery_cycle_sec)

-- The text under REDIS_LEVEL_KEY, and the one under REDIS_RECOVERY_KEY.
pub data StoredLevel : Type 0 where
  no_level unknown_level : StoredLevel
  level : Level → StoredLevel

pub data StoredTimer : Type 0 where
  no_timer damaged_timer : StoredTimer
  started : ℕ → StoredTimer

pub record Redis : Type 0 where
  pub stored_level : StoredLevel
  pub recovery_start : StoredTimer

abbrev pub worse : Level → Level → Level
worse floor raw = if ltb (severity raw) (severity floor) then floor else raw

module _ {F : Type 0} ⦃fl : Float F⦄ where
  -- LEVEL_MULTIPLIER
  abbrev pub level_multiplier : Level → F
  level_multiplier normal = fl.decimal 10 1
  level_multiplier caution = fl.decimal 8 1
  level_multiplier warning = fl.decimal 6 1
  level_multiplier danger = fl.decimal 3 1
  level_multiplier critical = fl.decimal 0 1

  unfoldable pub calc_intraday_multiplier : F → F → Level × F
  calc_intraday_multiplier kospi_change vix =
      if fl.le kospi_change (neg (fl.decimal 40 1))
      then (critical, fl.decimal 0 1)
      else if fl.le kospi_change (neg (fl.decimal 30 1)) || fl.le (fl.of_ℕ 40) vix
      then (danger, fl.decimal 3 1)
      else if fl.le kospi_change (neg (fl.decimal 20 1)) || fl.le (fl.of_ℕ 35) vix
      then (warning, fl.decimal 6 1)
      else if fl.le kospi_change (neg (fl.decimal 10 1)) || fl.le (fl.of_ℕ 30) vix
      then (caution, fl.decimal 8 1)
      else (normal, fl.decimal 10 1)

  unfoldable pub sox_floor : Option F → Level
  sox_floor none = normal
  sox_floor (some sox_change_pct) =
      if fl.le sox_change_pct (neg (fl.decimal 30 1))
      then warning
      else if fl.le sox_change_pct (neg (fl.decimal 20 1))
      then caution
      else normal

  unfoldable pub apply_sox_floor : Level → Option F → Level
  unfolding sox_floor
  apply_sox_floor raw_level sox_change_pct = worse (sox_floor sox_change_pct) raw_level

  -- `_apply_recovery_logic`: the new level with its multiplier, and what Redis holds after it.
  unfoldable pub recover : ℕ → Level → StoredTimer → (Level × F) × StoredTimer
  recover now prev_level no_timer = ((prev_level, level_multiplier prev_level), started now)
  recover now prev_level damaged_timer = ((prev_level, level_multiplier prev_level), started now)
  recover now prev_level (started recovery_start) =
      let new_level = level_of (severity prev_level - 1) in
      if leb (recovery_start + required prev_level) now
      then ((new_level, level_multiplier new_level), started now)
      else ((prev_level, level_multiplier prev_level), started recovery_start)

  unfoldable pub apply_recovery_logic :
      Level → Level → F → ℕ → StoredTimer → (Level × F) × StoredTimer
  unfolding recover
  apply_recovery_logic prev_level raw_level raw_multiplier now timer =
      if leb (severity prev_level) (severity raw_level)
      then ((raw_level, raw_multiplier), no_timer)
      else recover now prev_level timer

-- `IntradayRiskThrottle`: the cached level and multiplier, with the keys of its Redis.
pub record Throttle (F : Type 0) : Type 0 where
  pub current_level : Level
  pub current_mult : F
  pub redis : Redis

pub record RiskUpdateResult (F : Type 0) : Type 0 where
  pub level : Level
  pub intraday_multiplier : F
  pub prev_level : Level
  pub level_changed : Bool
  pub raw_level : Level

abbrev pub known_or : Level → StoredLevel → Level
known_or cached no_level = cached
known_or cached unknown_level = cached
known_or cached (level l) = l

module _ {F : Type 0} ⦃fl : Float F⦄ where
  -- A new throttle over the keys that Redis holds, and `load_state`.
  unfoldable pub new_throttle : Redis → Throttle F
  new_throttle r = record { current_level = normal; current_mult = fl.decimal 10 1; redis = r }

  unfoldable pub load_state : Throttle F → Throttle F
  load_state s = elim s.redis.stored_level [
    | no_level ↦ s
    | unknown_level ↦ s
    | level l ↦ record s { current_level = l; current_mult = level_multiplier l }
  ]

  abbrev pub value_or_zero : Option F → F
  value_or_zero none = fl.decimal 0 1
  value_or_zero (some vix) = vix

  -- The level behind both signals, with the multiplier that the code pairs with it.
  unfoldable pub effective_raw : F → Option F → Option F → Level × F
  unfolding calc_intraday_multiplier apply_sox_floor
  effective_raw kospi_pct vix sox_pct =
      let (raw_level, raw_mult) = calc_intraday_multiplier kospi_pct (value_or_zero vix) in
      let effective_raw_level = apply_sox_floor raw_level sox_pct in
      (
        effective_raw_level,
        if severity effective_raw_level == severity raw_level
            then raw_mult
            else level_multiplier effective_raw_level,
      )

  unfoldable pub update : Throttle F → F → Option F → Option F → ℕ → Throttle F × RiskUpdateResult F
  unfolding effective_raw apply_recovery_logic
  update s kospi_pct vix sox_pct now =
      let (raw_level, raw_mult) = effective_raw kospi_pct vix sox_pct in
      let prev_level = known_or s.current_level s.redis.stored_level in
      let (applied, timer) =
        apply_recovery_logic prev_level raw_level raw_mult now s.redis.recovery_start in
      (
        record {
          current_level = applied.0;
          current_mult = applied.1;
          redis = record { stored_level = level applied.0; recovery_start = timer };
        },
        record {
          level = applied.0;
          intraday_multiplier = applied.1;
          prev_level = prev_level;
          level_changed = not (severity applied.0 == severity prev_level);
          raw_level = raw_level;
        },
      )
