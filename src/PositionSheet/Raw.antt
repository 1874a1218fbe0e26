-- ===== src/PositionSheet/Raw.antt =====
-- Exit rules and entry conditions as the untyped dictionaries that hints and the policy carry, and
-- their parsing into the schema (prime_jennie_runtime/position_sheet/schema.py). A key that is absent
-- and one whose value is null are both `none`, and the values have the types of the schema; keys that
-- no rule has are dropped by the parser and left out. A result `none` is a validation error.
use prime_jennie_runtime.Prelude.{
  ℕ, ◌+◌, Bool, true, ◌&&◌, Option, none, some, List, [], ◌∷◌, leb, ◌==◌, if◌then◌else◌, ◌>>=◌,
}
use prime_jennie_runtime.Prelude.Float.{Float, lt, neg}
use prime_jennie_runtime.PositionSheet.{
  StopMode, ExitRule, EntryCondition, EntryTrigger, EntrySection, SizeSection,
}
use prime_jennie_runtime.Prelude.Time.{Datetime}

-- The text under "type": the ten types of the schema, three aliases, and any other text.
pub data RuleType : Type 0 where
  fixed_sl fixed_tp trailing_tp breakeven scale_out time_stop overextension_exit : RuleType
  profit_floor death_cross recovery_exit : RuleType
  trailing_stop stop_loss take_profit : RuleType
  unlisted : ℕ → RuleType

abbrev pub code : RuleType → ℕ
code fixed_sl = 0
code fixed_tp = 1
code trailing_tp = 2
code breakeven = 3
code scale_out = 4
code time_stop = 5
code overextension_exit = 6
code profit_floor = 7
code death_cross = 8
code recovery_exit = 9
code trailing_stop = 10
code stop_loss = 11
code take_profit = 12
code (unlisted text) = 13 + text

abbrev pub is_type : RuleType → RuleType → Bool
is_type a b = code a == code b

pub record RawRule (F : Type 0) : Type 0 where
  pub type : Option RuleType
  pub pct : Option F
  pub activate_pct : Option F
  pub drop_pct : Option F
  pub floor_pct : Option F
  pub levels : Option (List (F × F))
  pub mode : Option StopMode
  pub value : Option ℕ
  pub days : Option ℕ
  pub rsi_threshold : Option F
  pub ma_short : Option ℕ
  pub ma_long : Option ℕ
  pub min_loss_pct : Option F

pub data ConditionType : Type 0 where
  price_below price_above volume_over_ma20 spread_under_bps rsi_under : ConditionType
  price_above_recent_high : ConditionType
  unlisted_condition : ℕ → ConditionType

pub record RawCondition (F : Type 0) : Type 0 where
  pub type : Option ConditionType
  pub value : Option F
  pub min_ratio : Option F
  pub max_bps : Option F
  pub threshold : Option F
  pub lookback : Option ℕ

-- `Field(ge=low, le=high)` and the like: the value under a test.
abbrev pub checked {ℓ} : {A : Type ℓ} → (A → Bool) → Option A → Option A
checked test none = none
checked test (some a) = if test a then some a else none

abbrev pub within : ℕ → ℕ → ℕ → Bool
within low high n = leb low n && leb n high

-- `price_above_recent_high` with its default lookback.
abbrev pub lookback_or_default : Option ℕ → ℕ
lookback_or_default none = 5
lookback_or_default (some lookback) = lookback

module _ {F : Type 0} ⦃fl : Float F⦄ where
  abbrev pub is_positive : F → Bool
  is_positive a = lt (fl.of_ℕ 0) a

  -- `gt=0, le=0.10`
  abbrev pub is_stop_pct : F → Bool
  is_stop_pct a = is_positive a && fl.le a (fl.decimal 10 2)

  -- `gt=0, le=100`
  abbrev pub is_rsi : F → Bool
  is_rsi a = is_positive a && fl.le a (fl.of_ℕ 100)

  -- `ge=-0.10, le=0.0`
  abbrev pub is_recovery_pct : F → Bool
  is_recovery_pct a = fl.le (neg (fl.decimal 10 2)) a && fl.le a (fl.of_ℕ 0)

  unfoldable pub parse_fields : RuleType → RawRule F → Option (ExitRule F)
  parse_fields fixed_sl r = do pct ← checked is_stop_pct r.pct; some (ExitRule.fixed_sl pct)
  parse_fields fixed_tp r = do pct ← checked is_positive r.pct; some (ExitRule.fixed_tp pct)
  parse_fields trailing_tp r = do
    activate_pct ← checked is_positive r.activate_pct
    drop_pct ← checked is_positive r.drop_pct
    some (ExitRule.trailing_tp activate_pct drop_pct)
  parse_fields breakeven r = do
    activate_pct ← checked is_positive r.activate_pct
    floor_pct ← checked is_positive r.floor_pct
    some (ExitRule.breakeven activate_pct floor_pct)
  parse_fields scale_out r = do levels ← r.levels; some (ExitRule.scale_out levels)
  parse_fields time_stop r = do mode ← r.mode; some (ExitRule.time_stop mode r.value)
  parse_fields overextension_exit r = do
    rsi_threshold ← checked is_rsi r.rsi_threshold
    some (ExitRule.overextension_exit rsi_threshold)
  parse_fields profit_floor r = do
    activate_pct ← checked is_positive r.activate_pct
    floor_pct ← checked is_positive r.floor_pct
    some (ExitRule.profit_floor activate_pct floor_pct)
  parse_fields death_cross r = do
    ma_short ← r.ma_short
    ma_long ← r.ma_long
    min_loss_pct ← checked is_positive r.min_loss_pct
    some (ExitRule.death_cross ma_short ma_long min_loss_pct)
  parse_fields recovery_exit r = do
    pct ← checked is_recovery_pct r.pct
    some (ExitRule.recovery_exit pct)
  parse_fields _ r = none

  unfoldable pub parse_rule : RawRule F → Option (ExitRule F)
  unfolding parse_fields
  parse_rule r = do type ← r.type; parse_fields type r

  unfoldable pub parse_rules : List (RawRule F) → Option (List (ExitRule F))
  unfolding parse_rule
  parse_rules [] = some []
  parse_rules (r ∷ rs) = do rule ← parse_rule r; rules ← parse_rules rs; some (rule ∷ rules)

  -- `ExitSection(rules=...)`: one rule at least.
  unfoldable pub parse_exit : List (RawRule F) → Option (List (ExitRule F))
  unfolding parse_rules
  parse_exit [] = none
  parse_exit (r ∷ rs) = parse_rules (r ∷ rs)

  unfoldable pub parse_condition_fields : ConditionType → RawCondition F → Option (EntryCondition F)
  parse_condition_fields price_below c = do value ← c.value; some (EntryCondition.price_below value)
  parse_condition_fields price_above c = do value ← c.value; some (EntryCondition.price_above value)
  parse_condition_fields volume_over_ma20 c = do
    min_ratio ← c.min_ratio
    some (EntryCondition.volume_over_ma20 min_ratio)
  parse_condition_fields spread_under_bps c = do
    max_bps ← c.max_bps
    some (EntryCondition.spread_under_bps max_bps)
  parse_condition_fields rsi_under c = do
    threshold ← checked is_rsi c.threshold
    some (EntryCondition.rsi_under threshold)
  parse_condition_fields price_above_recent_high c = do
    lookback ← checked (within 1 60) (some (lookback_or_default c.lookback))
    some (EntryCondition.price_above_recent_high lookback)
  parse_condition_fields (unlisted_condition text) c = none

  unfoldable pub parse_condition : RawCondition F → Option (EntryCondition F)
  unfolding parse_condition_fields
  parse_condition c = do type ← c.type; parse_condition_fields type c

  unfoldable pub parse_conditions : List (RawCondition F) → Option (List (EntryCondition F))
  unfolding parse_condition
  parse_conditions [] = some []
  parse_conditions (c ∷ cs) = do
    condition ← parse_condition c
    conditions ← parse_conditions cs
    some (condition ∷ conditions)

  -- `EntrySection(...)`
  unfoldable pub parse_entry :
      EntryTrigger → Option F → Datetime → List (RawCondition F) → Option (EntrySection F)
  unfolding parse_conditions
  parse_entry trigger price valid_until raw = do
    conditions ← parse_conditions raw
    some (record {
      trigger = trigger;
      price = price;
      valid_until = valid_until;
      conditions = conditions;
    })

  abbrev pub is_notional_pct : Option F → Bool
  is_notional_pct none = true
  is_notional_pct (some pct) = is_positive pct && fl.le pct (fl.decimal 25 2)

  -- `ge=0, le=1.0`
  abbrev pub is_multiplier : F → Bool
  is_multiplier a = fl.le (fl.of_ℕ 0) a && fl.le a (fl.decimal 10 1)

  -- `SizeSection(...)`
  unfoldable pub parse_size : SizeSection F → Option (SizeSection F)
  parse_size z =
      if is_stop_pct z.base_pct
        && is_multiplier z.macro_multiplier
        && is_multiplier z.risk_multiplier
        && fl.le (fl.of_ℕ 0) z.final_pct
        && fl.le z.final_pct (fl.decimal 10 2)
        && leb 1 z.max_notional_krw
        && is_notional_pct z.max_notional_pct
      then some z
      else none
