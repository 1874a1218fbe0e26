-- ===== src/PositionSheet/Validation.antt =====
-- The checks of a whole sheet (prime_jennie_runtime/position_sheet/schema.py, `validate_all`). Whether
-- the id has the format is an argument, since ids are numbers here. `none` is a valid sheet; Python's
-- refusal to compare a naive time with an aware one is `not_comparable`.
pub mod Contents
pub mod Meaning
use prime_jennie_runtime.Prelude.{
  ℕ, ◌+◌, Bool, true, false, not, ◌&&◌, ◌||◌, Option, none, some, List, [], ◌∷◌, ltb, leb,
  if◌then◌else◌,
}
use prime_jennie_runtime.Prelude.Dict.{is_some}
use prime_jennie_runtime.Prelude.Float.{Float, lt, abs}
use prime_jennie_runtime.Prelude.Time.{
  Datetime, instant, seconds, time, time_of_day, kst_offset, offset_of,
}
use prime_jennie_runtime.PositionSheet.{
  ExitRule, fixed_sl, time_stop, scale_out, EntryTrigger, limit, market, StrategyTag, rsi_rebound,
  unlisted, PositionSheet,
}

pub data Invalid : Type 0 where
  bad_sheet_id not_comparable generated_too_late too_short after_close entry_outlives : Invalid
  wrong_final_pct final_pct_too_small limit_without_price market_with_price : Invalid
  no_fixed_sl no_time_stop portions_over_one deprecated_tag unknown_tag : Invalid

-- One of the two is naive and the other is not.
abbrev pub is_mixed : Datetime → Datetime → Bool
is_mixed a b =
    is_some a.offset && not (is_some b.offset) || not (is_some a.offset) && is_some b.offset

-- `valid_until.timetz() > time(15, 30, tzinfo=KST)`: both times of day are taken to UTC, on no date.
abbrev pub is_after_close : Datetime → Bool
is_after_close d = ltb (time 15 30 + offset_of d.offset) (time_of_day d + kst_offset)

abbrev pub check_times : Datetime → Datetime → Datetime → Option Invalid
check_times generated_at valid_until entry_until =
    if is_mixed generated_at valid_until
    then some not_comparable
    else if leb (instant valid_until) (instant generated_at)
    then some generated_too_late
    else if ltb (instant valid_until) (instant generated_at + seconds 60)
    then some too_short
    else if not (is_some valid_until.offset)
    then some not_comparable
    else if is_after_close valid_until
    then some after_close
    else if is_mixed entry_until valid_until
    then some not_comparable
    else if ltb (instant valid_until) (instant entry_until)
    then some entry_outlives
    else none

module _ {F : Type 0} where
  abbrev pub is_fixed_sl : ExitRule F → Bool
  is_fixed_sl (fixed_sl pct) = true
  is_fixed_sl _ = false

  abbrev pub is_time_stop : ExitRule F → Bool
  is_time_stop (time_stop mode value) = true
  is_time_stop _ = false

  unfoldable pub any_rule : (ExitRule F → Bool) → List (ExitRule F) → Bool
  any_rule test [] = false
  any_rule test (rule ∷ rules) = test rule || any_rule test rules

abbrev pub check_tag : StrategyTag → Option Invalid
check_tag rsi_rebound = some deprecated_tag
check_tag (unlisted tag) = some unknown_tag
check_tag _ = none

-- The first of two checks that finds something.
abbrev pub or_else : Option Invalid → Option Invalid → Option Invalid
or_else none later = later
or_else (some error) later = some error

module _ {F : Type 0} ⦃fl : Float F⦄ where
  abbrev pub min_position_pct : F
  min_position_pct = fl.decimal 5 3

  unfoldable pub check_size : PositionSheet F → Option Invalid
  check_size sheet =
      let z = sheet.size in
      let expected = fl.mul (fl.mul z.base_pct z.macro_multiplier) z.risk_multiplier in
      if fl.le (fl.decimal 1 9) (abs (fl.sub z.final_pct expected))
      then some wrong_final_pct
      else if lt z.final_pct min_position_pct
      then some final_pct_too_small
      else none

  unfoldable pub check_entry : EntryTrigger → Option F → Option Invalid
  check_entry limit none = some limit_without_price
  check_entry limit (some price) =
      if fl.le price (fl.of_ℕ 0) then some limit_without_price else none
  check_entry market none = none
  check_entry market (some price) = some market_with_price

  -- `sum(p for _, p in rule.levels)`
  unfoldable pub total_portion : F → List (F × F) → F
  total_portion total [] = total
  total_portion total ((trigger, portion) ∷ levels) = total_portion (fl.add total portion) levels

  abbrev pub portions_over : ExitRule F → Bool
  portions_over (scale_out levels) = lt (fl.decimal 10 1) (total_portion (fl.of_ℕ 0) levels)
  portions_over _ = false

  unfoldable pub check_rules : List (ExitRule F) → Option Invalid
  check_rules rules =
      if not (any_rule is_fixed_sl rules)
      then some no_fixed_sl
      else if not (any_rule is_time_stop rules)
      then some no_time_stop
      else if any_rule portions_over rules
      then some portions_over_one
      else none

  unfoldable pub validate_all : (ℕ → Bool) → PositionSheet F → Option Invalid
  unfolding check_size check_entry check_rules
  validate_all is_well_formed sheet =
      or_else (if is_well_formed sheet.sheet_id then none else some bad_sheet_id) (
        or_else (check_times sheet.generated_at sheet.valid_until sheet.entry.valid_until) (
          or_else (check_size sheet) (
            or_else (check_entry sheet.entry.trigger sheet.entry.price)
              (or_else (check_rules sheet.rules) (check_tag sheet.strategy_tag)))))
