-- ===== src/PositionSheet/Validation/Meaning.antt =====
-- What `validate_all` asks, stated as one.
use prime_jennie_runtime.Prelude.{
  ℕ, ◌+◌, ◌≤◌, ◌≡◌, ◌↔◌, Bool, true, false, Option, none, some, List, arith, if◌then◌else◌,
}
use prime_jennie_runtime.Prelude.Dict.{is_some}
use prime_jennie_runtime.Prelude.Float.{Float, lt, abs}
use prime_jennie_runtime.Prelude.Time.{
  Datetime, instant, seconds, time, time_of_day, kst_offset, offset_of,
}
use prime_jennie_runtime.PositionSheet.{
  ExitRule, PositionSheet, EntryTrigger, limit, market, StrategyTag, rsi_rebound, unlisted,
}
use prime_jennie_runtime.PositionSheet.Validation.{
  Invalid, bad_sheet_id, any_rule, is_fixed_sl, is_time_stop, portions_over, check_times, check_tag,
  check_size, check_entry, check_rules, min_position_pct, validate_all, or_else,
}

-- The three times are aware; the sheet lives for 60 seconds at least, ends by 15:30 in Korea and
-- outlives its entry window.
abbrev pub TimesFit : Datetime → Datetime → Datetime → Type 0
TimesFit generated_at valid_until entry_until =
    (is_some generated_at.offset ≡ true)
    × (is_some valid_until.offset ≡ true)
    × (is_some entry_until.offset ≡ true)
    × (instant generated_at + seconds 60 ≤ instant valid_until)
    × (time_of_day valid_until + kst_offset ≤ time 15 30 + offset_of valid_until.offset)
    × (instant entry_until ≤ instant valid_until)

pub times_lem : (g v e : Datetime) → (check_times g v e ≡ none) ↔ TimesFit g v e
times_lem g v e = ground arith

abbrev pub IsAllowed : StrategyTag → Type 0
IsAllowed rsi_rebound = ⊥
IsAllowed (unlisted tag) = ⊥
IsAllowed _ = Unit {0}

tag_lem : (t : StrategyTag) → (check_tag t ≡ none) ↔ IsAllowed t
tag_lem t = ground arith

or_else_lem : (a b : Option Invalid) → (or_else a b ≡ none) ↔ ((a ≡ none) × (b ≡ none))
or_else_lem a b = ground arith

module _ {F : Type 0} ⦃fl : Float F⦄ where
  -- A limit order has a positive price, a market order none.
  abbrev pub IsPriced : EntryTrigger → Option F → Type 0
  IsPriced limit none = ⊥
  IsPriced limit (some price) = fl.le price (fl.of_ℕ 0) ≡ false
  IsPriced market price = price ≡ none

  entry_lem : (t : EntryTrigger) (p : Option F) → (check_entry t p ≡ none) ↔ IsPriced t p
  unfolding check_entry
  entry_lem t p = ground arith

  abbrev pub IsSized : PositionSheet F → Type 0
  IsSized sheet =
      let z = sheet.size in
      (lt
          (abs
            (fl.sub z.final_pct (fl.mul (fl.mul z.base_pct z.macro_multiplier) z.risk_multiplier)))
          (fl.decimal 1 9)
        ≡ true)
      × (fl.le min_position_pct z.final_pct ≡ true)

  size_lem : (sheet : PositionSheet F) → (check_size sheet ≡ none) ↔ IsSized sheet
  unfolding check_size
  size_lem sheet = ground arith

  abbrev pub HasRules : List (ExitRule F) → Type 0
  HasRules rules =
      (any_rule is_fixed_sl rules ≡ true)
      × (any_rule is_time_stop rules ≡ true)
      × (any_rule portions_over rules ≡ false)

  rules_lem : (rules : List (ExitRule F)) → (check_rules rules ≡ none) ↔ HasRules rules
  unfolding check_rules
  rules_lem rules = ground arith

  -- A sheet is valid exactly when its id has the format, its times fit, its final size is the
  -- product of its factors within 1e-9 and not below the minimum, its entry is priced as its trigger
  -- asks, its rules have a fixed_sl and a time_stop and no scale_out of more than the whole, and its
  -- tag is an allowed one.
  pub validate_all_lem :
      (is_well_formed : ℕ → Bool) (sheet : PositionSheet F)
      → (validate_all is_well_formed sheet ≡ none) ↔ (
          (is_well_formed sheet.sheet_id ≡ true)
          × TimesFit sheet.generated_at sheet.valid_until sheet.entry.valid_until
          × IsSized sheet
          × IsPriced sheet.entry.trigger sheet.entry.price
          × HasRules sheet.rules
          × IsAllowed sheet.strategy_tag)
  unfolding validate_all
  validate_all_lem is_well_formed sheet =
      let times = times_lem sheet.generated_at sheet.valid_until sheet.entry.valid_until in
      let entry = entry_lem sheet.entry.trigger sheet.entry.price in
      let tag = tag_lem sheet.strategy_tag in
      let five = or_else_lem (check_rules sheet.rules) (check_tag sheet.strategy_tag) in
      let four = or_else_lem (check_entry sheet.entry.trigger sheet.entry.price) _ in
      let three = or_else_lem (check_size sheet) _ in
      let two =
        or_else_lem (check_times sheet.generated_at sheet.valid_until sheet.entry.valid_until) _ in
      let one = or_else_lem (if is_well_formed sheet.sheet_id then none else some bad_sheet_id) _ in
      (
        λ h.
            let (id, h1) = one.0 h in
            let (t, h2) = two.0 h1 in
            let (z, h3) = three.0 h2 in
            let (e, h4) = four.0 h3 in
            let (r, g) = five.0 h4 in
            (
              ground arith,
              times.0 t,
              (size_lem sheet).0 z,
              entry.0 e,
              (rules_lem sheet.rules).0 r,
              tag.0 g,
            ),
        λ (id, t, z, e, r, g). one.1 (
          ground arith,
          two.1 (
            times.1 t,
            three.1 (
              (size_lem sheet).1 z,
              four.1 (entry.1 e, five.1 ((rules_lem sheet.rules).1 r, tag.1 g)),
            ),
          ),
        ),
      )
