-- ===== src/SlowLoop/StrategyEngine/Assembly.antt =====
-- The assembly of a sheet behind the gates (prime_jennie_runtime/slow_loop/strategy/engine.py,
-- `build_sheet_with_reason` from section 4 on), and the types of its inputs. The checker, the sectors
-- and the throttle are the answers that the engine gets while it builds one sheet; the policy is a
-- function from tags. The id's text, of a date and of a part of a sha256 sum, is an argument, and so
-- are the tests on the text of a ticker and of an id. The provenance section, which copies its inputs,
-- is left out.
use prime_jennie_runtime.Prelude.{
  ℕ, Bool, true, false, not, ◌&&◌, Option, none, some, List, [], ◌∷◌, ◌++◌, if◌then◌else◌,
}
use prime_jennie_runtime.Prelude.Float.{Float, lt}
use prime_jennie_runtime.Prelude.Time.{Datetime}
use prime_jennie_runtime.PositionSheet.{
  StrategyTag, gap_up_rebound, EntryTrigger, SizeSection, EntrySection, PositionSheet,
}
use prime_jennie_runtime.PositionSheet.Raw.{
  RawRule, RawCondition, price_above, parse_size, parse_entry, parse_exit,
}
use prime_jennie_runtime.PositionSheet.Validation.{Invalid, validate_all}
use prime_jennie_runtime.SlowLoop.ActiveSheets.{ActiveSheetChecker}
use prime_jennie_runtime.SlowLoop.ExitHints.{
  sort_exit_rules, normalize_scout_exit_hint, normalize_scout_entry_hint,
}
use prime_jennie_runtime.SlowLoop.SheetTimes.{sheet_valid_until, entry_valid_until}

-- The exceptions of the assembly: a section that does not parse, a rule without a type, a ticker that
-- is not of six digits, and a sheet that `validate_all` refuses.
pub data Raised : Type 0 where
  bad_size bad_entry untyped_rule bad_exit bad_ticker : Raised
  bad_sheet : Invalid → Raised

pub data MacroGate : Type 0 where
  open_gate closed manual_override : MacroGate

pub record ScreeningCandidate (F : Type 0) : Type 0 where
  pub ticker : ℕ
  pub strategy_tag : StrategyTag
  pub conviction : F
  pub trigger : EntryTrigger
  pub price_hint : Option F
  pub conditions_hint : List (RawCondition F)
  pub exit_hint : Option (List (RawRule F))

pub record StrategyEntry (F : Type 0) : Type 0 where
  pub base_pct : F
  pub max_notional_krw : ℕ
  pub max_notional_pct : Option F
  pub default_exit_rules : List (RawRule F)
  pub default_entry_conditions : List (RawCondition F)

pub record StrategyEngineInputs (F : Type 0) : Type 0 where
  pub gate : MacroGate
  pub size_multiplier : F
  pub scout_run_id : ℕ
  pub generated_at : Datetime

-- What does not change while the engine builds a sheet.
pub record Engine (F : Type 0) : Type 0 where
  pub policy : StrategyTag → Option (StrategyEntry F)
  pub risk_multiplier : F
  pub checker : ActiveSheetChecker
  pub sector_of : ℕ → Option ℕ
  pub sector_cap : ℕ
  pub min_conviction : F
  pub is_six_digits : ℕ → Bool
  pub id_text : ℕ → Datetime → ℕ
  pub is_well_formed : ℕ → Bool

-- `generate_sheet_id`, `none` for its ValueError.
unfoldable pub generate_sheet_id : (ℕ → Bool) → (ℕ → Datetime → ℕ) → ℕ → Datetime → Option ℕ
generate_sheet_id is_six_digits id_text ticker generated_at =
    if is_six_digits ticker then some (id_text ticker generated_at) else none

-- The result of a step that may raise.
pub data Built (A : Type 0) : Type 0 where
  raises : Raised → Built A
  ok : A → Built A

abbrev pub or_raise : {A : Type 0} → Raised → Option A → Built A
or_raise error none = raises error
or_raise error (some a) = ok a

infixl 1 ◌>>=◌
abbrev pub ◌>>=◌ : {A B : Type 0} → Built A → (A → Built B) → Built B
raises error >>= f = raises error
ok a >>= f = f a

abbrev pub is_gap_up : StrategyTag → Bool
is_gap_up gap_up_rebound = true
is_gap_up _ = false

module _ {F : Type 0} where
  abbrev pub is_price_above : RawCondition F → Bool
  is_price_above c = elim c.type [ some price_above ↦ true | _ ↦ false ]

  unfoldable pub any_price_above : List (RawCondition F) → Bool
  any_price_above [] = false
  any_price_above (c ∷ cs) = if is_price_above c then true else any_price_above cs

  -- The hint's conditions, or those of the policy where it has none.
  unfoldable pub scout_conditions :
      List (RawCondition F) → List (RawCondition F) → List (RawCondition F)
  scout_conditions [] default_conditions = default_conditions
  scout_conditions (c ∷ cs) default_conditions = c ∷ cs

module _ {F : Type 0} ⦃fl : Float F⦄ where
  -- The price condition that a GAP_UP_REBOUND entry gets: 1.001 times the hinted price.
  unfoldable pub attach_price_above :
      StrategyTag → Option F → List (RawCondition F) → List (RawCondition F)
  unfolding any_price_above
  attach_price_above tag none conditions = conditions
  attach_price_above tag (some price) conditions =
      let breakout : RawCondition F = record {
        type = some price_above;
        value = some (fl.mul price (fl.decimal 1001 3));
        min_ratio = none;
        max_bps = none;
        threshold = none;
        lookback = none;
      } in
      if is_gap_up tag && lt (fl.of_ℕ 0) price && not (any_price_above conditions)
      then conditions ++ breakout ∷ []
      else conditions

  abbrev pub final_pct : Engine F → StrategyEngineInputs F → StrategyEntry F → F
  final_pct engine inputs entry =
      fl.mul (fl.mul entry.base_pct inputs.size_multiplier) engine.risk_multiplier

  abbrev pub size_section : Engine F → StrategyEngineInputs F → StrategyEntry F → SizeSection F
  size_section engine inputs entry = record {
    base_pct = entry.base_pct;
    macro_multiplier = inputs.size_multiplier;
    risk_multiplier = engine.risk_multiplier;
    final_pct = final_pct engine inputs entry;
    max_notional_krw = entry.max_notional_krw;
    max_notional_pct = entry.max_notional_pct;
  }

  -- Section 5 of the method.
  unfoldable pub assemble_entry :
      ScreeningCandidate F → StrategyEngineInputs F → StrategyEntry F → Option (EntrySection F)
  unfolding parse_entry attach_price_above scout_conditions normalize_scout_entry_hint
  assemble_entry candidate inputs entry =
      let (trigger, price) = normalize_scout_entry_hint candidate.trigger candidate.price_hint in
      let conditions = scout_conditions candidate.conditions_hint entry.default_entry_conditions in
      parse_entry trigger price (entry_valid_until inputs.generated_at)
        (attach_price_above candidate.strategy_tag price conditions)

  unfoldable pub raw_exit_rules : Option (List (RawRule F)) → List (RawRule F) → List (RawRule F)
  unfolding normalize_scout_exit_hint
  raw_exit_rules none default_rules = default_rules
  raw_exit_rules (some rules_hint) default_rules =
      normalize_scout_exit_hint rules_hint default_rules

  abbrev pub checked_sheet : (ℕ → Bool) → PositionSheet F → Built (PositionSheet F)
  checked_sheet is_well_formed sheet = elim (validate_all is_well_formed sheet) [
    | none ↦ ok sheet
    | some error ↦ raises (bad_sheet error)
  ]

  -- Sections 4 to 8, behind the gates.
  unfoldable pub assemble :
      Engine F
      → ScreeningCandidate F
      → StrategyEngineInputs F
      → StrategyEntry F
      → Built (PositionSheet F)
  unfolding assemble_entry raw_exit_rules generate_sheet_id parse_exit sort_exit_rules validate_all
  assemble engine candidate inputs entry = do
    size ← or_raise bad_size (parse_size (size_section engine inputs entry))
    entry_section ← or_raise bad_entry (assemble_entry candidate inputs entry)
    rules ←
        or_raise untyped_rule
          (sort_exit_rules (raw_exit_rules candidate.exit_hint entry.default_exit_rules))
    exit_rules ← or_raise bad_exit (parse_exit rules)
    sheet_id ←
        or_raise bad_ticker (
          generate_sheet_id engine.is_six_digits engine.id_text candidate.ticker
            inputs.generated_at)
    checked_sheet engine.is_well_formed (record {
      sheet_id = sheet_id;
      generated_at = inputs.generated_at;
      valid_until = sheet_valid_until inputs.generated_at;
      ticker = candidate.ticker;
      strategy_tag = candidate.strategy_tag;
      size = size;
      entry = entry_section;
      rules = exit_rules;
    })
