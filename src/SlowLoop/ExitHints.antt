-- ===== src/SlowLoop/ExitHints.antt =====
-- The exit and entry hints of a candidate, brought to the form of the schema
-- (prime_jennie_runtime/slow_loop/strategy/engine.py, `_normalize_scout_exit_hint`,
-- `_sort_exit_rules` and `_normalize_scout_entry_hint`). A hint that is no dictionary counts as one
-- without a type.
pub mod Order
pub mod Supplied
use prime_jennie_runtime.Prelude.{
  ℕ, Bool, true, false, ◌&&◌, ◌||◌, Option, none, some, List, [], ◌∷◌, ◌++◌, leb, if◌then◌else◌,
}
use prime_jennie_runtime.Prelude.Dict.{is_some}
use prime_jennie_runtime.Prelude.Float.{Float}
use prime_jennie_runtime.PositionSheet.{StopMode, hold_days, eod, EntryTrigger, limit, market}
use prime_jennie_runtime.PositionSheet.Raw.{
  RuleType, fixed_sl, fixed_tp, trailing_tp, breakeven, scale_out, time_stop, overextension_exit,
  profit_floor, death_cross, trailing_stop, stop_loss, take_profit, is_type, RawRule,
}

-- `_EXIT_RULE_ORDER.get(type)`
abbrev pub exit_rule_order : RuleType → Option ℕ
exit_rule_order overextension_exit = some 0
exit_rule_order profit_floor = some 1
exit_rule_order trailing_tp = some 2
exit_rule_order fixed_tp = some 3
exit_rule_order scale_out = some 4
exit_rule_order breakeven = some 5
exit_rule_order death_cross = some 6
exit_rule_order fixed_sl = some 7
exit_rule_order time_stop = some 8
exit_rule_order _ = none

abbrev pub or_last : Option ℕ → ℕ
or_last none = 99
or_last (some n) = n

abbrev pub or_else {ℓ} : {A : Type ℓ} → Option A → Option A → Option A
or_else none later = later
or_else (some a) later = some a

abbrev pub has_type : {F : Type 0} → RuleType → RawRule F → Bool
has_type t r = elim r.type [ none ↦ false | some u ↦ is_type t u ]

abbrev pub is_known : {F : Type 0} → RawRule F → Bool
is_known r = elim r.type [ none ↦ false | some t ↦ is_some (exit_rule_order t) ]

-- The place of a rule that has a type.
abbrev pub order_of : {F : Type 0} → RawRule F → ℕ
order_of r = elim r.type [ none ↦ 99 | some t ↦ or_last (exit_rule_order t) ]

module _ {F : Type 0} where
  unfoldable pub any_of_type : RuleType → List (RawRule F) → Bool
  any_of_type t [] = false
  any_of_type t (r ∷ rs) = has_type t r || any_of_type t rs

  unfoldable pub all_typed : List (RawRule F) → Bool
  all_typed [] = true
  all_typed (r ∷ rs) = is_some r.type && all_typed rs

  -- The stable sort by `order_of`.
  unfoldable pub place : RawRule F → List (RawRule F) → List (RawRule F)
  place r [] = r ∷ []
  place r (s ∷ rs) =
      let rest = place r rs in if leb (order_of r) (order_of s) then r ∷ s ∷ rs else s ∷ rest

  unfoldable pub sort_by_order : List (RawRule F) → List (RawRule F)
  unfolding place
  sort_by_order [] = []
  sort_by_order (r ∷ rs) = place r (sort_by_order rs)

  -- `none` is the KeyError of a rule without a type.
  unfoldable pub sort_exit_rules : List (RawRule F) → Option (List (RawRule F))
  unfolding all_typed sort_by_order
  sort_exit_rules rules = if all_typed rules then some (sort_by_order rules) else none

  -- `{days: N}` becomes `{mode: hold_days, value: N}`.
  unfoldable pub rewrite_days : RawRule F → RawRule F
  rewrite_days r = record r {
    mode = or_else r.mode (some (if is_some r.days then hold_days else eod));
    value = or_else r.value r.days;
    days = none;
  }

  -- The first default rule of a type that the hint lacks.
  unfoldable pub first_of_type : RuleType → List (RawRule F) → List (RawRule F)
  first_of_type t [] = []
  first_of_type t (d ∷ ds) = let rest = first_of_type t ds in if has_type t d then d ∷ [] else rest

  unfoldable pub supplement : RuleType → List (RawRule F) → List (RawRule F) → List (RawRule F)
  unfolding any_of_type first_of_type
  supplement t normalized default_rules =
      if any_of_type t normalized then [] else first_of_type t default_rules

module _ {F : Type 0} ⦃fl : Float F⦄ where
  -- `{pct: X}` becomes `{activate_pct: 0.05, drop_pct: X}`.
  unfoldable pub as_trailing_tp : RawRule F → RawRule F
  as_trailing_tp r = record r {
    type = some trailing_tp;
    pct = none;
    activate_pct = or_else r.activate_pct (some (fl.decimal 5 2));
    drop_pct = or_else r.pct (or_else r.drop_pct (some (fl.decimal 3 2)));
  }

  unfoldable pub resolve_alias : RuleType → RawRule F → RawRule F
  unfolding as_trailing_tp
  resolve_alias trailing_stop r = as_trailing_tp r
  resolve_alias stop_loss r = record r { type = some fixed_sl }
  resolve_alias take_profit r = record r { type = some fixed_tp }
  resolve_alias _ r = r

  -- One pass of the loop: `none` where the rule is skipped.
  unfoldable pub normalize_rule : RawRule F → Option (RawRule F)
  unfolding resolve_alias rewrite_days
  normalize_rule r = elim r.type [
    | none ↦ none
    | some t ↦
        let aliased = resolve_alias t r in
        let timed = if has_type time_stop aliased then rewrite_days aliased else aliased in
        if is_known timed then some timed else none
  ]

  unfoldable pub normalize_rules : List (RawRule F) → List (RawRule F)
  unfolding normalize_rule
  normalize_rules [] = []
  normalize_rules (r ∷ rs) =
      let rest = normalize_rules rs in elim (normalize_rule r) [ none ↦ rest | some s ↦ s ∷ rest ]

  unfoldable pub normalize_scout_exit_hint : List (RawRule F) → List (RawRule F) → List (RawRule F)
  unfolding normalize_rules supplement
  normalize_scout_exit_hint raw_rules default_rules =
      let normalized = normalize_rules raw_rules in
      normalized
      ++ (supplement fixed_sl normalized default_rules
          ++ (supplement time_stop normalized default_rules
              ++ supplement trailing_tp normalized default_rules))

  -- A limit without a positive price becomes a market entry.
  unfoldable pub normalize_scout_entry_hint : EntryTrigger → Option F → EntryTrigger × Option F
  normalize_scout_entry_hint limit none = (market, none)
  normalize_scout_entry_hint limit (some price) =
      if fl.le price (fl.of_ℕ 0) then (market, none) else (limit, some price)
  normalize_scout_entry_hint market price = (market, price)
