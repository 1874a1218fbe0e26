-- ===== src/SlowLoop/StrategyEngine/Gates.antt =====
-- What a sheet that the engine built has passed.
use prime_jennie_runtime.Prelude.{
  ℕ, ◌≡◌, refl, sym, subst, ◌⊎◌, inl, inr, Bool, false, Option, none, some, List, arith,
  Option-cases,
}
use prime_jennie_runtime.Prelude.Float.{Float, lt}
use prime_jennie_runtime.PositionSheet.{StrategyTag, PositionSheet, SizeSection}
use prime_jennie_runtime.PositionSheet.Raw.{RawRule, parse_size, parse_exit}
use prime_jennie_runtime.PositionSheet.Validation.{min_position_pct, validate_all}
use prime_jennie_runtime.PositionSheet.Validation.Meaning.{IsAllowed}
use prime_jennie_runtime.SlowLoop.ExitHints.{sort_exit_rules}
use prime_jennie_runtime.SlowLoop.SheetTimes.{sheet_valid_until}
use prime_jennie_runtime.SlowLoop.StrategyEngine.Assembly.{
  Raised, Built, raises, ok, ◌>>=◌, or_raise, checked_sheet, ScreeningCandidate, StrategyEntry,
  StrategyEngineInputs, Engine, size_section, final_pct, assemble_entry, raw_exit_rules,
  generate_sheet_id, assemble, bad_size, bad_entry, untyped_rule, bad_exit, bad_ticker,
}
use prime_jennie_runtime.SlowLoop.StrategyEngine.{
  Outcome, rejected, failed, built, SectorRun, sector_is_full, count_sector, tag_reason, is_closed,
  refusal, build_with_policy,
}

Built-cases : {A : Type 0} (m : Built A) → ((e : Raised) × (m ≡ raises e)) ⊎ ((a : A) × (m ≡ ok a))
Built-cases (raises e) = inl (e, refl)
Built-cases (ok a) = inr (a, refl)

bind_ok :
    {A B : Type 0} (m : Built A) (f : A → Built B) (b : B)
    → (m >>= f) ≡ ok b
    → (a : A) × (m ≡ ok a) × (f a ≡ ok b)
bind_ok (raises e) f b h = absurd (cc)
bind_ok (ok a) f b h = (a, refl, h)

or_raise_ok : {A : Type 0} (e : Raised) (o : Option A) (a : A) → or_raise e o ≡ ok a → o ≡ some a
or_raise_ok e none a h = absurd (cc)
or_raise_ok e (some b) a h = cc

pub tag-IsAllowed : (t : StrategyTag) → tag_reason t ≡ none → IsAllowed t
tag-IsAllowed t h = ground arith

module _ {F : Type 0} ⦃fl : Float F⦄ where
  parse_size_lem : (z w : SizeSection F) → parse_size z ≡ some w → w ≡ z
  unfolding parse_size
  parse_size_lem z w h = ground arith

  checked_sheet_lem :
      (is_well_formed : ℕ → Bool) (s t : PositionSheet F)
      → checked_sheet is_well_formed s ≡ ok t
      → (t ≡ s) × (validate_all is_well_formed s ≡ none)
  checked_sheet_lem is_well_formed s t h = elim (Option-cases (validate_all is_well_formed s)) [
    | inl valid ↦ let e : ok s ≡ ok t = rw (valid, checked_sheet) at h in (cc, valid)
    | inr (error, bad) ↦ absurd (let e : raises _ ≡ ok t = rw (bad, checked_sheet) at h in cc)
  ]

  -- The parts that a sheet was assembled from.
  abbrev pub AssembledFrom :
      Engine F
      → ScreeningCandidate F
      → StrategyEngineInputs F
      → StrategyEntry F
      → PositionSheet F
      → Type 0
  AssembledFrom engine candidate inputs entry sheet =
      (validate_all engine.is_well_formed sheet ≡ none)
      × (sheet.ticker ≡ candidate.ticker)
      × (sheet.strategy_tag ≡ candidate.strategy_tag)
      × (sheet.generated_at ≡ inputs.generated_at)
      × (sheet.valid_until ≡ sheet_valid_until inputs.generated_at)
      × (sheet.size ≡ size_section engine inputs entry)
      × (assemble_entry candidate inputs entry ≡ some sheet.entry)
      × (sheet.sheet_id ≡ engine.id_text candidate.ticker inputs.generated_at)
      × ((rules : List (RawRule F)) × (sort_exit_rules
              (raw_exit_rules candidate.exit_hint entry.default_exit_rules)
            ≡ some rules)
          × (parse_exit rules ≡ some sheet.rules))

  generate_sheet_id_lem :
      (engine : Engine F) (ticker : ℕ) (candidate : ScreeningCandidate F)
      (inputs : StrategyEngineInputs F) (id : ℕ)
      → generate_sheet_id engine.is_six_digits engine.id_text candidate.ticker inputs.generated_at
        ≡ some id
      → id ≡ engine.id_text candidate.ticker inputs.generated_at
  unfolding generate_sheet_id
  generate_sheet_id_lem engine ticker candidate inputs id h = ground arith

  pub assemble_lem :
      (engine : Engine F) (candidate : ScreeningCandidate F) (inputs : StrategyEngineInputs F)
      (entry : StrategyEntry F) (sheet : PositionSheet F)
      → assemble engine candidate inputs entry ≡ ok sheet
      → AssembledFrom engine candidate inputs entry sheet
  unfolding assemble
  assemble_lem engine candidate inputs entry sheet h =
      let (size, h1, k1) = bind_ok _ _ sheet h in
      let (section, h2, k2) = bind_ok _ _ sheet k1 in
      let (rules, h3, k3) = bind_ok _ _ sheet k2 in
      let (exit_rules, h4, k4) = bind_ok _ _ sheet k3 in
      let (id, h5, k5) = bind_ok _ _ sheet k4 in
      let (same, valid) = checked_sheet_lem engine.is_well_formed _ sheet k5 in
      let sized = parse_size_lem _ size (or_raise_ok bad_size _ size h1) in
      let named =
        generate_sheet_id_lem engine 0 candidate inputs id (or_raise_ok bad_ticker _ id h5) in
      subst (AssembledFrom engine candidate inputs entry) (sym same) (
        valid,
        refl,
        refl,
        refl,
        refl,
        sized,
        or_raise_ok bad_entry _ section h2,
        named,
        (rules, or_raise_ok untyped_rule _ rules h3, or_raise_ok bad_exit _ exit_rules h4),
      )

  -- No gate of the engine holds the candidate back.
  abbrev pub Passes :
      Engine F
      → SectorRun
      → ScreeningCandidate F
      → StrategyEngineInputs F
      → StrategyEntry F
      → Type 0
  Passes engine run candidate inputs entry =
      (lt candidate.conviction engine.min_conviction ≡ false)
      × (is_closed inputs.gate ≡ false)
      × (engine.checker.active_sheet_today candidate.ticker inputs.generated_at ≡ false)
      × (engine.checker.recent_stop_loss candidate.ticker ≡ false)
      × (engine.checker.recent_exit_today candidate.ticker inputs.generated_at ≡ false)
      × (sector_is_full engine.sector_cap (engine.sector_of candidate.ticker) run ≡ false)
      × (lt (final_pct engine inputs entry) min_position_pct ≡ false)

  refusal_lem :
      (engine : Engine F) (run : SectorRun) (candidate : ScreeningCandidate F)
      (inputs : StrategyEngineInputs F) (entry : StrategyEntry F)
      → refusal engine run candidate inputs entry ≡ none
      → Passes engine run candidate inputs entry
  unfolding refusal
  refusal_lem engine run candidate inputs entry h = ground arith

  -- What came of a candidate that has a policy, branch by branch.
  abbrev pub Branch :
      Engine F
      → SectorRun
      → ScreeningCandidate F
      → StrategyEngineInputs F
      → StrategyEntry F
      → Outcome F × SectorRun
      → Type 0
  Branch engine run candidate inputs entry (rejected reason, after) =
      (refusal engine run candidate inputs entry ≡ some reason) × (after ≡ run)
  Branch engine run candidate inputs entry (failed error, after) =
      Passes engine run candidate inputs entry
      × (assemble engine candidate inputs entry ≡ raises error)
      × (after ≡ run)
  Branch engine run candidate inputs entry (built sheet, after) =
      Passes engine run candidate inputs entry
      × AssembledFrom engine candidate inputs entry sheet
      × (after ≡ count_sector (engine.sector_of candidate.ticker) run)

  pub build_with_policy-Branch :
      (engine : Engine F) (run : SectorRun) (candidate : ScreeningCandidate F)
      (inputs : StrategyEngineInputs F) (entry : StrategyEntry F)
      → Branch engine run candidate inputs entry
          (build_with_policy engine run candidate inputs entry)
  unfolding build_with_policy
  build_with_policy-Branch engine run candidate inputs entry =
      elim (Option-cases (refusal engine run candidate inputs entry)) [
        | inr (reason, refused) ↦ rw (refused, build_with_policy) (refused, refl)
        | inl through ↦
            let passes = refusal_lem engine run candidate inputs entry through in
            elim (Built-cases (assemble engine candidate inputs entry)) [
              | inl (error, bad) ↦ rw (through, bad, build_with_policy) (passes, bad, refl)
              | inr (sheet, good) ↦
                  rw (through, good, build_with_policy)
                    (passes, assemble_lem engine candidate inputs entry sheet good, refl)
            ]
      ]
