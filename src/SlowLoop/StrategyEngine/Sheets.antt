-- ===== src/SlowLoop/StrategyEngine/Sheets.antt =====
-- What the sheets of the engine are like: when they can be built, and the rules that they carry.
use prime_jennie_runtime.Prelude.{
  ℕ, ◌≡◌, ◌≤◌, ◌%◌, ◌⊎◌, inl, inr, refl, sym, ap, subst, ◌∙◌, true, false, Option, none, some, List,
  [], ◌∷◌, Bool-cases,
}
use prime_jennie_runtime.Prelude.Float.{Float}
use prime_jennie_runtime.Prelude.Time.{Datetime, day, time, wall_in_kst}
use prime_jennie_runtime.PositionSheet.{ExitRule, PositionSheet, EntrySection, EntryTrigger}
use prime_jennie_runtime.PositionSheet.Raw.{
  trailing_tp, RawRule, RawCondition, parse_rules, parse_exit, parse_entry, parse_conditions,
}
use prime_jennie_runtime.PositionSheet.Validation.{any_rule}
use prime_jennie_runtime.PositionSheet.Validation.Meaning.{
  HasRules, TimesFit, times_lem, validate_all_lem,
}
use prime_jennie_runtime.SlowLoop.ExitHints.{
  any_of_type, all_typed, sort_by_order, sort_exit_rules, normalize_scout_entry_hint,
}
use prime_jennie_runtime.SlowLoop.ExitHints.Order.{Ordered, sort-Ordered}
use prime_jennie_runtime.SlowLoop.ExitHints.Supplied.{any-sort, hint_is_supplied}
use prime_jennie_runtime.SlowLoop.SheetTimes.{sheet_valid_until, entry_valid_until, sheet_times_fit}
use prime_jennie_runtime.SlowLoop.StrategyEngine.Assembly.{
  ScreeningCandidate, StrategyEntry, StrategyEngineInputs, Engine, attach_price_above,
  scout_conditions, assemble_entry, raw_exit_rules,
}
use prime_jennie_runtime.SlowLoop.StrategyEngine.Outcomes.{
  Explained, WithPolicy, build_sheet_with_reason-Explained,
}
use prime_jennie_runtime.SlowLoop.StrategyEngine.Gates.{AssembledFrom}
use prime_jennie_runtime.SlowLoop.StrategyEngine.{
  Outcome, built, SectorRun, start_run, build_sheet_with_reason,
}
use prime_jennie_runtime.SlowLoop.StrategyEngine.Rules.{
  IsOrdered, is_trailing_tp, bind_some, parse_rules-IsOrdered, parse_rules-any,
}

module _ {F : Type 0} ⦃fl : Float F⦄ where
  parse_entry_lem :
      (trigger : EntryTrigger) (price : Option F) (until : Datetime) (raw : List (RawCondition F))
      (section : EntrySection F)
      → parse_entry trigger price until raw ≡ some section
      → section.valid_until ≡ until
  unfolding parse_entry
  parse_entry_lem trigger price until raw section h =
      let (conditions, k, e) = bind_some (parse_conditions raw) _ section h in
      let same : record {
        trigger = trigger;
        price = price;
        valid_until = until;
        conditions = conditions;
      }
          ≡ section =
        cc in
      ap (λ x. x.valid_until) (sym same)

  assemble_entry_lem :
      (candidate : ScreeningCandidate F) (inputs : StrategyEngineInputs F) (entry : StrategyEntry F)
      (section : EntrySection F)
      → assemble_entry candidate inputs entry ≡ some section
      → section.valid_until ≡ entry_valid_until inputs.generated_at
  unfolding assemble_entry
  assemble_entry_lem candidate inputs entry section h =
      let (trigger, price) = normalize_scout_entry_hint candidate.trigger candidate.price_hint in
      parse_entry_lem trigger price (entry_valid_until inputs.generated_at)
        (attach_price_above candidate.strategy_tag price
          (scout_conditions candidate.conditions_hint entry.default_entry_conditions))
        section h

  -- The facts of a built sheet, from the explanation of the outcome.
  built_lem :
      (engine : Engine F) (run : SectorRun) (candidate : ScreeningCandidate F)
      (inputs : StrategyEngineInputs F) (result : Outcome F × SectorRun) (sheet : PositionSheet F)
      → Explained engine run candidate inputs result
      → result.0 ≡ built sheet
      → WithPolicy engine candidate (λ entry. AssembledFrom engine candidate inputs entry sheet)
  built_lem engine run candidate inputs result sheet explained h =
      let paired : result ≡ (built sheet, result.1) = ap (λ o. (o, result.1)) h in
      let ((allowed, (entry, found, (passes, made))), counted) =
        subst (Explained engine run candidate inputs) paired explained in
      (allowed, (entry, found, made))

  -- A sheet is built only by 15:29:00 in Korea or in the last minute before midnight: between the two
  -- a candidate is refused or its assembly raises.
  pub built_before_close :
      (engine : Engine F) (state : SectorRun) (candidate : ScreeningCandidate F)
      (inputs : StrategyEngineInputs F) (wall offset : ℕ) (sheet : PositionSheet F)
      → inputs.generated_at ≡ record { wall = wall; offset = some offset }
      → (build_sheet_with_reason engine state candidate inputs).0 ≡ built sheet
      → (wall_in_kst inputs.generated_at % day ≤ time 15 29)
        ⊎ (time 23 59 ≤ wall_in_kst inputs.generated_at % day)
  built_before_close engine state candidate inputs wall offset sheet at h =
      let (allowed, (entry, found, made)) =
        built_lem engine (start_run inputs.scout_run_id state) candidate inputs _ sheet
          (build_sheet_with_reason-Explained engine state candidate inputs) h in
      let section = assemble_entry_lem candidate inputs entry sheet.entry made.6 in
      let fits = ((validate_all_lem engine.is_well_formed sheet).0 made.0).1 in
      let g : Datetime = record { wall = wall; offset = some offset } in
      let fits' : TimesFit g (sheet_valid_until g) (entry_valid_until g) =
        subst (λ x. TimesFit x (sheet_valid_until x) (entry_valid_until x)) at
          (rw (sym made.4, sym section, sym made.3) fits) in
      rw at ((sheet_times_fit wall offset).0 ((times_lem g _ _).1 fits'))

  sorted_lem :
      (raw rules : List (RawRule F))
      → sort_exit_rules raw ≡ some rules
      → Ordered rules × (any_of_type trailing_tp rules ≡ any_of_type trailing_tp raw)
  unfolding sort_exit_rules
  sorted_lem raw rules h = elim (Bool-cases (all_typed raw)) [
    | inr untyped ↦ absurd (let e : none ≡ some rules = rw untyped at h in cc)
    | inl typed ↦
        let e : some (sort_by_order raw) ≡ some rules = rw typed at h in
        let same : sort_by_order raw ≡ rules = cc in
        subst (λ x. Ordered x × (any_of_type trailing_tp x ≡ any_of_type trailing_tp raw)) same
          (sort-Ordered raw, any-sort trailing_tp raw)
  ]

  parse_exit_lem :
      (raw : List (RawRule F)) (rules : List (ExitRule F))
      → parse_exit raw ≡ some rules
      → parse_rules raw ≡ some rules
  unfolding parse_exit parse_rules
  parse_exit_lem [] rules h = absurd (cc)
  parse_exit_lem (r ∷ raw) rules h = h

  trailing_kept :
      (hint : Option (List (RawRule F))) (default_rules : List (RawRule F))
      → any_of_type trailing_tp default_rules ≡ true
      → any_of_type trailing_tp (raw_exit_rules hint default_rules) ≡ true
  unfolding raw_exit_rules
  trailing_kept none default_rules h = h
  trailing_kept (some raw) default_rules h =
      hint_is_supplied trailing_tp raw default_rules (inr (inr refl)) h

  -- The rules of a built sheet stand in the recommended order, whatever the candidate's hint; they
  -- have a fixed_sl and a time_stop and no scale_out of more than the whole; and they have a
  -- trailing_tp where the default rules of the tag's policy have one.
  pub built_rules :
      (engine : Engine F) (state : SectorRun) (candidate : ScreeningCandidate F)
      (inputs : StrategyEngineInputs F) (sheet : PositionSheet F)
      → (build_sheet_with_reason engine state candidate inputs).0 ≡ built sheet
      → IsOrdered sheet.rules
        × HasRules sheet.rules
        × ((entry : StrategyEntry F) × (engine.policy candidate.strategy_tag ≡ some entry)
            × ((any_of_type trailing_tp entry.default_exit_rules ≡ false)
                ⊎ (any_rule is_trailing_tp sheet.rules ≡ true)))
  built_rules engine state candidate inputs sheet h =
      let (allowed, (entry, found, made)) =
        built_lem engine (start_run inputs.scout_run_id state) candidate inputs _ sheet
          (build_sheet_with_reason-Explained engine state candidate inputs) h in
      let (rules, sorted, parsed) = made.8 in
      let (ordered, same) = sorted_lem _ rules sorted in
      let all = parse_exit_lem rules sheet.rules parsed in
      let has = ((validate_all_lem engine.is_well_formed sheet).0 made.0).4 in
      (
        parse_rules-IsOrdered rules sheet.rules all ordered,
        has,
        (
          entry,
          found,
          elim (Bool-cases (any_of_type trailing_tp entry.default_exit_rules)) [
            | inr lacking ↦ inl lacking
            | inl listed ↦ inr (
                parse_rules-any rules sheet.rules all
                ∙ same
                ∙ trailing_kept candidate.exit_hint entry.default_exit_rules listed)
          ],
        ),
      )
