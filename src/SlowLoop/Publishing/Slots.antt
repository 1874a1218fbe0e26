-- ===== src/SlowLoop/Publishing/Slots.antt =====
-- The sectors of the sheets of one run.
use prime_jennie_runtime.Prelude.{
  ℕ, suc, ◌+◌, ◌≤◌, ◌<◌, ◌≡◌, ◌≢◌, ◌⊎◌, refl, sym, ap, subst, ◌∙◌, inl, inr, Bool, true, false,
  Option, none, some, List, [], ◌∷◌, ◌++◌, All, arith, leb, ◌==◌, if◌then◌else◌, Bool-cases,
}
use prime_jennie_runtime.Prelude.Dict.{lookup, lookup-insert}
use prime_jennie_runtime.Prelude.Float.{Float}
use prime_jennie_runtime.PositionSheet.{PositionSheet}
use prime_jennie_runtime.SlowLoop.StrategyEngine.Assembly.{
  ScreeningCandidate, StrategyEngineInputs, Engine,
}
use prime_jennie_runtime.SlowLoop.StrategyEngine.{
  Outcome, rejected, failed, built, SectorRun, start_run, count_of, count_sector, sector_is_full,
}
use prime_jennie_runtime.SlowLoop.StrategyEngine.Outcomes.{
  Explained, build_sheet_with_reason-Explained,
}
use prime_jennie_runtime.SlowLoop.Publishing.{
  Moment, Published, publish, after_publish, refuse, engine_at, handle, publish_candidate,
  publish_candidates,
}

abbrev is_sector : ℕ → Option ℕ → Bool
is_sector k none = false
is_sector k (some j) = k == j

-- How many of the sheets are of the sector `k`.
unfoldable pub sheets_of : {F : Type 0} → (ℕ → Option ℕ) → ℕ → List (PositionSheet F) → ℕ
sheets_of sector_of k [] = 0
sheets_of sector_of k (sheet ∷ sheets) =
    let rest = sheets_of sector_of k sheets in
    if is_sector k (sector_of sheet.ticker) then suc rest else rest

sheets_of-last :
    {F : Type 0} (sector_of : ℕ → Option ℕ) (k : ℕ) (sheets : List (PositionSheet F))
    (sheet : PositionSheet F)
    → sheets_of sector_of k (sheets ++ sheet ∷ []) ≡ (
        if is_sector k (sector_of sheet.ticker)
        then suc (sheets_of sector_of k sheets)
        else sheets_of sector_of k sheets)
unfolding sheets_of
sheets_of-last sector_of k [] sheet = refl
sheets_of-last sector_of k (other ∷ sheets) sheet =
    ground (arith, sheets_of-last sector_of k sheets sheet)

start_run-again :
    (id : ℕ) (o : Option ℕ) (run : SectorRun)
    → start_run id (count_sector o (start_run id run)) ≡ count_sector o (start_run id run)
unfolding start_run count_sector
start_run-again id o run = ground arith

count_of-count_sector :
    (k : ℕ) (o : Option ℕ) (run : SectorRun)
    → count_of k (count_sector o run)
      ≡ (if is_sector k o then suc (count_of k run) else count_of k run)
unfolding count_sector
count_of-count_sector k none run = refl
count_of-count_sector k (some j) run =
    ground (arith, lookup-insert j k (suc (count_of j run)) run.sector_counts)

-- A sector with a free slot, where `k` is that sector.
free_slot :
    (cap k : ℕ) (o : Option ℕ) (run : SectorRun)
    → sector_is_full cap o run ≡ false
    → (is_sector k o ≡ false) ⊎ (count_of k run < cap)
unfolding sector_is_full
free_slot cap k none run free = inl refl
free_slot cap k (some j) run free = elim (Bool-cases (k == j)) [
  | inr other ↦ inl other
  | inl same ↦ inr (subst (λ x. count_of x run < cap) (sym (eq_of same)) (below free))
]
  where
    eq_of : {a b : ℕ} → (a == b) ≡ true → a ≡ b
    eq_of h = ground arith

    below : {a b : ℕ} → leb a b ≡ false → b < a
    below h = ground arith

slot_taken :
    (base cap s n s' n' : ℕ) (b : Bool)
    → (b ≡ false) ⊎ (n < cap)
    → s' ≡ (if b then suc s else s)
    → n' ≡ (if b then suc n else n)
    → s ≤ base + n
    → n ≤ cap
    → (s ≤ base + n') × (s' ≤ base + n') × (n' ≤ cap)
slot_taken base cap s n s' n' b free e f l m = ground arith

module _ (sector_of : ℕ → Option ℕ) (cap id k base : ℕ) where
  -- The sheets of the sector since the run began, and the slots it has used.
  abbrev Within : {F : Type 0} → SectorRun → List (PositionSheet F) → Type 0
  Within run sheets =
      (sheets_of sector_of k sheets ≤ base + count_of k run) × (count_of k run ≤ cap)

  Within-built :
      {F : Type 0} (run : SectorRun) (sheets : List (PositionSheet F)) (sheet : PositionSheet F)
      → sector_is_full cap (sector_of sheet.ticker) run ≡ false
      → Within run sheets
      → Within (count_sector (sector_of sheet.ticker) run) sheets
        × Within (count_sector (sector_of sheet.ticker) run) (sheets ++ sheet ∷ [])
  Within-built run sheets sheet free (l, m) =
      let (a, b, c) =
        slot_taken base cap (sheets_of sector_of k sheets) (count_of k run)
          (sheets_of sector_of k (sheets ++ sheet ∷ []))
          (count_of k (count_sector (sector_of sheet.ticker) run))
          (is_sector k (sector_of sheet.ticker)) (free_slot cap k (sector_of sheet.ticker) run free)
          (sheets_of-last sector_of k sheets sheet)
          (count_of-count_sector k (sector_of sheet.ticker) run) l m in
      ((a, c), (b, c))

  -- The run that a state is in, once its next candidate has begun.
  abbrev WithinState : {F : Type 0} → Published F → Type 0
  WithinState s = Within (start_run id s.sector_run) s.persisted_sheets

  after_publish-Within :
      {F : Type 0} (emit_stream : Bool) (moment : Moment) (ticker : ℕ) (sheet : PositionSheet F)
      (s : Published F)
      → Within (start_run id s.sector_run) s.persisted_sheets
      → Within (start_run id s.sector_run) (s.persisted_sheets ++ sheet ∷ [])
      → WithinState (after_publish emit_stream ticker sheet (publish emit_stream moment sheet s))
  unfolding after_publish publish refuse
  after_publish-Within emit_stream moment ticker sheet s less more =
      elim (Bool-cases moment.persists) [
        | inr lost ↦ rw (lost, publish) less
        | inl kept ↦ elim (Bool-cases emit_stream) [
          | inr quiet ↦ rw (kept, quiet, publish) more
          | inl loud ↦ elim (Bool-cases moment.emits) [
            | inl out ↦ rw (kept, loud, out, publish) more
            | inr stuck ↦ rw (kept, loud, stuck, publish) less
          ]
        ]
      ]

  again : (run : SectorRun) → start_run id (start_run id run) ≡ start_run id run
  unfolding start_run
  again run = ground arith

  module _ {F : Type 0} ⦃fl : Float F⦄ where
    handle-Within :
        (engine : Engine F) (emit_stream : Bool) (inputs : StrategyEngineInputs F)
        (candidate : ScreeningCandidate F) (moment : Moment) (s : Published F)
        → engine.sector_of ≡ sector_of
        → engine.sector_cap ≡ cap
        → (result : Outcome F × SectorRun)
        → Explained engine (start_run id s.sector_run) candidate inputs result
        → WithinState s
        → WithinState (handle emit_stream candidate moment result s)
    unfolding handle refuse
    handle-Within engine emit inputs candidate moment s o c (rejected reason, after) (why, same) h =
        rw (same, again s.sector_run) h
    handle-Within engine emit inputs candidate moment s o c (failed error, after) (why, same) h =
        rw (same, again s.sector_run) h
    handle-Within engine emit inputs candidate moment s o c (built sheet, after)
          ((allowed, (entry, found, (passes, made))), counted) h =
        let run = start_run id s.sector_run in
        let at : engine.sector_of candidate.ticker ≡ sector_of sheet.ticker =
          ap (λ f. f candidate.ticker) o ∙ ap sector_of (sym made.1) in
        let free : sector_is_full cap (sector_of sheet.ticker) run ≡ false =
          rw (sym at, sym c) passes.5 in
        let (less, more) = Within-built run s.persisted_sheets sheet free h in
        let same : start_run id after ≡ count_sector (sector_of sheet.ticker) run =
          rw (counted, at) (start_run-again id (sector_of sheet.ticker) s.sector_run) in
        let stored : Published F = record s { sector_run = after } in
        after_publish-Within emit moment candidate.ticker sheet stored
          (subst (λ r. Within r s.persisted_sheets) (sym same) less)
          (subst (λ r. Within r (s.persisted_sheets ++ sheet ∷ [])) (sym same) more)

module _ {F : Type 0} ⦃fl : Float F⦄ (engine : Engine F) (emit_stream : Bool)
    (inputs : StrategyEngineInputs F) (k base : ℕ) where
  candidates-Within :
      (candidates : List (ScreeningCandidate F × Moment)) (s : Published F)
      → All (λ c. c.1.others_run ≡ none) candidates
      → WithinState engine.sector_of engine.sector_cap inputs.scout_run_id k base s
      → WithinState engine.sector_of engine.sector_cap inputs.scout_run_id k base
          (publish_candidates engine emit_stream inputs candidates s)
  unfolding publish_candidates publish_candidate
  candidates-Within [] s alone h = h
  candidates-Within ((candidate, moment) ∷ candidates) s (alone, rest) h =
      let rows = s.position_sheets ++ moment.others in
      let asked : Published F = record s { position_sheets = rows ++ moment.meanwhile } in
      candidates-Within candidates (publish_candidate engine emit_stream inputs candidate moment s)
        rest
        (rw alone (
          handle-Within engine.sector_of engine.sector_cap inputs.scout_run_id k base
            (engine_at engine moment rows) emit_stream inputs candidate moment asked refl refl _
            (build_sheet_with_reason-Explained (engine_at engine moment rows) s.sector_run candidate
              inputs)
            h))

fresh_run :
    (id k cap base : ℕ) (run : SectorRun)
    → run.sector_run_id ≢ some id
    → (base ≤ base + count_of k (start_run id run)) × (count_of k (start_run id run) ≤ cap)
unfolding start_run lookup
fresh_run id k cap base run new = ground arith

module _ {F : Type 0} ⦃fl : Float F⦄ where
  -- A run of the scout adds at most as many stored sheets of any one sector as the cap, whatever the
  -- services answer meanwhile. The conditions are that the engine has not begun that run before and
  -- that no other run builds a sheet with the engine while this one goes through its candidates.
  pub sector_cap_holds :
      (engine : Engine F) (emit_stream : Bool) (inputs : StrategyEngineInputs F)
      (candidates : List (ScreeningCandidate F × Moment)) (s : Published F) (k : ℕ)
      → s.sector_run.sector_run_id ≢ some inputs.scout_run_id
      → All (λ c. c.1.others_run ≡ none) candidates
      → sheets_of engine.sector_of k
          (publish_candidates engine emit_stream inputs candidates s).persisted_sheets
        ≤ sheets_of engine.sector_of k s.persisted_sheets + engine.sector_cap
  sector_cap_holds engine emit_stream inputs candidates s k new alone =
      let base = sheets_of engine.sector_of k s.persisted_sheets in
      let started = fresh_run inputs.scout_run_id k engine.sector_cap base s.sector_run new in
      let (l, m) = candidates-Within engine emit_stream inputs k base candidates s alone started in
      omega (arith, l, m)
