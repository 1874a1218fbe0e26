-- ===== src/SlowLoop/Publishing/OneADay.antt =====
-- The sheets that reach the fast loop.
use prime_jennie_runtime.Prelude.{
  ℕ, ◌≡◌, refl, sym, ap, subst, ◌∙◌, inl, inr, Bool, true, false, some, List, [], ◌∷◌, ◌++◌, All,
  All-map, All-append, arith, ◌==◌, Bool-cases,
}
use prime_jennie_runtime.Prelude.Float.{Float}
use prime_jennie_runtime.Prelude.Time.{Datetime, instant, kst_offset}
use prime_jennie_runtime.PositionSheet.{PositionSheet}
use prime_jennie_runtime.SlowLoop.ActiveSheets.{SheetRow, any_sheet, generated_on}
use prime_jennie_runtime.SlowLoop.StrategyEngine.Assembly.{
  ScreeningCandidate, StrategyEngineInputs, Engine,
}
use prime_jennie_runtime.SlowLoop.StrategyEngine.{
  Outcome, rejected, failed, built, SectorRun, start_run,
}
use prime_jennie_runtime.SlowLoop.StrategyEngine.Outcomes.{
  Explained, build_sheet_with_reason-Explained,
}
use prime_jennie_runtime.SlowLoop.Publishing.{
  Moment, Published, or_run, insert_sheet, publish, after_publish, refuse, engine_at, handle,
  publish_candidate, publish_candidates,
}
use prime_jennie_runtime.SlowLoop.Publishing.Days.{
  same_day, Distinct, IdsTell, IsNamed, any_sheet-append, any_sheet-last, Distinct-last, asked_lem,
  Recorded, Recorded-differs,
}

module _ (id_text : ℕ → Datetime → ℕ) (ids : IdsTell id_text) where
  -- Every sheet of the stream has its row, and no two are of one ticker and day.
  abbrev Sound : {F : Type 0} → List SheetRow → List (PositionSheet F) → Type 0
  Sound rows stream = All (IsNamed id_text) rows × All (Recorded rows) stream × Distinct stream

  abbrev SoundState : {F : Type 0} → Published F → Type 0
  SoundState s = Sound s.position_sheets s.stream

  abbrev row_of : {F : Type 0} → PositionSheet F → SheetRow
  row_of sheet = record {
    sheet_id = sheet.sheet_id;
    ticker = sheet.ticker;
    generated_at = instant sheet.generated_at;
  }

  -- A row under the id of the sheet is of its ticker and day.
  conflict_recorded :
      (ticker : ℕ) (g : Datetime)
      → g.offset ≡ some kst_offset
      → (rows : List SheetRow) → All (IsNamed id_text) rows
      → any_sheet (λ row. row.sheet_id == id_text ticker g) rows ≡ true
      → any_sheet (generated_on ticker g) rows ≡ true
  unfolding any_sheet
  conflict_recorded ticker g k [] named met = absurd (cc)
  conflict_recorded ticker g k (row ∷ rows) ((h, kst, name, at), named) met =
      elim (Bool-cases (row.sheet_id == id_text ticker g)) [
        | inr other ↦ ground (arith, conflict_recorded ticker g k rows named)
        | inl same ↦
            let (t, d) = ids row.ticker ticker h g kst k (sym name ∙ eq_of same) in ground arith
      ]
    where
      eq_of : {a b : ℕ} → (a == b) ≡ true → a ≡ b
      eq_of h = ground arith

  -- A sheet that has its name.
  abbrev IsNamedSheet : {F : Type 0} → PositionSheet F → Type 0
  IsNamedSheet sheet =
      (sheet.sheet_id ≡ id_text sheet.ticker sheet.generated_at)
      × (sheet.generated_at.offset ≡ some kst_offset)

  insert-lem :
      {F : Type 0} (sheet : PositionSheet F) (rows : List SheetRow)
      → All (IsNamed id_text) rows
      → IsNamedSheet sheet
      → All (IsNamed id_text) (insert_sheet sheet rows)
        × Recorded (insert_sheet sheet rows) sheet
        × ((a : PositionSheet F) → Recorded rows a → Recorded (insert_sheet sheet rows) a)
  unfolding insert_sheet
  insert-lem sheet rows named (id, kst) =
      elim (Bool-cases (any_sheet (λ row. row.sheet_id == sheet.sheet_id) rows)) [
        | inl met ↦
            let met' : any_sheet (λ row. row.sheet_id == id_text sheet.ticker sheet.generated_at)
                  rows
                ≡ true =
              subst (λ x. any_sheet (λ row. row.sheet_id == x) rows ≡ true) id met in
            rw (met, insert_sheet)
              (
                named,
                conflict_recorded sheet.ticker sheet.generated_at kst rows named met',
                λ a h. h,
              )
        | inr new ↦
            rw (new, insert_sheet)
              (
                All-append (IsNamed id_text) rows (row_of sheet ∷ []) named
                    ((sheet.generated_at, kst, id, refl), tt),
                any_sheet-last (generated_on sheet.ticker sheet.generated_at) rows (row_of sheet)
                    (ground arith),
                λ a h.
                    any_sheet-append (generated_on a.ticker a.generated_at) rows (row_of sheet ∷ [])
                      h,
              )
      ]

  Sound-more :
      {F : Type 0} (rows more : List SheetRow) (stream : List (PositionSheet F))
      → All (IsNamed id_text) more
      → Sound rows stream
      → Sound (rows ++ more) stream
  Sound-more rows more stream named' (named, recorded, distinct) = (
    All-append (IsNamed id_text) rows more named named',
    All-map (λ a h. any_sheet-append (generated_on a.ticker a.generated_at) rows more h) stream
        recorded,
    distinct,
  )

  Sound-row :
      {F : Type 0} (sheet : PositionSheet F) (rows : List SheetRow)
      (stream : List (PositionSheet F))
      → IsNamedSheet sheet
      → Sound rows stream
      → Sound (insert_sheet sheet rows) stream
  Sound-row sheet rows stream name (named, recorded, distinct) =
      let (n, _, keep) = insert-lem sheet rows named name in
      (n, All-map keep stream recorded, distinct)

  -- The sheet is of a new ticker or day for every sheet of the stream.
  abbrev IsNew : {F : Type 0} → List (PositionSheet F) → PositionSheet F → Type 0
  IsNew stream sheet = IsNamedSheet sheet × All (λ a. same_day a sheet ≡ false) stream

  Sound-stream :
      {F : Type 0} (sheet : PositionSheet F) (rows : List SheetRow)
      (stream : List (PositionSheet F))
      → IsNew stream sheet
      → Sound rows stream
      → Sound (insert_sheet sheet rows) (stream ++ sheet ∷ [])
  Sound-stream sheet rows stream (name, new) (named, recorded, distinct) =
      let (n, last, keep) = insert-lem sheet rows named name in
      (
        n,
        All-append (Recorded (insert_sheet sheet rows)) stream (sheet ∷ [])
            (All-map keep stream recorded) (last, tt),
        Distinct-last stream sheet distinct new,
      )

  publish-Sound :
      {F : Type 0} (emit_stream : Bool) (moment : Moment) (sheet : PositionSheet F)
      (s : Published F)
      → IsNew s.stream sheet
      → SoundState s
      → SoundState (publish emit_stream moment sheet s).1
  unfolding publish
  publish-Sound emit_stream moment sheet s new h =
      let stored = Sound-row sheet s.position_sheets s.stream new.0 h in
      let sent = Sound-stream sheet s.position_sheets s.stream new h in
      elim (Bool-cases moment.persists) [
        | inr lost ↦ rw (lost, publish) h
        | inl kept ↦ elim (Bool-cases emit_stream) [
          | inr quiet ↦ rw (kept, quiet, publish) stored
          | inl loud ↦ elim (Bool-cases moment.emits) [
            | inl out ↦ rw (kept, loud, out, publish) sent
            | inr stuck ↦ rw (kept, loud, stuck, publish) stored
          ]
        ]
      ]

  after_publish-Sound :
      {F : Type 0} (emit_stream : Bool) (ticker : ℕ) (sheet : PositionSheet F)
      (result : Bool × Published F)
      → SoundState result.1
      → SoundState (after_publish emit_stream ticker sheet result)
  unfolding after_publish refuse
  after_publish-Sound emit_stream ticker sheet (false, s) h = h
  after_publish-Sound emit_stream ticker sheet (true, s) h = h

  -- The checker's queries are answered, and the rows of other runs have their names.
  abbrev pub IsRegular : Moment → Type 0
  IsRegular moment =
      (moment.connects ≡ true)
      × All (IsNamed id_text) moment.others
      × All (IsNamed id_text) moment.meanwhile

  module _ {F : Type 0} ⦃fl : Float F⦄ where
    -- `rows` are those of the checks, and `s` is the state of the insertion.
    handle-Sound :
        (engine : Engine F) (emit_stream : Bool) (inputs : StrategyEngineInputs F)
        (candidate : ScreeningCandidate F) (moment : Moment) (rows : List SheetRow)
        (s : Published F) (run : SectorRun)
        → engine.id_text ≡ id_text
        → inputs.generated_at.offset ≡ some kst_offset
        → moment.connects ≡ true
        → (result : Outcome F × SectorRun)
        → Explained (engine_at engine moment rows) run candidate inputs result
        → All (Recorded rows) s.stream
        → SoundState s
        → SoundState (handle emit_stream candidate moment result s)
    unfolding handle refuse
    handle-Sound engine emit inputs candidate moment rows s run ids_of kst up
          (rejected reason, after) explained recorded h =
        h
    handle-Sound engine emit inputs candidate moment rows s run ids_of kst up (failed error, after)
          explained recorded h =
        h
    handle-Sound engine emit inputs candidate moment rows s run ids_of kst up (built sheet, after)
          ((allowed, (entry, found, (passes, made))), counted) recorded h =
        let asked = asked_lem moment rows candidate.ticker inputs.generated_at up in
        let free = sym asked ∙ passes.2 in
        let ticker = made.1 in
        let generated = made.3 in
        let name : IsNamedSheet sheet =
          rw (ticker, generated)
            (made.7 ∙ ap (λ f. f candidate.ticker inputs.generated_at) ids_of, kst) in
        let free' : any_sheet (generated_on sheet.ticker sheet.generated_at) rows ≡ false =
          rw (ticker, generated) free in
        let stored : Published F = record s { sector_run = after } in
        after_publish-Sound emit candidate.ticker sheet (publish emit moment sheet stored) (
          publish-Sound emit moment sheet stored
            (name, All-map (Recorded-differs rows sheet free') s.stream recorded) h)

    candidates-Sound :
        (engine : Engine F) (emit_stream : Bool) (inputs : StrategyEngineInputs F)
        → engine.id_text ≡ id_text
        → inputs.generated_at.offset ≡ some kst_offset
        → (candidates : List (ScreeningCandidate F × Moment)) (s : Published F)
        → All (λ c. IsRegular c.1) candidates
        → SoundState s
        → SoundState (publish_candidates engine emit_stream inputs candidates s)
    unfolding publish_candidates publish_candidate
    candidates-Sound engine emit inputs ids_of kst [] s up h = h
    candidates-Sound engine emit inputs ids_of kst ((candidate, moment) ∷ candidates) s
          ((u, others, meanwhile), up) h =
        let rows = s.position_sheets ++ moment.others in
        let seen = Sound-more s.position_sheets moment.others s.stream others h in
        let held = Sound-more rows moment.meanwhile s.stream meanwhile seen in
        let sector_run = or_run s.sector_run moment.others_run in
        candidates-Sound engine emit inputs ids_of kst candidates
          (publish_candidate engine emit inputs candidate moment s) up
          (handle-Sound engine emit inputs candidate moment rows
            (record s { position_sheets = rows ++ moment.meanwhile })
            (start_run inputs.scout_run_id sector_run) ids_of kst u _
            (build_sheet_with_reason-Explained (engine_at engine moment rows) sector_run candidate
              inputs)
            seen.1 held)

    -- One run of the slow loop sends no two sheets of the same ticker and the same day in Korea,
    -- whatever insertions and emissions fail on the way and whatever rows other runs insert between
    -- its steps. The conditions are that the queries of its checker are answered, that the ids of all
    -- rows tell the ticker and the day, and that the times are on the clock of Korea. Nothing is
    -- said of the sheets of two runs that overlap.
    pub one_sheet_a_day :
        (engine : Engine F) (emit_stream : Bool) (inputs : StrategyEngineInputs F)
        (candidates : List (ScreeningCandidate F × Moment)) (s : Published F)
        → engine.id_text ≡ id_text
        → inputs.generated_at.offset ≡ some kst_offset
        → All (λ c. IsRegular c.1) candidates
        → All (IsNamed id_text) s.position_sheets
        → s.stream ≡ []
        → Distinct (publish_candidates engine emit_stream inputs candidates s).stream
    one_sheet_a_day engine emit inputs candidates s ids_of kst regular named fresh =
        (candidates-Sound engine emit inputs ids_of kst candidates s regular
          (named, rw fresh tt, rw fresh tt)).2
