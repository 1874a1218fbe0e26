-- ===== src/SlowLoop/Publishing.antt =====
-- The loop of the slow loop over its candidates (prime_jennie_runtime/slow_loop/pipeline.py, section 5
-- of `run_slow_loop`) and the publisher of sheets (prime_jennie_runtime/slow_loop/strategy/publisher.py).
-- A moment says how the services answer while one candidate is handled. The coordinator's event, the
-- observer and the log follow a publication without a part in it and are left out.
pub mod OneADay
pub mod Days
pub mod Slots
use prime_jennie_runtime.Prelude.{
  ℕ, Bool, true, false, Option, none, some, List, [], ◌∷◌, ◌++◌, ◌==◌, if◌then◌else◌,
}
use prime_jennie_runtime.Prelude.Float.{Float}
use prime_jennie_runtime.Prelude.Time.{instant}
use prime_jennie_runtime.PositionSheet.{PositionSheet}
use prime_jennie_runtime.KisGateway.Schemas.{Answer, raised, answered}
use prime_jennie_runtime.SlowLoop.ActiveSheets.{
  SheetRow, ExecutionRow, Database, any_sheet, pg_checker,
}
use prime_jennie_runtime.SlowLoop.StrategyEngine.Assembly.{
  ScreeningCandidate, StrategyEngineInputs, Engine,
}
use prime_jennie_runtime.SlowLoop.StrategyEngine.{
  Reason, Outcome, rejected, failed, built, SectorRun, new_sector_run, build_sheet_with_reason,
}

-- The two columns that `update_candidate_promotion` sets.
pub data Promotion : Type 0 where
  promoted : ℕ → Promotion
  refused_for : Reason → Promotion
  engine_error publisher_error : Promotion

pub data Letter : Type 0 where
  engine_build_sheet_error publisher_failed : (ticker : ℕ) → Letter
  publish_failed : (sheet_id : ℕ) → Letter

-- `connects`: the three queries of the checker are answered. `persists` and `emits`: the insertion and
-- the stream's xadd do not fail. Other runs share the database and the engine: `others` are the rows
-- that they have inserted when the candidate is looked at, `meanwhile` those that they insert between
-- the checks and the insertion of this one, and `others_run` is what they have left in the engine's
-- sector counts, if they have built a sheet since the last candidate.
pub record Moment : Type 0 where
  pub now : ℕ
  pub connects : Bool
  pub executions : List ExecutionRow
  pub persists : Bool
  pub emits : Bool
  pub others : List SheetRow
  pub meanwhile : List SheetRow
  pub others_run : Option SectorRun

pub record Published (F : Type 0) : Type 0 where
  pub sector_run : SectorRun
  pub position_sheets : List SheetRow
  pub stream : List (PositionSheet F)
  pub dead_letters : List Letter
  pub promotions : List (ℕ × Promotion)
  pub sheets_published : List ℕ
  pub sheets_rejected : List ℕ
  pub persisted_sheets : List (PositionSheet F)

abbrev pub nothing_published : {F : Type 0} → Published F
nothing_published = record {
  sector_run = new_sector_run;
  position_sheets = [];
  stream = [];
  dead_letters = [];
  promotions = [];
  sheets_published = [];
  sheets_rejected = [];
  persisted_sheets = [];
}

abbrev pub or_run : SectorRun → Option SectorRun → SectorRun
or_run run none = run
or_run run (some other) = other

abbrev pub database_at : Moment → List SheetRow → Answer Database
database_at moment rows =
    if moment.connects
    then answered (record { position_sheets = rows; executions = moment.executions })
    else raised

module _ {F : Type 0} where
  -- `INSERT ... ON CONFLICT (sheet_id) DO NOTHING`
  unfoldable pub insert_sheet : PositionSheet F → List SheetRow → List SheetRow
  unfolding any_sheet
  insert_sheet sheet rows =
      if any_sheet (λ row. row.sheet_id == sheet.sheet_id) rows
      then rows
      else rows
        ++ record {
          sheet_id = sheet.sheet_id;
          ticker = sheet.ticker;
          generated_at = instant sheet.generated_at;
        }
          ∷ []

  -- `publish`; `false` for its exception.
  unfoldable pub publish : Bool → Moment → PositionSheet F → Published F → Bool × Published F
  unfolding insert_sheet
  publish emit_stream moment sheet s =
      let stored : Published F = record s {
        position_sheets = insert_sheet sheet s.position_sheets;
      } in
      if moment.persists
      then (if emit_stream
          then (if moment.emits
              then (true, record stored { stream = s.stream ++ sheet ∷ [] })
              else (
                false,
                record stored {
                  dead_letters = s.dead_letters ++ publish_failed sheet.sheet_id ∷ [];
                },
              ))
          else (true, stored))
      else (false, s)

  -- A candidate that comes to no sheet.
  unfoldable pub refuse : ℕ → Promotion → Published F → Published F
  refuse ticker promotion s = record s {
    sheets_rejected = s.sheets_rejected ++ ticker ∷ [];
    promotions = s.promotions ++ (ticker, promotion) ∷ [];
  }

  abbrev pub post_letter : Letter → Published F → Published F
  post_letter letter s = record s { dead_letters = s.dead_letters ++ letter ∷ [] }

  -- Behind `publish`.
  unfoldable pub after_publish : Bool → ℕ → PositionSheet F → Bool × Published F → Published F
  unfolding refuse
  after_publish emit_stream ticker sheet (false, s) =
      post_letter (publisher_failed ticker) (refuse ticker publisher_error s)
  after_publish emit_stream ticker sheet (true, s) = record s {
    promotions = s.promotions ++ (ticker, promoted sheet.sheet_id) ∷ [];
    persisted_sheets = s.persisted_sheets ++ sheet ∷ [];
    sheets_published =
        if emit_stream then s.sheets_published ++ sheet.sheet_id ∷ [] else s.sheets_published;
  }

module _ {F : Type 0} ⦃fl : Float F⦄ where
  -- The engine with the checker's answers of the moment.
  abbrev pub engine_at : Engine F → Moment → List SheetRow → Engine F
  engine_at engine moment rows = record engine {
    checker = pg_checker moment.now (database_at moment rows);
  }

  unfoldable pub handle :
      Bool → ScreeningCandidate F → Moment → Outcome F × SectorRun → Published F → Published F
  unfolding refuse publish after_publish
  handle emit_stream candidate moment (rejected reason, run) s =
      refuse candidate.ticker (refused_for reason) (record s { sector_run = run })
  handle emit_stream candidate moment (failed error, run) s =
      post_letter (engine_build_sheet_error candidate.ticker)
        (refuse candidate.ticker engine_error (record s { sector_run = run }))
  handle emit_stream candidate moment (built sheet, run) s =
      after_publish emit_stream candidate.ticker sheet
        (publish emit_stream moment sheet (record s { sector_run = run }))

  -- One pass of the loop.
  unfoldable pub publish_candidate :
      Engine F
      → Bool
      → StrategyEngineInputs F
      → ScreeningCandidate F
      → Moment
      → Published F
      → Published F
  unfolding build_sheet_with_reason pg_checker handle
  publish_candidate engine emit_stream inputs candidate moment s =
      let rows = s.position_sheets ++ moment.others in
      let sector_run = or_run s.sector_run moment.others_run in
      handle emit_stream candidate moment
        (build_sheet_with_reason (engine_at engine moment rows) sector_run candidate inputs)
        (record s { position_sheets = rows ++ moment.meanwhile })

  unfoldable pub publish_candidates :
      Engine F
      → Bool
      → StrategyEngineInputs F
      → List (ScreeningCandidate F × Moment)
      → Published F
      → Published F
  unfolding publish_candidate
  publish_candidates engine emit_stream inputs [] s = s
  publish_candidates engine emit_stream inputs ((candidate, moment) ∷ candidates) s =
      publish_candidates engine emit_stream inputs candidates
        (publish_candidate engine emit_stream inputs candidate moment s)
