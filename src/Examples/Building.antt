-- ===== src/Examples/Building.antt =====
-- A candidate of the scout at 10:00 on a day of 2026, and the runs that publish its sheet.
use prime_jennie_runtime.Prelude.{
  ℕ, suc, ◌+◌, ◌*◌, ◌%◌, ◌≤◌, ◌≡◌, ◌≢◌, ◌⊎◌, refl, true, false, none, some, List, [], ◌∷◌, arith,
}
use prime_jennie_runtime.Prelude.Int.{ℤ, ◌-ℤ◌, ◌*ℤ◌}
use prime_jennie_runtime.Prelude.Time.{Datetime, day, time, wall_in_kst, instant, kst_offset}
use prime_jennie_runtime.PositionSheet.{PositionSheet, gap_up_rebound, limit, eod}
use prime_jennie_runtime.PositionSheet.Raw.{
  RawRule, fixed_sl, time_stop, trailing_tp, stop_loss, parse_size,
}
use prime_jennie_runtime.PositionSheet.Validation.{any_rule}
use prime_jennie_runtime.PositionSheet.Validation.Meaning.{HasRules}
use prime_jennie_runtime.SlowLoop.ActiveSheets.{null_checker, kst_date, SheetRow}
use prime_jennie_runtime.Prelude.Dict.{lookup}
use prime_jennie_runtime.SlowLoop.SheetTimes.{sheet_valid_until, entry_valid_until}
use prime_jennie_runtime.SlowLoop.ExitHints.{any_of_type}
use prime_jennie_runtime.SlowLoop.StrategyEngine.Assembly.{
  ScreeningCandidate, StrategyEntry, StrategyEngineInputs, Engine, open_gate,
}
use prime_jennie_runtime.SlowLoop.StrategyEngine.Outcomes.{
  Explained, build_sheet_with_reason-Explained,
}
use prime_jennie_runtime.SlowLoop.StrategyEngine.Rules.{IsOrdered, is_trailing_tp}
use prime_jennie_runtime.SlowLoop.StrategyEngine.Sheets.{built_before_close, built_rules}
use prime_jennie_runtime.SlowLoop.StrategyEngine.{
  Outcome, built, new_sector_run, start_run, build_sheet_with_reason,
}
use prime_jennie_runtime.SlowLoop.Publishing.{Moment, nothing_published, publish_candidates}
use prime_jennie_runtime.SlowLoop.Publishing.Days.{Distinct, IdsTell}
use prime_jennie_runtime.SlowLoop.Publishing.OneADay.{one_sheet_a_day}
use prime_jennie_runtime.SlowLoop.Publishing.Slots.{sheets_of, sector_cap_holds}
use prime_jennie_runtime.Examples.Fixed.{fixed_point, won}
use prime_jennie_runtime.Examples.Exits.{percent}
use prime_jennie_runtime.Examples.Sheets.{at, any_id, morning_sheet}

abbrev empty_rule : RawRule ℤ
empty_rule = record {
  type = none;
  pct = none;
  activate_pct = none;
  drop_pct = none;
  floor_pct = none;
  levels = none;
  mode = none;
  value = none;
  days = none;
  rsi_threshold = none;
  ma_short = none;
  ma_long = none;
  min_loss_pct = none;
}

abbrev default_rules : List (RawRule ℤ)
default_rules =
    record empty_rule {
      type = some trailing_tp;
      activate_pct = some (percent 5);
      drop_pct = some (percent 3);
    }
    ∷ record empty_rule { type = some fixed_sl; pct = some (percent 4) }
    ∷ record empty_rule { type = some time_stop; mode = some eod }
    ∷ []

abbrev entry : StrategyEntry ℤ
entry = record {
  base_pct = percent 5;
  max_notional_krw = 50000000;
  max_notional_pct = some (percent 12);
  default_exit_rules = default_rules;
  default_entry_conditions = [];
}

-- A hint with the old names: the stop stands first and the rest is to be supplied.
abbrev candidate : ScreeningCandidate ℤ
candidate = record {
  ticker = 7;
  strategy_tag = gap_up_rebound;
  conviction = percent 60;
  trigger = limit;
  price_hint = some (won 10000);
  conditions_hint = [];
  exit_hint = some (record empty_rule { type = some stop_loss; pct = some (percent 3) } ∷ []);
}

abbrev inputs : StrategyEngineInputs ℤ
inputs = record {
  gate = open_gate;
  size_multiplier = won 1;
  scout_run_id = 1;
  generated_at = at 10 0;
}

-- An id that tells the ticker and the day.
unfoldable ticker_and_day : ℕ → ℕ → ℕ
ticker_and_day ℕ.zero d = d * 2
ticker_and_day (suc t) d = ticker_and_day t d * 2 + 1

abbrev id_text : ℕ → Datetime → ℕ
id_text ticker g = ticker_and_day ticker (kst_date (instant g))

ticker_and_day-injective :
    (t u d e : ℕ) → ticker_and_day t d ≡ ticker_and_day u e → (t ≡ u) × (d ≡ e)
unfolding ticker_and_day
ticker_and_day-injective ℕ.zero ℕ.zero d e h = ground arith
ticker_and_day-injective ℕ.zero (suc u) d e h = absurd (omega arith)
ticker_and_day-injective (suc t) ℕ.zero d e h = absurd (omega arith)
ticker_and_day-injective (suc t) (suc u) d e h =
    let (a, b) = ticker_and_day-injective t u d e (omega arith) in (omega arith, b)

ids_tell : IdsTell id_text
ids_tell t u g h k l same = ticker_and_day-injective t u _ _ same

abbrev engine : Engine ℤ
engine = record {
  policy = λ tag. some entry;
  risk_multiplier = won 1;
  checker = null_checker;
  sector_of = λ ticker. some 3;
  sector_cap = 3;
  min_conviction = percent 5;
  is_six_digits = any_id;
  id_text = id_text;
  is_well_formed = any_id;
}

abbrev sheet_of : Outcome ℤ → PositionSheet ℤ
sheet_of (built sheet) = sheet
sheet_of _ = morning_sheet

abbrev the_sheet : PositionSheet ℤ
the_sheet = sheet_of (build_sheet_with_reason engine new_sector_run candidate inputs).0

it_is_built : (build_sheet_with_reason engine new_sector_run candidate inputs).0 ≡ built the_sheet
unfolding build_sheet_with_reason null_checker lookup ◌*ℤ◌ ◌-ℤ◌ parse_size sheet_valid_until
    entry_valid_until any_rule
it_is_built = refl

build_sheet_with_reason-Explained_example :
    Explained engine
      (start_run 1 new_sector_run)
      candidate
      inputs
      (build_sheet_with_reason engine new_sector_run candidate inputs)
build_sheet_with_reason-Explained_example =
    build_sheet_with_reason-Explained engine new_sector_run candidate inputs

built_before_close_example :
    (wall_in_kst (at 10 0) % day ≤ time 15 29) ⊎ (time 23 59 ≤ wall_in_kst (at 10 0) % day)
built_before_close_example =
    built_before_close engine new_sector_run candidate inputs (20500 * day + time 10 0) kst_offset
      the_sheet refl it_is_built

built_rules_example :
    IsOrdered the_sheet.rules
    × HasRules the_sheet.rules
    × ((found : StrategyEntry ℤ) × (some entry ≡ some found)
        × ((any_of_type trailing_tp found.default_exit_rules ≡ false)
            ⊎ (any_rule is_trailing_tp the_sheet.rules ≡ true)))
built_rules_example = built_rules engine new_sector_run candidate inputs the_sheet it_is_built

abbrev calm : Moment
calm = record {
  now = instant (at 10 0);
  connects = true;
  executions = [];
  persists = true;
  emits = true;
  others = [];
  meanwhile = [];
  others_run = none;
}

-- A row of another run.
abbrev row_of_9 : SheetRow
row_of_9 = record { sheet_id = id_text 9 (at 10 0); ticker = 9; generated_at = instant (at 10 0) }

-- The second emission fails, and another run inserts its row meanwhile.
abbrev stuck : Moment
stuck = record calm { emits = false; meanwhile = row_of_9 ∷ [] }

abbrev twice : List (ScreeningCandidate ℤ × Moment)
twice = (candidate, calm) ∷ (record candidate { ticker = 8 }, stuck) ∷ (candidate, calm) ∷ []

one_sheet_a_day_example :
    Distinct (publish_candidates engine true inputs twice nothing_published).stream
one_sheet_a_day_example =
    one_sheet_a_day id_text ids_tell engine true inputs twice nothing_published refl refl
      ((refl, tt, tt), ((refl, tt, ((at 10 0, refl, refl, refl), tt)), ((refl, tt, tt), tt))) tt
      refl

no_run_yet : new_sector_run.sector_run_id ≢ some 1
no_run_yet e = absurd (cc)

sector_cap_holds_example :
    sheets_of engine.sector_of 3
      (publish_candidates engine true inputs twice nothing_published).persisted_sheets
    ≤ sheets_of engine.sector_of 3 (nothing_published {F = ℤ}).persisted_sheets + 3
sector_cap_holds_example =
    sector_cap_holds engine true inputs twice nothing_published 3 no_run_yet
      (refl, (refl, (refl, tt)))
