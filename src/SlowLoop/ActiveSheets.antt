-- ===== src/SlowLoop/ActiveSheets.antt =====
-- What the database tells the strategy engine (prime_jennie_runtime/slow_loop/strategy/engine.py): the
-- three queries of `PgActiveSheetChecker`, over the rows of position_sheets and executions, and the
-- sectors of `PgSectorResolver`. A timestamptz is an instant in microseconds. `raised` is a failure of
-- the connection or of the query.
use prime_jennie_runtime.Prelude.{
  ℕ, ◌+◌, ◌/◌, Bool, true, false, ◌&&◌, ◌||◌, Option, none, some, List, [], ◌∷◌, ltb, ◌==◌,
}
use prime_jennie_runtime.Prelude.Dict.{Dict, lookup}
use prime_jennie_runtime.Prelude.Time.{Datetime, day, instant, kst_offset}
use prime_jennie_runtime.KisGateway.Schemas.{Answer, raised, answered}

pub data Side : Type 0 where
  buy sell : Side

-- The text under metadata_json->>'exit_reason'.
pub data ExitReason : Type 0 where
  fixed_sl stop_loss breakeven_stop : ExitReason
  another_reason : ℕ → ExitReason

pub record SheetRow : Type 0 where
  pub sheet_id : ℕ
  pub ticker : ℕ
  pub generated_at : ℕ

pub record ExecutionRow : Type 0 where
  pub sheet_id : ℕ
  pub side : Side
  pub exit_reason : Option ExitReason
  pub executed_at : ℕ

pub record Database : Type 0 where
  pub position_sheets : List SheetRow
  pub executions : List ExecutionRow

-- `(t AT TIME ZONE 'Asia/Seoul')::date`
abbrev pub kst_date : ℕ → ℕ
kst_date t = (t + kst_offset) / day

unfoldable pub any_sheet : (SheetRow → Bool) → List SheetRow → Bool
any_sheet test [] = false
any_sheet test (row ∷ rows) = test row || any_sheet test rows

unfoldable pub any_execution : (ExecutionRow → Bool) → List ExecutionRow → Bool
any_execution test [] = false
any_execution test (row ∷ rows) = test row || any_execution test rows

abbrev pub is_sell : Side → Bool
is_sell buy = false
is_sell sell = true

-- `= ANY(_STOP_REASONS)`, which a null never is.
abbrev pub is_stop : Option ExitReason → Bool
is_stop none = false
is_stop (some (another_reason text)) = false
is_stop (some _) = true

abbrev pub generated_on : ℕ → Datetime → SheetRow → Bool
generated_on ticker as_of_date row =
    row.ticker == ticker && kst_date row.generated_at == kst_date (instant as_of_date)

-- `SELECT EXISTS` over the join of the two tables on the sheet's id.
unfoldable pub has_execution : ℕ → (ExecutionRow → Bool) → Database → Bool
unfolding any_sheet any_execution
has_execution ticker test db =
    any_execution
      (λ e.
        test e
        && any_sheet (λ row. row.sheet_id == e.sheet_id && row.ticker == ticker) db.position_sheets)
      db.executions

abbrev pub is_recent_stop : ℕ → ExecutionRow → Bool
is_recent_stop now e = is_sell e.side && is_stop e.exit_reason && ltb now (e.executed_at + day)

abbrev pub is_exit_on : Datetime → ExecutionRow → Bool
is_exit_on as_of_date e = is_sell e.side && kst_date e.executed_at == kst_date (instant as_of_date)

-- A failure lets the sheet through.
abbrev pub fail_open : (Database → Bool) → Answer Database → Bool
fail_open query raised = false
fail_open query (answered db) = query db

unfoldable pub has_active_sheet_today : Answer Database → ℕ → Datetime → Bool
unfolding any_sheet
has_active_sheet_today answer ticker as_of_date =
    fail_open (λ db. any_sheet (generated_on ticker as_of_date) db.position_sheets) answer

unfoldable pub has_recent_stop_loss : ℕ → Answer Database → ℕ → Bool
unfolding has_execution
has_recent_stop_loss now answer ticker =
    fail_open (has_execution ticker (is_recent_stop now)) answer

unfoldable pub has_recent_exit_today : Answer Database → ℕ → Datetime → Bool
unfolding has_execution
has_recent_exit_today answer ticker as_of_date =
    fail_open (has_execution ticker (is_exit_on as_of_date)) answer

-- `ActiveSheetChecker`: its three questions, as the engine asks them at one moment.
pub record ActiveSheetChecker : Type 0 where
  pub active_sheet_today : ℕ → Datetime → Bool
  pub recent_stop_loss : ℕ → Bool
  pub recent_exit_today : ℕ → Datetime → Bool

unfoldable pub null_checker : ActiveSheetChecker
null_checker = record {
  active_sheet_today = λ ticker as_of_date. false;
  recent_stop_loss = λ ticker. false;
  recent_exit_today = λ ticker as_of_date. false;
}

-- `PgActiveSheetChecker` at the time `now`, on what the database answers.
unfoldable pub pg_checker : ℕ → Answer Database → ActiveSheetChecker
unfolding has_active_sheet_today has_recent_stop_loss has_recent_exit_today
pg_checker now answer = record {
  active_sheet_today = has_active_sheet_today answer;
  recent_stop_loss = has_recent_stop_loss now answer;
  recent_exit_today = has_recent_exit_today answer;
}

-- `PgSectorResolver`: the cache is loaded once, and stays empty when that fails.
unfoldable pub ensure_loaded : Answer (Dict ℕ) → Option (Dict ℕ) → Dict ℕ
ensure_loaded stock_masters (some cache) = cache
ensure_loaded raised none = []
ensure_loaded (answered rows) none = rows

unfoldable pub sector_of : Answer (Dict ℕ) → Option (Dict ℕ) → ℕ → Option ℕ × Option (Dict ℕ)
unfolding ensure_loaded lookup
sector_of stock_masters cache ticker =
    let loaded = ensure_loaded stock_masters cache in (lookup ticker loaded, some loaded)
