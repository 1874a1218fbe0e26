-- ===== src/FastLoop/Cooldown.antt =====
-- The cooldown behind a stop (prime_jennie_runtime/fast_loop/cooldown_check.py): the query of
-- `PgCooldownChecker` over the rows of executions and position_sheets. A timestamptz is an instant in
-- microseconds. `raised` is a failure of the connection or of the query. Of two rows of the same
-- moment, between which the query may choose, the model takes the first.
pub mod Latest
use prime_jennie_runtime.Prelude.{
  ℕ, ◌+◌, ◌*◌, Bool, ◌&&◌, Option, none, some, List, [], ◌∷◌, ltb, ◌==◌, if◌then◌else◌,
}
use prime_jennie_runtime.KisGateway.Schemas.{Answer, raised, answered}
use prime_jennie_runtime.SlowLoop.ActiveSheets.{
  ExitReason, ExecutionRow, Database, any_sheet, is_sell, is_stop,
}

pub record RecentStopLoss : Type 0 where
  pub ticker : ℕ
  pub last_exit_at : ℕ
  pub reason : Option ExitReason

abbrev pub default_window_hours : ℕ
default_window_hours = 24

-- `interval '1 hour'`
abbrev pub hour : ℕ
hour = 3600000000

-- The `WHERE` of the query: the sheet of the row, found over its id, is of the ticker.
unfoldable pub is_recent_stoploss : ℕ → ℕ → ℕ → Database → ExecutionRow → Bool
unfolding any_sheet
is_recent_stoploss window_hours now ticker db e =
    any_sheet (λ row. row.sheet_id == e.sheet_id && row.ticker == ticker) db.position_sheets
    && is_sell e.side
    && is_stop e.exit_reason
    && ltb now (e.executed_at + window_hours * hour)

abbrev pub later : ExecutionRow → Option ExecutionRow → Option ExecutionRow
later e none = some e
later e (some other) = if ltb e.executed_at other.executed_at then some other else some e

-- `ORDER BY e.executed_at DESC LIMIT 1`
unfoldable pub latest : (ExecutionRow → Bool) → List ExecutionRow → Option ExecutionRow
latest test [] = none
latest test (e ∷ rows) = let rest = latest test rows in if test e then later e rest else rest

abbrev pub summary : ℕ → Option ExecutionRow → Option RecentStopLoss
summary ticker none = none
summary ticker (some e) =
    some (record { ticker = ticker; last_exit_at = e.executed_at; reason = e.exit_reason })

-- `NullCooldownChecker`
abbrev pub null_cooldown : ℕ → Answer (Option RecentStopLoss)
null_cooldown ticker = answered none

unfoldable pub has_recent_stoploss : ℕ → ℕ → Answer Database → ℕ → Answer (Option RecentStopLoss)
unfolding is_recent_stoploss latest
has_recent_stoploss window_hours now answer ticker = elim answer [
  | raised ↦ raised
  | answered db ↦
      answered
        (summary ticker (latest (is_recent_stoploss window_hours now ticker db) db.executions))
]
