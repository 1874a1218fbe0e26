-- ===== src/Examples/Consuming.antt =====
-- Two sheets of one ticker come from the stream, one of them after a stop of two days before.
use prime_jennie_runtime.Prelude.{
  ◌+◌, ◌*◌, ◌≤◌, ◌≡◌, refl, true, false, none, some, List, [], ◌∷◌, length, All,
}
use prime_jennie_runtime.Prelude.Int.{ℤ}
use prime_jennie_runtime.Prelude.Dict.{lookup}
use prime_jennie_runtime.KisGateway.Schemas.{answered, raised}
use prime_jennie_runtime.SlowLoop.ActiveSheets.{ExitReason, Side, Database}
use prime_jennie_runtime.FastLoop.PendingEntry.{empty_queue, snapshot_for_ticker}
use prime_jennie_runtime.FastLoop.PositionTracker.{new_tracker}
use prime_jennie_runtime.FastLoop.Cooldown.{hour, default_window_hours, has_recent_stoploss}
use prime_jennie_runtime.FastLoop.Consumer.{recent_stoploss_cooldown, handle}
use prime_jennie_runtime.FastLoop.Consumer.Admission.{
  Reason, Leaves, IsStopOf, handle_accounts, no_entry_after_stop,
}
use prime_jennie_runtime.FastLoop.Run.{
  Settings, Event, published, ticked, purged, started, run, one_sheet_a_ticker,
}
use prime_jennie_runtime.FastLoop.TickLoop.Exits.{
  ExitAnswers, TickAnswers, evaluate_forced_liquidation, evaluate_exits,
}
use prime_jennie_runtime.FastLoop.TickLoop.Exits.Safety.{TouchesAll, exits_only_reduce}
use prime_jennie_runtime.FastLoop.PendingEntry.{ids_of}
use prime_jennie_runtime.FastLoop.PositionTracker.{register, sheet_ids_for}
use prime_jennie_runtime.Examples.Sales.{running, partly}
use prime_jennie_runtime.Examples.Fixed.{fixed_point}
use prime_jennie_runtime.Examples.Exits.{tick_at, held}
use prime_jennie_runtime.Examples.Sheets.{at, morning_sheet}
use prime_jennie_runtime.Examples.Pathway.{quiet, ten, start}

-- The sheet 7 of the same ticker was stopped at the hour 100.
abbrev stopped : Database
stopped = record {
  position_sheets = record { sheet_id = 7; ticker = 5930; generated_at = 99 * hour } ∷ [];
  executions =
      record {
        sheet_id = 7;
        side = Side.sell;
        exit_reason = some ExitReason.fixed_sl;
        executed_at = 100 * hour;
      }
      ∷ [];
}

refused_within_a_day :
    (handle true
      (some 0)
      (has_recent_stoploss default_window_hours (120 * hour) (answered stopped) 5930)
      morning_sheet
      start.tracker
      start.queue).outcome
    ≡ recent_stoploss_cooldown
unfolding handle has_recent_stoploss lookup new_tracker empty_queue
refused_within_a_day = refl

handle_accounts_example :
    let r = handle true (some 0) (answered none) morning_sheet start.tracker start.queue in
    Reason r.outcome (answered none) morning_sheet start.tracker start.queue
    × Leaves true (some 0) morning_sheet start.queue r
handle_accounts_example =
    handle_accounts true (some 0) (answered none) morning_sheet start.tracker start.queue

no_entry_after_stop_example :
    All
      (λ e. IsStopOf 5930 stopped e → e.executed_at + 24 * 3_600_000_000 ≤ 148 * hour)
      stopped.executions
unfolding handle has_recent_stoploss lookup new_tracker empty_queue
no_entry_after_stop_example =
    no_entry_after_stop true (some 0) 24 (148 * hour) stopped morning_sheet start.tracker
      start.queue refl

abbrev sold_out : ExitAnswers ℤ
sold_out = record {
  sheets = answered (morning_sheet ∷ []);
  system = running;
  broker = partly;
  tracker_up = true;
}

abbrev calm : TickAnswers ℤ
calm = record {
  liquidate_armed = answered false;
  is_forced = answered false;
  forced = λ id. sold_out;
  daily_closes = none;
  exits = λ id. sold_out;
  entries = λ id. ten;
}

abbrev cfg : Settings
cfg = record { max_exit_failures = 3; max_entry_rejects = 5; subscribe_on_enqueue = true }

abbrev events : List (Event ℤ)
events =
    published (some 0) (answered none) morning_sheet
    ∷ published (some 0) raised (record morning_sheet { sheet_id = 2 })
    ∷ purged true (at 10 0)
    ∷ ticked (tick_at 10000) quiet (at 10 1) calm
    ∷ ticked (tick_at 9000) quiet (at 10 2) calm
    ∷ published (some 0) raised (record morning_sheet { sheet_id = 3 })
    ∷ []

one_sheet_a_ticker_example :
    let s = (run cfg (started [] [], []) events).0 in
    (length (snapshot_for_ticker 5930 s.queue) ≤ 1) × (length (sheet_ids_for 5930 s.tracker) ≤ 1)
one_sheet_a_ticker_example = one_sheet_a_ticker cfg [] [] events 5930

exits_only_reduce_example :
    let t = register true held start.tracker in
    let tick = tick_at 9000 in
    TouchesAll (ids_of tick.ticker t.by_ticker) t (evaluate_forced_liquidation 3 tick calm t).1
    × TouchesAll (ids_of tick.ticker t.by_ticker) t (evaluate_exits 3 tick calm (t, [])).1.0
exits_only_reduce_example =
    exits_only_reduce 3 (tick_at 9000) calm (register true held start.tracker) []
