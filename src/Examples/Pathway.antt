-- ===== src/Examples/Pathway.antt =====
-- A sheet that waits without conditions, and a tick at 10:01.
use prime_jennie_runtime.Prelude.{◌<◌, ◌≡◌, ◌⊎◌, true, false, none, some, [], arith}
use prime_jennie_runtime.Prelude.Int.{ℤ}
use prime_jennie_runtime.Prelude.Dict.{lookup}
use prime_jennie_runtime.KisGateway.Schemas.{answered}
use prime_jennie_runtime.FastLoop.PendingEntry.{empty_queue, is_empty}
use prime_jennie_runtime.FastLoop.EntryConditions.{Indicators, evaluate}
use prime_jennie_runtime.FastLoop.EntryExecutor.{OrderRequest}
use prime_jennie_runtime.FastLoop.PositionTracker.{new_tracker, sheet_ids_for}
use prime_jennie_runtime.FastLoop.EntryPath.{EntryState, Answers, count_of, process_sheet}
use prime_jennie_runtime.FastLoop.EntryPath.Guards.{IsSized, orders_are_guarded}
use prime_jennie_runtime.Examples.Fixed.{fixed_point}
use prime_jennie_runtime.Examples.Exits.{tick_at}
use prime_jennie_runtime.Examples.Entering.{entry_broker}
use prime_jennie_runtime.Examples.Sheets.{at, morning_sheet}

abbrev pub quiet : Indicators ℤ
quiet = record {
  volume_ma20 = λ ticker. none;
  intraday_cum_volume = λ ticker. none;
  rsi_1m = λ ticker. none;
  recent_high = λ ticker lookback. none;
}

abbrev pub ten : Answers ℤ
ten = record {
  sizer = answered 10;
  dryrun = false;
  broker = entry_broker;
  filled_at = at 10 1;
  queue_up = true;
  tracker_up = true;
}

abbrev pub start : EntryState ℤ
start = record { queue = empty_queue []; tracker = new_tracker []; entry_reject_counts = [] }

orders_are_guarded_example :
    let (ordered, s') = process_sheet 3 (tick_at 10000) quiet (at 10 1) ten morning_sheet start in
    ((ordered ≡ none)
      ⊎ (((order : OrderRequest) × (ordered ≡ some order) × IsSized ten order)
          × ((evaluate morning_sheet (tick_at 10000) quiet (at 10 1)).passed ≡ true)
          × (is_empty (sheet_ids_for morning_sheet.ticker start.tracker) ≡ true)))
    × (count_of 1 s'.entry_reject_counts < 3)
unfolding lookup
orders_are_guarded_example =
    orders_are_guarded 3 (tick_at 10000) quiet (at 10 1) ten morning_sheet 1 start (omega arith)
