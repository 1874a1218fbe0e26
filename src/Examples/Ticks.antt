-- ===== src/Examples/Ticks.antt =====
-- Three ticks of the campaign: at 14:00, a minute later, and on the next day with a submitted slice.
use prime_jennie_runtime.Prelude.{◌+◌, false, List, [], ◌∷◌}
use prime_jennie_runtime.Prelude.Int.{ℤ}
use prime_jennie_runtime.Prelude.Time.{day, time}
use prime_jennie_runtime.KisGateway.Schemas.{answered, raised}
use prime_jennie_runtime.Dca.Tick.{Tick, run_ticks}
use prime_jennie_runtime.Dca.Tick.Dates.{OneADay}
use prime_jennie_runtime.Dca.Tick.OneADay.{one_slice_a_day}
use prime_jennie_runtime.Examples.Purchases.{campaign, broker}
use prime_jennie_runtime.Examples.Fixed.{fixed_point}
use prime_jennie_runtime.Examples.Sheets.{at}

abbrev tick : Tick ℤ
tick = record {
  stopped = false;
  dryrun = false;
  now = at 14 0;
  sched_time = time 14 0;
  broker = broker;
  resumed = λ row. broker;
  ledger = λ day. answered [];
  get_snapshot = raised;
}

abbrev ticks : List (Tick ℤ)
ticks =
    record tick { broker = record broker { confirm_order = raised } }
    ∷ record tick { now = at 14 1 }
    ∷ record tick { now = record { wall = (at 14 0).wall + day; offset = (at 14 0).offset } }
    ∷ []

one_slice_a_day_example :
    OneADay (run_ticks false (record { campaign = campaign; slices = [] }) ticks).slices
one_slice_a_day_example =
    one_slice_a_day false (record { campaign = campaign; slices = [] }) ticks tt
