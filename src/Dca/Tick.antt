-- ===== src/Dca/Tick.antt =====
-- The tick of a campaign (prime_jennie_runtime/user_directed_dca/tick.py) with the reconciliation that
-- stands before it (executor.py, `reconcile_inflight`). Each minute of trading is one tick; campaigns
-- are independent, and one of them is modelled. The time that `_sched_time` parses from the campaign's
-- text is an argument, and so is the module's constant ACCELERATION_ENABLED, which is `false`. `now`
-- is on the clock of Korea.
pub mod OneADay
pub mod Dates
use prime_jennie_runtime.Prelude.{
  ℕ, ◌+◌, Bool, true, false, not, ◌&&◌, ◌||◌, Option, none, some, List, [], ◌∷◌, ◌++◌, ltb, leb,
  ◌==◌, if◌then◌else◌,
}
use prime_jennie_runtime.Prelude.Float.{Float}
use prime_jennie_runtime.Prelude.Time.{Datetime, date, time, time_of_day}
use prime_jennie_runtime.KisGateway.Schemas.{Answer, raised, answered}
use prime_jennie_runtime.Dca.State.{
  Campaign, CampaignStatus, SliceExecution, SliceStatus, Slot, Trigger, remaining_cap_krw,
  min_order_krw,
}
use prime_jennie_runtime.Dca.Planning.{accel_should_fire, next_scheduled_slot, accel_slot}
use prime_jennie_runtime.Dca.Broker.{Broker}
use prime_jennie_runtime.Dca.Executor.{
  Rows, is_tail, pass_slice, finalize_slice, settle_from, resumed_status, resume_submitted,
  execute_slice,
}
use prime_jennie_runtime.Dca.Repository.{
  SliceRow, set_slice, delete_stale_pending, fetch_submitted, today_settled, today_filled_krw,
  fetch_due_retry, is_recorded, acquire_slice,
}

pub record LedgerEntry (F : Type 0) : Type 0 where
  pub is_buy : Bool
  pub cancelled : Bool
  pub order_no : ℕ
  pub filled_qty : ℕ
  pub filled_amount : ℕ
  pub avg_price : F

-- Price, opening price and change in percent.
pub record Snapshot (F : Type 0) : Type 0 where
  pub price : ℕ
  pub open_price : ℕ
  pub change_pct : F

-- What a tick is told: the control state, the time, and what the gateway answers about the slice that
-- it executes, about each submitted one, about the ledger of a day, and about the price.
pub record Tick (F : Type 0) : Type 0 where
  pub stopped : Bool
  pub dryrun : Bool
  pub now : Datetime
  pub sched_time : ℕ
  pub broker : Broker F
  pub resumed : SliceRow F → Broker F
  pub ledger : ℕ → Answer (List (LedgerEntry F))
  pub get_snapshot : Answer (Snapshot F)

pub record Account (F : Type 0) : Type 0 where
  pub campaign : Campaign F
  pub slices : List (SliceRow F)

abbrev pub is_active : CampaignStatus → Bool
is_active CampaignStatus.active = true
is_active _ = false

abbrev pub market_open : ℕ
market_open = time 9 0

abbrev pub new_order_cutoff : ℕ
new_order_cutoff = time 15 20

module _ {F : Type 0} where
  abbrev pub set_status : CampaignStatus → Account F → Account F
  set_status status a = record a { campaign = record a.campaign { status = status } }

  -- The slice of a row and its campaign, written back.
  abbrev pub write_back : SliceRow F → Rows F → Account F → Account F
  write_back row (s, c) a = record {
    campaign = c;
    slices = set_slice row.trade_date row.slot s a.slices;
  }

  -- The filled buys of the ledger that no row has.
  unfoldable pub candidates : ℕ → List (SliceRow F) → List (LedgerEntry F) → List (LedgerEntry F)
  unfolding is_recorded
  candidates day slices [] = []
  candidates day slices (e ∷ entries) =
      let rest = candidates day slices entries in
      if e.is_buy
        && not e.cancelled
        && ltb 0 e.filled_qty
        && not (is_recorded day e.order_no slices)
      then e ∷ rest
      else rest

  -- `_maybe_complete`
  unfoldable pub maybe_complete : Account F → Account F
  maybe_complete a =
      let c = a.campaign in
      if leb c.total_slices c.slices_done
        && (c.final_tail_done || leb (remaining_cap_krw c) min_order_krw)
      then set_status CampaignStatus.completed a
      else a

module _ {F : Type 0} ⦃fl : Float F⦄ where
  -- The cases of `_reconcile_via_ledger` on its candidates.
  unfoldable pub adopt : ℕ → Datetime → SliceRow F → List (LedgerEntry F) → Account F → Account F
  unfolding pass_slice finalize_slice set_slice
  adopt cumulative now row [] a =
      write_back row (pass_slice (row.slice, a.campaign) (is_tail row.slice.trigger_kind)) a
  adopt cumulative now row (e ∷ []) a =
      write_back row
        (settle_from cumulative (record row.slice { order_no = some e.order_no }, a.campaign)
          (some now) (resumed_status row.slice.intended_qty e.filled_qty) e.filled_qty
          (if (e.filled_amount == 0)
            then fl.round (fl.mul (fl.of_ℕ e.filled_qty) e.avg_price)
            else e.filled_amount)
          e.avg_price (is_tail row.slice.trigger_kind))
        a
  adopt cumulative now row (e ∷ f ∷ entries) a = set_status CampaignStatus.halted a

  -- One submitted slice; `cumulative` is that of the campaign as the tick read it.
  unfoldable pub reconcile_slice : ℕ → Tick F → SliceRow F → Account F → Account F
  unfolding adopt candidates resume_submitted set_slice
  reconcile_slice cumulative tick row a = elim row.slice.order_no [
    | some order_no ↦
        write_back row (resume_submitted cumulative (row.slice, a.campaign) (tick.resumed row)) a
    | none ↦ elim (tick.ledger row.trade_date) [
      | raised ↦ a
      | answered entries ↦
          adopt cumulative tick.now row (candidates row.trade_date a.slices entries) a
    ]
  ]

  unfoldable pub reconcile_slices : ℕ → Tick F → List (SliceRow F) → Account F → Account F
  unfolding reconcile_slice
  reconcile_slices cumulative tick [] a = a
  reconcile_slices cumulative tick (row ∷ rows) a =
      reconcile_slices cumulative tick rows (reconcile_slice cumulative tick row a)

  unfoldable pub reconcile_inflight : Tick F → Account F → Account F
  unfolding reconcile_slices delete_stale_pending fetch_submitted
  reconcile_inflight tick a =
      let cleared = delete_stale_pending a.slices in
      reconcile_slices a.campaign.cumulative_filled_krw tick (fetch_submitted cleared)
        (record a { slices = cleared })

  -- `execute_slice` on a row of the table.
  unfoldable pub execute_row : Tick F → SliceRow F → Account F → Account F
  unfolding execute_slice today_filled_krw set_slice
  execute_row tick row a =
      write_back row
        (execute_slice (row.slice, a.campaign) (today_filled_krw row.trade_date a.slices) tick.now
          tick.dryrun tick.broker)
        a

  -- `_fire`: the slot is taken first.
  unfoldable pub fire : Tick F → Slot × ℕ × Trigger → Account F → Account F
  unfolding acquire_slice execute_row
  fire tick (slot, slice_no, trigger) a =
      elim (acquire_slice (date tick.now) slot slice_no trigger a.slices) [
        | none ↦ a
        | some row ↦ execute_row tick row (record a { slices = a.slices ++ row ∷ [] })
      ]

  abbrev pub accel_fires : Tick F → Campaign F → Bool
  accel_fires tick c = elim tick.get_snapshot [
    | raised ↦ false
    | answered snap ↦ accel_should_fire c snap.price snap.open_price snap.change_pct tick.now
  ]

  -- G3: the slot of an acceleration, where one fires.
  unfoldable pub accelerated : Bool → Tick F → Campaign F → Option (Slot × ℕ × Trigger)
  unfolding accel_should_fire accel_slot
  accelerated enabled tick c =
      let now = time_of_day tick.now in
      if enabled && leb market_open now && leb now new_order_cutoff && accel_fires tick c
      then accel_slot c
      else none

  -- G4
  unfoldable pub process_scheduled : Tick F → Account F → Account F
  unfolding fire next_scheduled_slot maybe_complete
  process_scheduled tick a =
      let now = time_of_day tick.now in
      if leb tick.sched_time now && leb now new_order_cutoff
      then elim (next_scheduled_slot a.campaign) [
        | none ↦ maybe_complete a
        | some slot ↦ fire tick slot a
      ]
      else a

  unfoldable pub process_campaign : Bool → Tick F → Account F → Account F
  unfolding execute_row fetch_due_retry today_settled maybe_complete accelerated fire
      process_scheduled
  process_campaign enabled tick a =
      if leb (remaining_cap_krw a.campaign) min_order_krw
      then set_status CampaignStatus.cap_reached a
      else elim (fetch_due_retry tick.now a.slices) [
        | some retry ↦ execute_row tick retry a
        | none ↦
            if today_settled (date tick.now) a.slices
            then maybe_complete a
            else elim (accelerated enabled tick a.campaign) [
              | some slot ↦ fire tick slot a
              | none ↦ process_scheduled tick a
            ]
      ]

  -- The body of `run_dca_tick` for one campaign.
  unfoldable pub run_dca_tick : Bool → Account F → Tick F → Account F
  unfolding reconcile_inflight process_campaign
  run_dca_tick enabled a tick =
      if tick.stopped || not (is_active a.campaign.status)
      then a
      else (let fresh = reconcile_inflight tick a in
          if is_active fresh.campaign.status then process_campaign enabled tick fresh else fresh)

  unfoldable pub run_ticks : Bool → Account F → List (Tick F) → Account F
  unfolding run_dca_tick
  run_ticks enabled a [] = a
  run_ticks enabled a (tick ∷ ticks) = run_ticks enabled (run_dca_tick enabled a tick) ticks
