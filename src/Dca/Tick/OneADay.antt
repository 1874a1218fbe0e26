-- ===== src/Dca/Tick/OneADay.antt =====
-- The days of the slices of a campaign.
use prime_jennie_runtime.Prelude.{
  ℕ, ◌≡◌, refl, inl, inr, Bool, false, ◌&&◌, List, [], ◌∷◌, arith, leb, Bool-cases, Option-cases,
}
use prime_jennie_runtime.Prelude.Float.{Float}
use prime_jennie_runtime.Prelude.Time.{date, time_of_day}
use prime_jennie_runtime.KisGateway.Schemas.{Answer-cases}
use prime_jennie_runtime.Dca.State.{
  Campaign, SliceExecution, Slot, Trigger, remaining_cap_krw, min_order_krw,
}
use prime_jennie_runtime.Dca.Broker.{Broker}
use prime_jennie_runtime.Dca.Planning.{next_scheduled_slot}
use prime_jennie_runtime.Dca.Executor.{pass_slice, finalize_slice, resume_submitted}
use prime_jennie_runtime.Dca.Repository.{
  SliceRow, is_pending, delete_stale_pending, today_settled, fetch_due_retry, acquire_slice,
  has_row,
}
use prime_jennie_runtime.Dca.Tick.{
  Account, Tick, LedgerEntry, new_order_cutoff, adopt, candidates, reconcile_slice,
  reconcile_slices, reconcile_inflight, execute_row, fire, accelerated, maybe_complete,
  process_scheduled, process_campaign, run_dca_tick, run_ticks,
}
use prime_jennie_runtime.Dca.Tick.Dates.{
  any_on, OneADay, NoPending, set_slice-OneADay, delete-OneADay, submitted_lem, settled_lem,
  OneADay-last, Cleared, set_slice-Cleared,
}

module _ {F : Type 0} ⦃fl : Float F⦄ where
  resumed_lem :
      (cumulative : ℕ) (s : SliceExecution F) (c : Campaign F) (broker : Broker F)
      → is_pending s.status ≡ false
      → is_pending (resume_submitted cumulative (s, c) broker).0.status ≡ false
  unfolding resume_submitted pass_slice finalize_slice
  resumed_lem cumulative s c broker h = ground arith

  adopt-Cleared :
      (cumulative : ℕ) (tick : Tick F) (row : SliceRow F) (entries : List (LedgerEntry F))
      (a : Account F)
      → Cleared a
      → Cleared (adopt cumulative tick.now row entries a)
  unfolding adopt pass_slice finalize_slice
  adopt-Cleared cumulative tick row [] a h = set_slice-Cleared row _ a.slices refl h
  adopt-Cleared cumulative tick row (e ∷ []) a h = set_slice-Cleared row _ a.slices (ground arith) h
  adopt-Cleared cumulative tick row (e ∷ f ∷ entries) a h = h

  reconcile_slice-Cleared :
      (cumulative : ℕ) (tick : Tick F) (row : SliceRow F) (a : Account F)
      → is_pending row.slice.status ≡ false
      → Cleared a
      → Cleared (reconcile_slice cumulative tick row a)
  unfolding reconcile_slice
  reconcile_slice-Cleared cumulative tick row a e h = elim (Option-cases row.slice.order_no) [
    | inr (order_no, known) ↦
        rw (known, reconcile_slice)
          (set_slice-Cleared row _ a.slices
            (resumed_lem cumulative row.slice a.campaign (tick.resumed row) e) h)
    | inl unknown ↦ elim (Answer-cases (tick.ledger row.trade_date)) [
      | inl failed ↦ rw (unknown, failed, reconcile_slice) h
      | inr (entries, told) ↦
          rw (unknown, told, reconcile_slice)
            (adopt-Cleared cumulative tick row (candidates row.trade_date a.slices entries) a h)
    ]
  ]

  reconcile_slices-Cleared :
      (cumulative : ℕ) (tick : Tick F) (rows : List (SliceRow F)) (a : Account F)
      → NoPending rows
      → Cleared a
      → Cleared (reconcile_slices cumulative tick rows a)
  unfolding reconcile_slices
  reconcile_slices-Cleared cumulative tick [] a e h = h
  reconcile_slices-Cleared cumulative tick (row ∷ rows) a (p, e) h =
      reconcile_slices-Cleared cumulative tick rows _ e
        (reconcile_slice-Cleared cumulative tick row a p h)

  reconcile_inflight-Cleared :
      (tick : Tick F) (a : Account F) → OneADay a.slices → Cleared (reconcile_inflight tick a)
  unfolding reconcile_inflight
  reconcile_inflight-Cleared tick a h =
      reconcile_slices-Cleared a.campaign.cumulative_filled_krw tick _ _
        (submitted_lem (delete_stale_pending a.slices)) (delete-OneADay a.slices h)

  fire-OneADay :
      (tick : Tick F) (slot : Slot × ℕ × Trigger) (a : Account F)
      → OneADay a.slices
      → any_on (date tick.now) a.slices ≡ false
      → OneADay (fire tick slot a).slices
  unfolding fire acquire_slice execute_row
  fire-OneADay tick (slot, slice_no, trigger) a h free =
      elim (Bool-cases (has_row (date tick.now) slot a.slices)) [
        | inl taken ↦ rw (taken, fire, acquire_slice) h
        | inr new ↦
            rw (new, fire, acquire_slice)
              (set_slice-OneADay (date tick.now) slot _ _ (OneADay-last a.slices _ h free))
      ]

  maybe_complete-slices : (a : Account F) → (maybe_complete a).slices ≡ a.slices
  unfolding maybe_complete
  maybe_complete-slices a = ground arith

  scheduled-OneADay :
      (tick : Tick F) (a : Account F)
      → OneADay a.slices
      → any_on (date tick.now) a.slices ≡ false
      → OneADay (process_scheduled tick a).slices
  unfolding process_scheduled
  scheduled-OneADay tick a h free =
      elim (Bool-cases (
        leb tick.sched_time (time_of_day tick.now)
        && leb (time_of_day tick.now) new_order_cutoff)) [
          | inr outside ↦ rw (outside, process_scheduled) h
          | inl inside ↦ elim (Option-cases (next_scheduled_slot a.campaign)) [
            | inl over ↦ rw (inside, over, process_scheduled, maybe_complete-slices a) h
            | inr (slot, due) ↦
                rw (inside, due, process_scheduled) (fire-OneADay tick slot a h free)
          ]
        ]

  process-OneADay :
      (enabled : Bool) (tick : Tick F) (a : Account F)
      → Cleared a
      → OneADay (process_campaign enabled tick a).slices
  unfolding process_campaign execute_row
  process-OneADay enabled tick a (one, clear) =
      elim (Bool-cases (leb (remaining_cap_krw a.campaign) min_order_krw)) [
        | inl spent ↦ rw (spent, process_campaign) one
        | inr left ↦ elim (Option-cases (fetch_due_retry tick.now a.slices)) [
          | inr (retry, due) ↦
              rw (left, due, process_campaign)
                (set_slice-OneADay retry.trade_date retry.slot _ a.slices one)
          | inl undue ↦ elim (Bool-cases (today_settled (date tick.now) a.slices)) [
            | inl settled ↦ rw (left, undue, settled, process_campaign, maybe_complete-slices a) one
            | inr unsettled ↦
                let free = settled_lem (date tick.now) a.slices clear unsettled in
                elim (Option-cases (accelerated enabled tick a.campaign)) [
                  | inr (slot, early) ↦
                      rw (left, undue, unsettled, early, process_campaign)
                        (fire-OneADay tick slot a one free)
                  | inl calm ↦
                      rw (left, undue, unsettled, calm, process_campaign)
                        (scheduled-OneADay tick a one free)
                ]
          ]
        ]
      ]

  tick-OneADay :
      (enabled : Bool) (a : Account F) (tick : Tick F)
      → OneADay a.slices
      → OneADay (run_dca_tick enabled a tick).slices
  unfolding run_dca_tick
  tick-OneADay enabled a tick h =
      let cleared = reconcile_inflight-Cleared tick a h in
      ground (arith, h, cleared.0, process-OneADay enabled tick (reconcile_inflight tick a) cleared)

  -- Over any ticks a campaign has at most one slice for a trade date: no two rows of its table have
  -- the same one, whatever the gateway answers, with the acceleration on or off, and also where the
  -- process stops between two ticks with slices pending or submitted. A slice that is retried keeps
  -- its trade date, and may be executed on a later day.
  pub one_slice_a_day :
      (enabled : Bool) (a : Account F) (ticks : List (Tick F))
      → OneADay a.slices
      → OneADay (run_ticks enabled a ticks).slices
  unfolding run_ticks
  one_slice_a_day enabled a [] h = h
  one_slice_a_day enabled a (tick ∷ ticks) h =
      one_slice_a_day enabled (run_dca_tick enabled a tick) ticks (tick-OneADay enabled a tick h)
