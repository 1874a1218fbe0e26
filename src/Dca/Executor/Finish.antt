-- ===== src/Dca/Executor/Finish.antt =====
-- A simulated campaign comes to its end.
use prime_jennie_runtime.Prelude.{
  ℕ, suc, ◌+◌, ◌<◌, ◌≡◌, refl, ap, ◌∙◌, ◌⊎◌, inl, inr, Bool, true, false, none, some, List, [], ◌∷◌,
  arith, length, Option-cases, Bool-cases, if◌then◌else◌,
}
use prime_jennie_runtime.Prelude.Float.{Float}
use prime_jennie_runtime.Prelude.Time.{Datetime}
use prime_jennie_runtime.Dca.State.{Campaign, SliceExecution, CampaignStatus, SliceStatus, Trigger}
use prime_jennie_runtime.Dca.Broker.{Broker}
use prime_jennie_runtime.KisGateway.Schemas.{Answer, answered}
use prime_jennie_runtime.Dca.Planning.{next_scheduled_slot}
use prime_jennie_runtime.Dca.Executor.{execute_slice}

-- A new slice for the slot, as `acquire_slice` inserts it.
abbrev pub new_slice : {F : Type 0} → F → ℕ → Trigger → SliceExecution F
new_slice zero_price slice_no trigger_kind = record {
  slice_no = slice_no;
  trigger_kind = trigger_kind;
  status = SliceStatus.pending;
  intended_qty = none;
  order_no = none;
  filled_qty = 0;
  filled_krw = 0;
  avg_price = zero_price;
  retry_at = none;
  retry_count = 0;
}

abbrev pub is_active : CampaignStatus → Bool
is_active CampaignStatus.active = true
is_active _ = false

-- A day on which cash and price are known: what was filled before, the cash and the price.
pub record Quoted : Type 0 where
  pub now : Datetime
  pub cash : ℕ
  pub price : ℕ

module _ {F : Type 0} ⦃fl : Float F⦄ where
  abbrev quoted : Quoted → Broker F
  quoted d = record {
    get_cash = answered d.cash;
    get_snapshot = answered d.price;
    buy = Answer.raised;
    confirm_order = Answer.raised;
    check_order_status = Answer.raised;
  }

  -- The scheduled execution of one day in simulation.
  pub simulate_day : Campaign F → Quoted → Campaign F
  simulate_day c d = elim (next_scheduled_slot c) [
    | none ↦ c
    | some (slot, slice_no, trigger) ↦
        if is_active c.status
        then (execute_slice (new_slice (fl.decimal 0 1) slice_no trigger, c) 0 d.now true
            (quoted d)).1
        else c
  ]

  pub simulate : Campaign F → List Quoted → Campaign F
  unfolding simulate_day
  simulate c [] = c
  simulate c (d ∷ ds) = simulate (simulate_day c d) ds

  -- Nothing is left to execute.
  abbrev pub IsFinished : Campaign F → Type 0
  IsFinished c = (is_active c.status ≡ false) ⊎ (next_scheduled_slot c ≡ none)

  quoted_counts :
      (c : Campaign F) (d : Quoted) (slice_no : ℕ) (trigger : Trigger)
      → let c' =
          (execute_slice
            (new_slice (fl.decimal 0 1) slice_no trigger, c)
            0
            d.now
            true
            (quoted d)).1 in
        (c'.slices_done ≡ suc c.slices_done) × (c'.total_slices ≡ c.total_slices)
  unfolding execute_slice
  quoted_counts c d slice_no trigger = ground arith

  finished_day : (c : Campaign F) (d : Quoted) → IsFinished c → simulate_day c d ≡ c
  unfolding simulate_day
  finished_day c d (inl over) = ground arith
  finished_day c d (inr none_left) = ground arith

  finished_stays : (c : Campaign F) (ds : List Quoted) → IsFinished c → simulate c ds ≡ c
  unfolding simulate
  finished_stays c [] h = refl
  finished_stays c (d ∷ ds) h = ap (λ x. simulate x ds) (finished_day c d h) ∙ finished_stays c ds h

  day_counts :
      (c : Campaign F) (d : Quoted)
      → IsFinished c
        ⊎ (((simulate_day c d).slices_done ≡ suc c.slices_done)
            × ((simulate_day c d).total_slices ≡ c.total_slices))
  unfolding simulate_day
  day_counts c d = elim (Option-cases (next_scheduled_slot c)) [
    | inl none_left ↦ inl (inr none_left)
    | inr (slot, due) ↦ elim (Bool-cases (is_active c.status)) [
      | inl on ↦ inr (ground (arith, quoted_counts c d slot.1 slot.2))
      | inr off ↦ inl (inl off)
    ]
  ]

  past_the_tail : (c : Campaign F) → c.total_slices < c.slices_done → next_scheduled_slot c ≡ none
  unfolding next_scheduled_slot
  past_the_tail c h = ground arith

  -- A campaign in simulation ends: after one day more than it has slices left, each with a quoted
  -- price and known cash, it has stopped, or no slice and no tail is left to execute.
  pub simulation_finishes :
      (c : Campaign F) (ds : List Quoted)
      → c.total_slices < c.slices_done + length ds
      → IsFinished (simulate c ds)
  unfolding simulate
  simulation_finishes c [] h = inr (past_the_tail c (omega arith))
  simulation_finishes c (d ∷ ds) h = elim (day_counts c d) [
    | inl over ↦ ground (arith, finished_day c d over, finished_stays c ds over)
    | inr (counted, same) ↦ simulation_finishes (simulate_day c d) ds (omega arith)
  ]
