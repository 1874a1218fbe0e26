-- ===== src/Dca/Executor.antt =====
-- The execution of one slice (prime_jennie_runtime/user_directed_dca/executor.py, with
-- `finalize_slice` of repository.py). The broker's answers are values (Dca/Broker). Notifications,
-- logs and the texts of reasons are left out.
pub mod Orders
pub mod Finish
use Prim.Native.Nat.{◌/◌}
use prime_jennie_runtime.Prelude.{
  ℕ, suc, ◌+◌, ◌*◌, Bool, true, false, ◌&&◌, ◌||◌, not, Option, none, some, ltb, leb, ◌==◌,
  if◌then◌else◌,
}
use prime_jennie_runtime.Prelude.Float.{Float}
use prime_jennie_runtime.Prelude.Time.{Datetime, seconds, time, time_of_day}
use prime_jennie_runtime.Dca.State.{
  Campaign, SliceExecution, CampaignStatus, SliceStatus, Trigger, remaining_cap_krw, min_order_krw,
  tail, acceleration,
}
use prime_jennie_runtime.Dca.Broker.{Broker, confirm_terminal}
use prime_jennie_runtime.KisGateway.Schemas.{Answer, raised, answered, OrderStatus, OrderResult}
use prime_jennie_runtime.Dca.Planning.{target_cumulative_for_slice, compute_slice_budget}

abbrev pub is_tail : Trigger → Bool
is_tail tail = true
is_tail _ = false

abbrev pub is_acceleration : Trigger → Bool
is_acceleration acceleration = true
is_acceleration _ = false

-- `COALESCE(new, old)`
abbrev pub coalesce : {A : Type 0} → Option A → A → A
coalesce none old = old
coalesce (some new) old = new

abbrev pub coalesce_opt : {A : Type 0} → Option A → Option A → Option A
coalesce_opt none old = old
coalesce_opt (some new) old = some new

abbrev pub vi_retry_cutoff : ℕ
vi_retry_cutoff = time 15 10

abbrev pub vi_retry_delay_sec : ℕ
vi_retry_delay_sec = 300

abbrev pub fill_status : ℕ → ℕ → SliceStatus
fill_status filled_qty qty = if leb qty filled_qty then SliceStatus.filled else SliceStatus.partial

-- The status of a fill of a resumed slice.
abbrev pub resumed_status : Option ℕ → ℕ → SliceStatus
resumed_status intended_qty filled_qty =
    let qty = coalesce intended_qty 0 in
    if (qty == 0) then SliceStatus.partial else fill_status filled_qty qty

abbrev pub settled_status : Bool → Bool → Option CampaignStatus
settled_status cap_reached tail_done =
    if cap_reached
    then some CampaignStatus.cap_reached
    else if tail_done
    then some CampaignStatus.completed
    else none

-- The slice with its campaign, as the database holds them.
abbrev pub Rows : Type 0 → Type 0
Rows F = SliceExecution F × Campaign F

module _ {F : Type 0} where
  -- `finalize_slice`, with `advance_slices_done`.
  unfoldable pub finalize_slice :
      Rows F → SliceStatus → ℕ → ℕ → F → Option Datetime → Bool → Option CampaignStatus → Rows F
  finalize_slice (s, c) status qty krw avg last_accel tail_done new_status = (
    record s { status = status; filled_qty = qty; filled_krw = krw; avg_price = avg },
    record c {
      cumulative_filled_krw = c.cumulative_filled_krw + krw;
      cumulative_filled_qty = c.cumulative_filled_qty + qty;
      slices_done = suc c.slices_done;
      last_accel_at = coalesce_opt last_accel c.last_accel_at;
      final_tail_done = c.final_tail_done || tail_done;
      status = coalesce new_status c.status;
    },
  )

  -- `_settle`, where the campaign that the caller has read had `cumulative` filled.
  abbrev pub settle_from : ℕ → Rows F → Option Datetime → SliceStatus → ℕ → ℕ → F → Bool → Rows F
  settle_from cumulative (s, c) now status qty krw avg tail_done =
      finalize_slice (s, c) status qty krw avg
        (if is_acceleration s.trigger_kind then now else none) tail_done
        (settled_status (leb c.cap_krw (cumulative + krw)) tail_done)

  unfoldable pub settle : Rows F → Option Datetime → SliceStatus → ℕ → ℕ → F → Bool → Rows F
  unfolding finalize_slice
  settle (s, c) now status qty krw avg tail_done =
      settle_from c.cumulative_filled_krw (s, c) now status qty krw avg tail_done

module _ {F : Type 0} ⦃fl : Float F⦄ where
  unfoldable pub pass_slice : Rows F → Bool → Rows F
  unfolding finalize_slice
  pass_slice rows tail_done =
      finalize_slice rows SliceStatus.passed 0 0 (fl.decimal 0 1) none tail_done
        (if tail_done then some CampaignStatus.completed else none)

  unfoldable pub vi_retry_or_pass : Rows F → Datetime → Rows F
  unfolding pass_slice
  vi_retry_or_pass (s, c) now =
      if (s.retry_count == 0) && ltb (time_of_day now) vi_retry_cutoff
      then (
        record s {
          status = SliceStatus.rejected_retry;
          retry_at = some (record now { wall = now.wall + seconds vi_retry_delay_sec });
          retry_count = 1;
        },
        c,
      )
      else pass_slice (s, c) (is_tail s.trigger_kind)

  -- Step 6 of `execute_slice`. An exception leaves the slice submitted under its order number.
  unfoldable pub confirm_and_settle : Rows F → ℕ → Datetime → Broker F → Rows F
  unfolding confirm_terminal settle vi_retry_or_pass
  confirm_and_settle (s, c) qty now broker = elim (confirm_terminal broker qty) [
    | raised ↦ (s, c)
    | answered confirmed ↦ elim confirmed [
      | none ↦ vi_retry_or_pass (s, c) now
      | some status ↦
          if leb status.filled_qty 0
          then vi_retry_or_pass (s, c) now
          else settle (s, c) (some now) (fill_status status.filled_qty qty) status.filled_qty
              (fl.round (fl.mul (fl.of_ℕ status.filled_qty) status.avg_price)) status.avg_price
              (is_tail s.trigger_kind)
    ]
  ]

  -- Step 5: the slice is submitted before the order goes out.
  unfoldable pub submit : Rows F → ℕ → Datetime → Broker F → Rows F
  unfolding confirm_and_settle
  submit (s, c) qty now broker =
      let s' : SliceExecution F = record s { status = SliceStatus.submitted } in
      elim broker.buy [
        | raised ↦ vi_retry_or_pass (s', c) now
        | answered result ↦
            if result.success
            then elim result.order_no [
              | none ↦ vi_retry_or_pass (s', c) now
              | some order_no ↦
                  confirm_and_settle (record s' { order_no = some order_no }, c) qty now broker
            ]
            else vi_retry_or_pass (s', c) now
      ]

  -- Steps 3 and 4, with the budget and the price.
  unfoldable pub order_slice : Rows F → ℕ → ℕ → Datetime → Bool → Broker F → Rows F
  unfolding submit
  order_slice (s, c) budget price now force_dry broker =
      let tail_done = is_tail s.trigger_kind in
      let qty = budget / price in
      let s' : SliceExecution F = record s { intended_qty = some qty } in
      if price == 0
      then pass_slice (s, c) tail_done
      else if qty == 0
      then pass_slice (s, c) tail_done
      else if force_dry || c.dry_run
      then settle (s', c) (some now) SliceStatus.filled qty (qty * price) (fl.of_ℕ price) tail_done
      else submit (s', c) qty now broker

  -- The budget of step 2.
  abbrev pub slice_budget : Rows F → ℕ → ℕ → ℕ
  slice_budget (s, c) buying_power today_filled =
      compute_slice_budget c (target_cumulative_for_slice c s.slice_no (is_tail s.trigger_kind))
        buying_power today_filled

  -- What follows the budget.
  unfoldable pub with_budget : Rows F → ℕ → Datetime → Bool → Broker F → Rows F
  unfolding order_slice
  with_budget (s, c) budget now force_dry broker =
      if leb budget min_order_krw
      then pass_slice (s, c) (is_tail s.trigger_kind)
      else elim broker.get_snapshot [
        | raised ↦ (s, c)
        | answered price ↦ order_slice (s, c) budget price now force_dry broker
      ]

  unfoldable pub execute_slice : Rows F → ℕ → Datetime → Bool → Broker F → Rows F
  unfolding with_budget finalize_slice
  execute_slice (s, c) today_filled now force_dry broker =
      if leb (remaining_cap_krw c) min_order_krw
      then finalize_slice (s, c) SliceStatus.skipped_cap 0 0 (fl.decimal 0 1) none false
          (some CampaignStatus.cap_reached)
      else elim broker.get_cash [
        | raised ↦ (s, c)
        | answered buying_power ↦
            with_budget (s, c) (slice_budget (s, c) buying_power today_filled) now force_dry broker
      ]

  -- `_resume_submitted`: a slice that was submitted when the process stopped, of a campaign that had
  -- `cumulative` filled when the tick read it. An exception leaves it.
  unfoldable pub resume_submitted : ℕ → Rows F → Broker F → Rows F
  unfolding confirm_terminal finalize_slice pass_slice
  resume_submitted cumulative (s, c) broker =
      let tail_done = is_tail s.trigger_kind in
      elim (confirm_terminal broker (coalesce s.intended_qty 0)) [
        | raised ↦ (s, c)
        | answered confirmed ↦ elim confirmed [
          | none ↦ pass_slice (s, c) tail_done
          | some status ↦
              if leb status.filled_qty 0
              then pass_slice (s, c) tail_done
              else settle_from cumulative (s, c) none
                  (resumed_status s.intended_qty status.filled_qty) status.filled_qty
                  (fl.round (fl.mul (fl.of_ℕ status.filled_qty) status.avg_price)) status.avg_price
                  tail_done
        ]
      ]
