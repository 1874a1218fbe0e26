-- ===== src/Dca/Planning.antt =====
-- The decisions on a slice (prime_jennie_runtime/user_directed_dca/planning.py).
pub mod Budget
use prime_jennie_runtime.Prelude.{
  ℕ, ◌+◌, ◌*◌, ◌-◌, Bool, true, false, ◌&&◌, ◌||◌, not, Option, none, some, ltb, leb, ◌==◌,
  if◌then◌else◌,
}
use prime_jennie_runtime.Prelude.Int.{ℤ, pos, pos_part, sub_ℕ, min_ℤ}
use prime_jennie_runtime.Prelude.Float.{Float}
use prime_jennie_runtime.Prelude.Time.{Datetime, instant, seconds}
use prime_jennie_runtime.Dca.State.{
  Campaign, Slot, Trigger, remaining_cap_krw, base_per_slice_krw, sched_slot, tail_slot, scheduled,
  tail, acceleration,
}

module _ {F : Type 0} ⦃fl : Float F⦄ where
  unfoldable pub target_cumulative_for_slice : Campaign F → ℕ → Bool → ℕ
  target_cumulative_for_slice c slice_no is_tail =
      if is_tail then c.cap_krw else fl.round (fl.mul (base_per_slice_krw c) (fl.of_ℕ slice_no))

  unfoldable pub compute_slice_budget : Campaign F → ℕ → ℕ → ℕ → ℕ
  compute_slice_budget c target_cumulative_krw buying_power today_filled_krw =
      let b1 = sub_ℕ target_cumulative_krw c.cumulative_filled_krw in
      let b2 = min_ℤ b1 (pos (remaining_cap_krw c)) in
      let b3 = min_ℤ b2 (pos (fl.floor (fl.mul (fl.of_ℕ buying_power) c.clamp_pct))) in
      let b4 = min_ℤ b3 (pos c.per_order_cost_cap) in
      let b5 = min_ℤ b4 (sub_ℕ c.per_day_cost_cap today_filled_krw) in pos_part b5

  abbrev cools_down : Campaign F → Datetime → Bool
  cools_down c now = elim c.last_accel_at [
    | none ↦ false
    | some at ↦ ltb (instant now) (instant at + seconds (c.accel_cooldown_h * 3600))
  ]

  unfoldable pub accel_should_fire : Campaign F → ℕ → ℕ → F → Datetime → Bool
  accel_should_fire c price open_price change_pct now =
      if leb c.total_slices c.slices_done
      then false
      else if cools_down c now
      then false
      else if open_price == 0 || price == 0
      then false
      else let open_drop = fl.sub (fl.div (fl.of_ℕ price) (fl.of_ℕ open_price)) (fl.decimal 10 1) in
        fl.le open_drop (fl.div c.accel_open_pct (fl.decimal 1000 1))
        || fl.le (fl.div change_pct (fl.decimal 1000 1))
            (fl.div c.accel_prev_pct (fl.decimal 1000 1))

module _ {F : Type 0} where
  unfoldable pub next_scheduled_slot : Campaign F → Option (Slot × ℕ × Trigger)
  next_scheduled_slot c =
      if ltb c.slices_done c.total_slices
      then some (sched_slot, c.slices_done + 1, scheduled)
      else if (c.slices_done == c.total_slices)
          && not c.final_tail_done
          && ltb 0 (remaining_cap_krw c)
      then some (tail_slot, c.total_slices + 1, tail)
      else none

  unfoldable pub accel_slot : Campaign F → Option (Slot × ℕ × Trigger)
  accel_slot c =
      if leb c.total_slices c.slices_done
      then none
      else some (Slot.accel_slot, c.slices_done + 1, acceleration)
