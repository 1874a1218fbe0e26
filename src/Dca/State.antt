-- ===== src/Dca/State.antt =====
-- Campaigns and slices (prime_jennie_runtime/user_directed_dca/state.py). Amounts of won and
-- quantities are natural numbers. The ids, the preset, the ticker and the texts for the audit are
-- left out.
use prime_jennie_runtime.Prelude.{ℕ, ◌-◌, Bool, Option, ◌==◌, if◌then◌else◌}
use prime_jennie_runtime.Prelude.Float.{Float}
use prime_jennie_runtime.Prelude.Time.{Datetime}

abbrev pub min_order_krw : ℕ
min_order_krw = 1000

pub data CampaignStatus : Type 0 where
  active completed cap_reached paused halted : CampaignStatus

pub data SliceStatus : Type 0 where
  pending submitted filled partial rejected_retry passed skipped_cap : SliceStatus

pub data Slot : Type 0 where
  sched_slot accel_slot tail_slot : Slot

pub data Trigger : Type 0 where
  scheduled acceleration tail : Trigger

pub record Campaign (F : Type 0) : Type 0 where
  pub status : CampaignStatus
  pub cap_krw : ℕ
  pub total_slices : ℕ
  pub accel_open_pct : F
  pub accel_prev_pct : F
  pub accel_cooldown_h : ℕ
  pub clamp_pct : F
  pub per_order_cost_cap : ℕ
  pub per_day_cost_cap : ℕ
  pub dry_run : Bool
  pub cumulative_filled_krw : ℕ
  pub cumulative_filled_qty : ℕ
  pub slices_done : ℕ
  pub last_accel_at : Option Datetime
  pub final_tail_done : Bool

pub record SliceExecution (F : Type 0) : Type 0 where
  pub slice_no : ℕ
  pub trigger_kind : Trigger
  pub status : SliceStatus
  pub intended_qty : Option ℕ
  pub order_no : Option ℕ
  pub filled_qty : ℕ
  pub filled_krw : ℕ
  pub avg_price : F
  pub retry_at : Option Datetime
  pub retry_count : ℕ

-- TERMINAL_SLICE_STATUSES
abbrev pub is_terminal : SliceStatus → Bool
is_terminal filled = Bool.true
is_terminal partial = Bool.true
is_terminal passed = Bool.true
is_terminal skipped_cap = Bool.true
is_terminal _ = Bool.false

module _ {F : Type 0} where
  -- `max(cap_krw - cumulative_filled_krw, 0)`
  abbrev pub remaining_cap_krw : Campaign F → ℕ
  remaining_cap_krw c = c.cap_krw - c.cumulative_filled_krw

module _ {F : Type 0} ⦃fl : Float F⦄ where
  abbrev pub base_per_slice_krw : Campaign F → F
  base_per_slice_krw c =
      if c.total_slices == 0
      then fl.decimal 0 1
      else fl.div (fl.of_ℕ c.cap_krw) (fl.of_ℕ c.total_slices)
