-- ===== src/Dca/Repository.antt =====
-- The table of the slices of one campaign (prime_jennie_runtime/user_directed_dca/repository.py). A
-- row's `slice_key` is its campaign's id with its trade date and its slot, and it is by the key that
-- a row is updated here; the tables of other campaigns are not touched by what is modelled. Rows stand
-- in the order of their ids.
use prime_jennie_runtime.Prelude.{
  ℕ, ◌+◌, Bool, true, false, not, ◌&&◌, ◌||◌, Option, none, some, List, [], ◌∷◌, leb, ◌==◌,
  if◌then◌else◌,
}
use prime_jennie_runtime.Prelude.Float.{Float}
use prime_jennie_runtime.Prelude.Time.{Datetime, instant}
use prime_jennie_runtime.Dca.State.{
  SliceExecution, SliceStatus, Slot, sched_slot, accel_slot, tail_slot, Trigger,
}

pub record SliceRow (F : Type 0) : Type 0 where
  pub trade_date : ℕ
  pub slot : Slot
  pub slice : SliceExecution F

abbrev slot_code : Slot → ℕ
slot_code sched_slot = 0
slot_code accel_slot = 1
slot_code tail_slot = 2

abbrev pub is_pending : SliceStatus → Bool
is_pending SliceStatus.pending = true
is_pending _ = false

abbrev pub is_submitted : SliceStatus → Bool
is_submitted SliceStatus.submitted = true
is_submitted _ = false

abbrev pub is_retry : SliceStatus → Bool
is_retry SliceStatus.rejected_retry = true
is_retry _ = false

module _ {F : Type 0} where
  abbrev pub has_key : ℕ → Slot → SliceRow F → Bool
  has_key date slot row = row.trade_date == date && slot_code row.slot == slot_code slot

  -- `UPDATE ... WHERE id=$1`
  unfoldable pub set_slice : ℕ → Slot → SliceExecution F → List (SliceRow F) → List (SliceRow F)
  set_slice date slot s [] = []
  set_slice date slot s (row ∷ rows) =
      let rest = set_slice date slot s rows in
      if has_key date slot row then record row { slice = s } ∷ rows else row ∷ rest

  unfoldable pub delete_stale_pending : List (SliceRow F) → List (SliceRow F)
  delete_stale_pending [] = []
  delete_stale_pending (row ∷ rows) =
      let rest = delete_stale_pending rows in
      if is_pending row.slice.status then rest else row ∷ rest

  unfoldable pub fetch_submitted : List (SliceRow F) → List (SliceRow F)
  fetch_submitted [] = []
  fetch_submitted (row ∷ rows) =
      let rest = fetch_submitted rows in if is_submitted row.slice.status then row ∷ rest else rest

  unfoldable pub today_settled : ℕ → List (SliceRow F) → Bool
  today_settled date [] = false
  today_settled date (row ∷ rows) =
      row.trade_date == date && not (is_pending row.slice.status) || today_settled date rows

  unfoldable pub today_filled_krw : ℕ → List (SliceRow F) → ℕ
  today_filled_krw date [] = 0
  today_filled_krw date (row ∷ rows) =
      let rest = today_filled_krw date rows in
      if row.trade_date == date then row.slice.filled_krw + rest else rest

  -- The time of a retry that is due.
  abbrev pub due_at : Datetime → SliceRow F → Option ℕ
  due_at now row =
      if is_retry row.slice.status
      then elim row.slice.retry_at [
        | none ↦ none
        | some at ↦ if leb (instant at) (instant now) then some (instant at) else none
      ]
      else none

  abbrev earlier : Datetime → ℕ → SliceRow F → Option (SliceRow F) → Option (SliceRow F)
  earlier now at row none = some row
  earlier now at row (some other) = elim (due_at now other) [
    | none ↦ some row
    | some at' ↦ if leb at at' then some row else some other
  ]

  -- `ORDER BY retry_at LIMIT 1`
  unfoldable pub fetch_due_retry : Datetime → List (SliceRow F) → Option (SliceRow F)
  fetch_due_retry now [] = none
  fetch_due_retry now (row ∷ rows) =
      let rest = fetch_due_retry now rows in
      elim (due_at now row) [ none ↦ rest | some at ↦ earlier now at row rest ]

  unfoldable pub has_row : ℕ → Slot → List (SliceRow F) → Bool
  has_row date slot [] = false
  has_row date slot (row ∷ rows) = has_key date slot row || has_row date slot rows

  -- `order_no in recorded`, for the rows of one trade date.
  unfoldable pub is_recorded : ℕ → ℕ → List (SliceRow F) → Bool
  is_recorded date order_no [] = false
  is_recorded date order_no (row ∷ rows) =
      (row.trade_date == date && elim row.slice.order_no [ none ↦ false | some o ↦ o == order_no ])
      || is_recorded date order_no rows

module _ {F : Type 0} ⦃fl : Float F⦄ where
  abbrev pub pending_slice : ℕ → Trigger → SliceExecution F
  pending_slice slice_no trigger = record {
    slice_no = slice_no;
    trigger_kind = trigger;
    status = SliceStatus.pending;
    intended_qty = none;
    order_no = none;
    filled_qty = 0;
    filled_krw = 0;
    avg_price = fl.decimal 0 1;
    retry_at = none;
    retry_count = 0;
  }

  -- `ON CONFLICT (slice_key) DO NOTHING RETURNING`: the new row, `none` where the key is taken.
  unfoldable pub acquire_slice : ℕ → Slot → ℕ → Trigger → List (SliceRow F) → Option (SliceRow F)
  unfolding has_row
  acquire_slice date slot slice_no trigger rows =
      if has_row date slot rows
      then none
      else some (record { trade_date = date; slot = slot; slice = pending_slice slice_no trigger })
