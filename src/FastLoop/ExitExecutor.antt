-- ===== src/FastLoop/ExitExecutor.antt =====
-- The execution of an exit decision (prime_jennie_runtime/fast_loop/exit_executor.py). What the
-- gateway and the control state answer are arguments; an exception of the gateway leaves `execute`
-- with the position as it stands then. Left out: notifications, events, the rows that the recorder
-- writes, and the profit that they carry. A quantity stops at 0, where the source may go below; both
-- are closed then.
pub mod Outcome
pub mod Failures
use Prim.Native.Nat.{min, max}
use prime_jennie_runtime.Prelude.{
  ℕ, suc, ◌-◌, Bool, true, false, ◌&&◌, Option, none, some, ltb, leb, ◌==◌, if◌then◌else◌,
}
use prime_jennie_runtime.Prelude.Float.{Float}
use prime_jennie_runtime.FastLoop.Domain.{PositionState, ExitDecision}
use prime_jennie_runtime.KisGateway.Schemas.{Answer, raised, answered, OrderStatus, OrderResult}

-- The control state that `system_state.snapshot()` returns.
pub record SystemSnapshot : Type 0 where
  pub stopped : Bool
  pub dryrun : Bool

pub record Broker (F : Type 0) : Type 0 where
  pub sell : Answer OrderResult
  pub confirm_order : Answer (Option (OrderStatus F))
  pub check_order_status : Answer (Option (OrderStatus F))

-- What the executor asks of the position tracker.
pub data TrackerCall : Type 0 where
  untouched persists closes : TrackerCall

-- Why an outcome failed, or how it came about.
pub data Result : Type 0 where
  stop_raised blocked_stop dry_sold sell_rejected sell_not_filled sold gateway_failed : Result

abbrev pub has_number : Option ℕ → Bool
has_number none = false
has_number (some _) = true

-- `result.success` with an order number.
abbrev pub is_accepted : OrderResult → Bool
is_accepted r = r.success && has_number r.order_no

-- The position behind an execution, the call of the tracker, the quantity sent to the gateway, and
-- the fields of `ExitOutcome`.
pub record Executed (F : Type 0) : Type 0 where
  pub state : PositionState F
  pub tracker : TrackerCall
  pub ordered : Option ℕ
  pub success : Bool
  pub result : Result
  pub closed_qty : ℕ
  pub fully_closed : Bool

module _ {F : Type 0} where
  -- An execution that sells nothing.
  abbrev pub unsold : PositionState F → TrackerCall → Option ℕ → Bool → Result → Executed F
  unsold s tracker ordered success result = record {
    state = s;
    tracker = tracker;
    ordered = ordered;
    success = success;
    result = result;
    closed_qty = 0;
    fully_closed = false;
  }

  unfoldable pub record_exit_failure : ℕ → PositionState F → PositionState F × TrackerCall
  record_exit_failure max_exit_failures s =
      let count = suc s.exit_fail_count in
      (
        record s { exit_fail_count = count },
        if ltb count max_exit_failures then persists else closes,
      )

  -- A rejected order, or one of which nothing was filled.
  unfoldable pub fail_exit : ℕ → PositionState F → ℕ → Result → Executed F
  unfolding record_exit_failure
  fail_exit max_exit_failures s qty result =
      let (s', call) = record_exit_failure max_exit_failures s in
      unsold s' call (some qty) false result

  -- The position after a fill.
  unfoldable pub settle_fill : PositionState F → ℕ → ℕ → Executed F
  settle_fill s qty filled_qty =
      let left = s.quantity - filled_qty in
      record {
        state = record s { quantity = left; exit_fail_count = 0 };
        tracker = if left == 0 then closes else persists;
        ordered = some qty;
        success = true;
        result = sold;
        closed_qty = filled_qty;
        fully_closed = left == 0;
      }

  abbrev pub final_quantity : ℕ → Option (OrderStatus F) → ℕ
  final_quantity filled none = filled
  final_quantity filled (some final) = if leb final.filled_qty 0 then filled else final.filled_qty

  -- What follows a confirmation with some quantity filled: the rest of a partial fill is cancelled,
  -- and a failed cancellation is passed over.
  unfoldable pub finish_fill : PositionState F → ℕ → ℕ → Broker F → Executed F
  unfolding settle_fill
  finish_fill s qty filled broker =
      if ltb filled qty
      then elim broker.check_order_status [
        | raised ↦ unsold s untouched (some qty) false gateway_failed
        | answered final ↦ settle_fill s qty (final_quantity filled final)
      ]
      else settle_fill s qty filled

  unfoldable pub confirm_sell : ℕ → PositionState F → ℕ → Broker F → Executed F
  unfolding finish_fill fail_exit
  confirm_sell max_exit_failures s qty broker = elim broker.confirm_order [
    | raised ↦ unsold s untouched (some qty) false gateway_failed
    | answered confirmed ↦ elim confirmed [
      | none ↦ fail_exit max_exit_failures s qty sell_not_filled
      | some status ↦
          if leb status.filled_qty 0
          then fail_exit max_exit_failures s qty sell_not_filled
          else finish_fill s qty status.filled_qty broker
    ]
  ]

  unfoldable pub sell_order : ℕ → PositionState F → ℕ → Broker F → Executed F
  unfolding confirm_sell
  sell_order max_exit_failures s qty broker = elim broker.sell [
    | raised ↦ unsold s untouched (some qty) false gateway_failed
    | answered result ↦
        if is_accepted result
        then confirm_sell max_exit_failures s qty broker
        else fail_exit max_exit_failures s qty sell_rejected
  ]

module _ {F : Type 0} ⦃fl : Float F⦄ where
  -- `min(max(1, int(remaining * portion)), remaining)`
  unfoldable pub sell_quantity : ℕ → F → ℕ
  sell_quantity remaining portion =
      min (max 1 (fl.floor (fl.mul (fl.of_ℕ remaining) portion))) remaining

  unfoldable pub dry_sale : PositionState F → F → Executed F
  unfolding sell_quantity
  dry_sale s portion =
      let qty = sell_quantity s.quantity portion in
      record {
        state = s;
        tracker = untouched;
        ordered = none;
        success = true;
        result = dry_sold;
        closed_qty = qty;
        fully_closed = leb s.quantity qty;
      }

  unfoldable pub raise_stop : PositionState F → Option F → Executed F
  raise_stop s none = unsold s untouched none true stop_raised
  raise_stop s (some price) =
      unsold (record s { breakeven_sl_price = some price }) persists none true stop_raised

  unfoldable pub execute :
      ℕ → Option SystemSnapshot → PositionState F → ExitDecision F → Broker F → Executed F
  unfolding sell_order raise_stop dry_sale
  execute max_exit_failures system s d broker =
      let sell = sell_order max_exit_failures s (sell_quantity s.quantity d.portion) broker in
      if d.should_close
      then elim system [
        | none ↦ sell
        | some snap ↦
            if snap.stopped
            then unsold s untouched none false blocked_stop
            else if snap.dryrun
            then dry_sale s d.portion
            else sell
      ]
      else raise_stop s d.new_sl_price
