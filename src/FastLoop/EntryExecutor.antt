-- ===== src/FastLoop/EntryExecutor.antt =====
-- The execution of the entry of a sheet (prime_jennie_runtime/fast_loop/entry_executor.py). What the
-- gateway answers is an argument; a failed cancellation is passed over, and any other exception of the
-- gateway leaves `execute` at once. Left out: notifications, events and the rows of the recorder.
pub mod Ticks
pub mod Accounts
use prime_jennie_runtime.Prelude.{
  ℕ, ◌*◌, ◌/◌, Bool, true, false, ◌&&◌, Option, none, some, [], ltb, leb, ◌==◌, if◌then◌else◌,
}
use prime_jennie_runtime.Prelude.Float.{Float}
use prime_jennie_runtime.Prelude.Time.{Datetime}
use prime_jennie_runtime.PositionSheet.{PositionSheet, EntryTrigger, limit, market}
use prime_jennie_runtime.FastLoop.Domain.{PositionState}
use prime_jennie_runtime.FastLoop.ExitExecutor.{is_accepted}
use prime_jennie_runtime.KisGateway.Schemas.{Answer, raised, answered, OrderStatus, OrderResult}

pub record OrderRequest : Type 0 where
  pub stock_code : ℕ
  pub quantity : ℕ
  pub order_type : EntryTrigger
  pub price : Option ℕ

pub record EntryBroker (F : Type 0) : Type 0 where
  pub buy : Answer OrderResult
  pub confirm_order : Answer (Option (OrderStatus F))
  pub check_order_status : Answer (Option (OrderStatus F))
  pub cancel_order : Answer Bool

-- `reason` of an outcome; `filled` is the empty one of a success, `gateway_failed` an exception.
pub data Result : Type 0 where
  invalid_order_request dryrun buy_rejected not_filled filled gateway_failed : Result

-- The fields of `EntryOutcome`, with the request that went to the gateway, what the gateway
-- answered to a cancellation where one was sent, and the state that was registered with the tracker.
pub record Entered (F : Type 0) : Type 0 where
  pub success : Bool
  pub result : Result
  pub filled_qty : ℕ
  pub ordered : Option OrderRequest
  pub cancelled : Option (Answer Bool)
  pub registered : Option (PositionState F)

-- `_align_tick_size`
unfoldable pub align_tick_size : ℕ → ℕ
align_tick_size price =
    if ltb price 2000
    then price
    else if ltb price 5000
    then price / 5 * 5
    else if ltb price 20000
    then price / 10 * 10
    else if ltb price 50000
    then price / 50 * 50
    else if ltb price 200000
    then price / 100 * 100
    else if ltb price 500000
    then price / 500 * 500
    else price / 1000 * 1000

module _ {F : Type 0} where
  -- An entry that registers nothing.
  abbrev pub unentered : Bool → Result → ℕ → Option OrderRequest → Option (Answer Bool) → Entered F
  unentered success result filled_qty ordered cancelled = record {
    success = success;
    result = result;
    filled_qty = filled_qty;
    ordered = ordered;
    cancelled = cancelled;
    registered = none;
  }

  -- The state that a fill is tracked by.
  abbrev pub new_position : PositionSheet F → Datetime → OrderStatus F → F → PositionState F
  new_position sheet now status zero = record {
    sheet_id = sheet.sheet_id;
    ticker = sheet.ticker;
    entry_price = status.avg_price;
    quantity = status.filled_qty;
    entered_at = now;
    high_watermark = status.avg_price;
    peak_return_pct = zero;
    trailing_active = false;
    profit_floor_active = false;
    breakeven_active = false;
    breakeven_sl_price = none;
    scale_out_executed = [];
    death_cross_checked_at = none;
    overextension_triggered = false;
    exit_fail_count = 0;
  }

  -- The last status: the later one where it has a fill.
  abbrev pub final_status : OrderStatus F → Option (OrderStatus F) → OrderStatus F
  final_status status none = status
  final_status status (some final) = if leb final.filled_qty 0 then status else final

module _ {F : Type 0} ⦃fl : Float F⦄ where
  unfoldable pub build_order_request : PositionSheet F → ℕ → Option OrderRequest
  unfolding align_tick_size
  build_order_request sheet quantity =
      let request : EntryTrigger → Option ℕ → OrderRequest = λ order_type price. record {
        stock_code = sheet.ticker;
        quantity = quantity;
        order_type = order_type;
        price = price;
      } in
      if leb quantity 0 then none else elim sheet.entry.trigger [
        | market ↦ some (request market none)
        | limit ↦ elim sheet.entry.price [
          | none ↦ none
          | some price ↦
              if fl.le price (fl.of_ℕ 0)
              then none
              else some (request limit (some (align_tick_size (fl.floor price))))
        ]
      ]

  unfoldable pub register_fill :
      PositionSheet F → Datetime → OrderRequest → Option (Answer Bool) → OrderStatus F → Entered F
  register_fill sheet now order cancelled status = record {
    success = true;
    result = filled;
    filled_qty = status.filled_qty;
    ordered = some order;
    cancelled = cancelled;
    registered = some (new_position sheet now status (fl.of_ℕ 0));
  }

  -- A partial fill is cancelled and asked for once more.
  unfoldable pub settle_entry :
      PositionSheet F → Datetime → OrderRequest → EntryBroker F → OrderStatus F → Entered F
  unfolding register_fill
  settle_entry sheet now order broker status =
      if ltb status.filled_qty order.quantity
      then elim broker.check_order_status [
        | raised ↦ unentered false gateway_failed 0 (some order) (some broker.cancel_order)
        | answered final ↦
            register_fill sheet now order (some broker.cancel_order) (final_status status final)
      ]
      else register_fill sheet now order none status

  unfoldable pub confirm_entry :
      PositionSheet F → Datetime → OrderRequest → EntryBroker F → Entered F
  unfolding settle_entry
  confirm_entry sheet now order broker = elim broker.confirm_order [
    | raised ↦ unentered false gateway_failed 0 (some order) none
    | answered confirmed ↦ elim confirmed [
      | none ↦ unentered false not_filled 0 (some order) (some broker.cancel_order)
      | some status ↦
          if leb status.filled_qty 0
          then unentered false not_filled 0 (some order) (some broker.cancel_order)
          else settle_entry sheet now order broker status
    ]
  ]

  unfoldable pub submit_entry :
      PositionSheet F → Datetime → OrderRequest → EntryBroker F → Entered F
  unfolding confirm_entry
  submit_entry sheet now order broker = elim broker.buy [
    | raised ↦ unentered false gateway_failed 0 (some order) none
    | answered result ↦
        if is_accepted result
        then confirm_entry sheet now order broker
        else unentered false buy_rejected 0 (some order) none
  ]

  -- `dryrun` is that of the control state, `false` where there is none.
  unfoldable pub execute : Bool → PositionSheet F → ℕ → Datetime → EntryBroker F → Entered F
  unfolding build_order_request submit_entry
  execute dryrun_on sheet quantity now broker = elim (build_order_request sheet quantity) [
    | none ↦ unentered false invalid_order_request 0 none none
    | some order ↦
        if dryrun_on
        then unentered true dryrun quantity none none
        else submit_entry sheet now order broker
  ]
