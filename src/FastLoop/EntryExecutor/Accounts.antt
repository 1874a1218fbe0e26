-- ===== src/FastLoop/EntryExecutor/Accounts.antt =====
-- What one entry does, on every branch, and the position that it leaves to the exits.
use prime_jennie_runtime.Prelude.{
  ℕ, ◌≤◌, ◌≡◌, ◌≢◌, ◌⊎◌, inl, inr, refl, sym, subst, Bool, true, false, Option, none, some, List,
  All, arith, Option-cases, Bool-cases,
}
use prime_jennie_runtime.Prelude.Float.{Float}
use prime_jennie_runtime.Prelude.Time.{Datetime}
use prime_jennie_runtime.PositionSheet.{PositionSheet, ExitRule}
use prime_jennie_runtime.PositionSheet.Validation.{validate_all}
use prime_jennie_runtime.PositionSheet.Validation.Contents.{IsHit, first_pct}
use prime_jennie_runtime.FastLoop.Domain.{PositionState, TickData}
use prime_jennie_runtime.FastLoop.ExitEvaluator.StopLoss.{stop_price, RaisesOver}
use prime_jennie_runtime.FastLoop.ExitExecutor.{SystemSnapshot, Broker}
use prime_jennie_runtime.FastLoop.ExitExecutor.Outcome.{is_allowed}
use prime_jennie_runtime.FastLoop.TickLoop.{evaluate_exit_of}
use prime_jennie_runtime.FastLoop.TickLoop.Stops.{stop_sends_order}
use prime_jennie_runtime.KisGateway.Schemas.{Answer, OrderStatus}
use prime_jennie_runtime.FastLoop.EntryExecutor.{
  OrderRequest, EntryBroker, Entered, filled, final_status, build_order_request, register_fill,
  settle_entry, confirm_entry, submit_entry, execute,
}

module _ {F : Type 0} where
  -- A registered position is the fill of a success, of at least one share and not yet protected;
  -- nothing is registered of any other outcome.
  abbrev pub FillOf : PositionSheet F → Entered F → Option (PositionState F) → Type 0
  FillOf sheet r none = r.result ≢ filled
  FillOf sheet r (some s) =
      (r.result ≡ filled)
      × (r.success ≡ true)
      × (s.sheet_id ≡ sheet.sheet_id)
      × (s.ticker ≡ sheet.ticker)
      × (s.quantity ≡ r.filled_qty)
      × (1 ≤ r.filled_qty)
      × (s.high_watermark ≡ s.entry_price)
      × (s.breakeven_sl_price ≡ none)

  -- The account of an order that was sent.
  abbrev Accounts : EntryBroker F → PositionSheet F → OrderRequest → Entered F → Type 0
  Accounts broker sheet order r =
      (r.ordered ≡ some order)
      × FillOf sheet r r.registered
      × ((r.result ≢ filled)
          ⊎ (order.quantity ≤ r.filled_qty)
          ⊎ (r.cancelled ≡ some broker.cancel_order))

module _ {F : Type 0} ⦃fl : Float F⦄ (sheet : PositionSheet F) (now : Datetime)
    (order : OrderRequest) (broker : EntryBroker F) where
  register-Accounts :
      (cancelled : Option (Answer Bool)) (status : OrderStatus F)
      → 1 ≤ status.filled_qty
      → (order.quantity ≤ status.filled_qty) ⊎ (cancelled ≡ some broker.cancel_order)
      → Accounts broker sheet order (register_fill sheet now order cancelled status)
  unfolding register_fill
  register-Accounts cancelled status one why = ground arith

  final_filled :
      (status : OrderStatus F) (final : Option (OrderStatus F))
      → 1 ≤ status.filled_qty
      → 1 ≤ (final_status status final).filled_qty
  final_filled status final one = ground arith

  settle-Accounts :
      (status : OrderStatus F)
      → 1 ≤ status.filled_qty
      → Accounts broker sheet order (settle_entry sheet now order broker status)
  unfolding settle_entry
  settle-Accounts status one = ground (
    arith,
    register-Accounts none status one,
    λ (final : Option (OrderStatus F)).
        register-Accounts (some broker.cancel_order) (final_status status final)
          (final_filled status final one) (inr refl),
  )

  submit-Accounts : Accounts broker sheet order (submit_entry sheet now order broker)
  unfolding submit_entry confirm_entry
  submit-Accounts = ground (
    arith,
    λ (status : OrderStatus F). λ (one : 1 ≤ status.filled_qty). settle-Accounts status one,
  )

module _ {F : Type 0} ⦃fl : Float F⦄ where
  order_lem :
      (sheet : PositionSheet F) (quantity : ℕ) (order : OrderRequest)
      → build_order_request sheet quantity ≡ some order
      → (order.quantity ≡ quantity) × (order.stock_code ≡ sheet.ticker) × (1 ≤ quantity)
  unfolding build_order_request
  order_lem sheet quantity order h = ground arith

  -- One entry, on every branch. An order leaves only outside a dry run, for the ticker of the sheet
  -- and exactly the quantity asked for, which is at least one. A position is registered exactly for
  -- an outcome `filled`: it has the quantity of the outcome, at least one share. A fill of less than
  -- the order is registered only after a cancellation was sent to the gateway, whatever that answered.
  pub entry_accounts :
      (dryrun_on : Bool) (sheet : PositionSheet F) (quantity : ℕ) (now : Datetime)
      (broker : EntryBroker F)
      → let r = execute dryrun_on sheet quantity now broker in
        ((r.ordered ≡ none)
          ⊎ ((order : OrderRequest) × (r.ordered ≡ some order)
              × (order.quantity ≡ quantity)
              × (order.stock_code ≡ sheet.ticker)
              × (1 ≤ quantity)
              × (dryrun_on ≡ false)))
        × FillOf sheet r r.registered
        × ((r.result ≢ filled)
            ⊎ (quantity ≤ r.filled_qty)
            ⊎ (r.cancelled ≡ some broker.cancel_order))
  unfolding execute
  entry_accounts dryrun_on sheet quantity now broker =
      elim (Option-cases (build_order_request sheet quantity)) [
        | inl invalid ↦ rw (invalid, execute) (inl refl, (λ e. absurd (cc)), inl (λ e. absurd (cc)))
        | inr (order, valid) ↦
            let (same, code, one) = order_lem sheet quantity order valid in
            elim (Bool-cases dryrun_on) [
              | inl dry ↦
                  rw (valid, dry, execute) (inl refl, (λ e. absurd (cc)), inl (λ e. absurd (cc)))
              | inr real ↦
                  let (sent, fill, rest) = submit-Accounts sheet now order broker in
                  rw (valid, real, execute)
                    (inr (order, sent, same, code, one, refl), fill, rw (sym same) rest)
            ]
      ]

  -- The price is at or below the stop of a position bought at `entry_price`, which no breakeven rule
  -- of the sheet would raise to a price below it.
  abbrev pub IsBelowStop : Option F → List (ExitRule F) → F → F → Type 0
  IsBelowStop none rules entry_price price = Unit {0}
  IsBelowStop (some pct) rules entry_price price =
      (fl.le price (stop_price entry_price pct) ≡ true)
      × All (RaisesOver (stop_price entry_price pct) entry_price) rules

  fresh-IsHit :
      (pct : Option F) (rules : List (ExitRule F)) (s : PositionState F) (tick : TickData F)
      → s.breakeven_sl_price ≡ none
      → IsBelowStop pct rules s.entry_price tick.price
      → IsHit pct rules s tick
  fresh-IsHit none rules s tick fresh h = tt
  fresh-IsHit (some pct) rules s tick fresh (hit, over) = (hit, rw fresh tt, over)

  -- From the entry to the exit: the position that an entry of a valid sheet registers sends a sell
  -- order, of at least one share and at most the filled quantity, where the next tick is at or below
  -- its stop, the control state lets orders through and no breakeven rule of the sheet raises the
  -- stop to a price below that.
  pub entered_then_stopped :
      (sheet : PositionSheet F) (quantity : ℕ) (now : Datetime) (entry_broker : EntryBroker F)
      (s : PositionState F) (is_well_formed : ℕ → Bool) (limit : ℕ) (system : Option SystemSnapshot)
      (tick : TickData F) (closes : Option (List F)) (days : ℕ) (broker : Broker F)
      → (execute false sheet quantity now entry_broker).registered ≡ some s
      → validate_all is_well_formed sheet ≡ none
      → IsBelowStop (first_pct sheet.rules) sheet.rules s.entry_price tick.price
      → is_allowed system ≡ true
      → (qty : ℕ) × ((evaluate_exit_of limit system sheet tick closes days broker s).ordered
          ≡ some qty)
        × (1 ≤ qty)
        × (qty ≤ (execute false sheet quantity now entry_broker).filled_qty)
  entered_then_stopped sheet quantity now entry_broker s is_well_formed limit system tick closes
        days broker registered valid below allowed =
      let r = execute false sheet quantity now entry_broker in
      let (sent, fill, rest) = entry_accounts false sheet quantity now entry_broker in
      let filled : FillOf sheet r (some s) = subst (λ x. FillOf sheet r x) registered fill in
      let (qty, ordered, least, most) =
        stop_sends_order is_well_formed limit system sheet s tick closes days broker valid
          (fresh-IsHit (first_pct sheet.rules) sheet.rules s tick filled.7 below) allowed
          (omega (arith, filled.4, filled.5)) in
      (qty, ordered, least, omega (arith, most, filled.4))
