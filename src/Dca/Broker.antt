-- ===== src/Dca/Broker.antt =====
-- What the broker's gateway answers, and the confirmation of an order
-- (prime_jennie_runtime/user_directed_dca/executor.py, `_confirm_terminal`).
use prime_jennie_runtime.Prelude.{ℕ, Option, none, some, ltb, leb, if◌then◌else◌}
use prime_jennie_runtime.KisGateway.Schemas.{Answer, raised, answered, OrderStatus, OrderResult}

-- What the gateway answers while one slice is executed. `check` is the status after a cancellation.
pub record Broker (F : Type 0) : Type 0 where
  pub get_cash : Answer ℕ
  pub get_snapshot : Answer ℕ
  pub buy : Answer OrderResult
  pub confirm_order : Answer (Option (OrderStatus F))
  pub check_order_status : Answer (Option (OrderStatus F))

module _ {F : Type 0} where
  abbrev pub filled_or_none : Option (OrderStatus F) → Option (OrderStatus F)
  filled_or_none none = none
  filled_or_none (some final) = if leb final.filled_qty 0 then none else some final

  abbrev pub no_worse : OrderStatus F → Option (OrderStatus F) → Option (OrderStatus F)
  no_worse status none = some status
  no_worse status (some final) =
      if leb status.filled_qty final.filled_qty then some final else some status

  abbrev pub map_answer :
      (Option (OrderStatus F) → Option (OrderStatus F))
      → Answer (Option (OrderStatus F))
      → Answer (Option (OrderStatus F))
  map_answer f raised = raised
  map_answer f (answered x) = answered (f x)

  -- A cancellation that fails is passed over.
  unfoldable pub confirm_terminal : Broker F → ℕ → Answer (Option (OrderStatus F))
  confirm_terminal broker qty = elim broker.confirm_order [
    | raised ↦ raised
    | answered confirmed ↦ elim confirmed [
      | none ↦ map_answer filled_or_none broker.check_order_status
      | some status ↦
          if leb status.filled_qty 0
          then map_answer filled_or_none broker.check_order_status
          else if ltb status.filled_qty qty
          then map_answer (no_worse status) broker.check_order_status
          else answered (some status)
    ]
  ]
