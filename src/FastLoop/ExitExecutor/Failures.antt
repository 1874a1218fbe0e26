-- ===== src/FastLoop/ExitExecutor/Failures.antt =====
-- How often a sale that fails is tried.
use prime_jennie_runtime.Prelude.{
  ℕ, suc, ◌+◌, ◌-◌, ◌≤◌, ◌<◌, ◌≡◌, ◌⊎◌, Bool, true, false, not, Option, none, some, List, [], ◌∷◌,
  arith, All, leb, if◌then◌else◌,
}
use prime_jennie_runtime.Prelude.Float.{Float}
use prime_jennie_runtime.FastLoop.Domain.{PositionState, ExitDecision}
use prime_jennie_runtime.KisGateway.Schemas.{Answer, raised, answered, OrderStatus, OrderResult}
use prime_jennie_runtime.FastLoop.ExitExecutor.{
  SystemSnapshot, Broker, Executed, TrackerCall, closes, execute, sell_order, sell_quantity,
  confirm_sell, fail_exit, raise_stop, dry_sale, is_accepted,
}

abbrev pub is_closed : TrackerCall → Bool
is_closed closes = true
is_closed _ = false

abbrev pub sent : Option ℕ → ℕ
sent none = 0
sent (some qty) = 1

abbrev pub rejects : Answer OrderResult → Bool
rejects raised = false
rejects (answered result) = not (is_accepted result)

abbrev pub accepts : Answer OrderResult → Bool
accepts raised = false
accepts (answered result) = is_accepted result

module _ {F : Type 0} where
  abbrev pub fills_nothing : Answer (Option (OrderStatus F)) → Bool
  fills_nothing raised = false
  fills_nothing (answered none) = true
  fills_nothing (answered (some status)) = leb status.filled_qty 0

  -- The gateway rejects the order, or accepts it and fills nothing.
  abbrev pub Refuses : Broker F → Type 0
  Refuses broker =
      (rejects broker.sell ≡ true)
      ⊎ ((accepts broker.sell ≡ true) × (fills_nothing broker.confirm_order ≡ true))

  -- A failed sale: counted, and the sheet is closed when the count has reached the limit.
  abbrev Counts : ℕ → PositionState F → Executed F → Type 0
  Counts limit s r =
      ((sent r.ordered ≡ 0) × (r.state.exit_fail_count ≡ s.exit_fail_count))
      ⊎ ((sent r.ordered ≡ 1)
          × (r.state.exit_fail_count ≡ suc s.exit_fail_count)
          × (is_closed r.tracker ≡ leb limit (suc s.exit_fail_count)))

  sell-Counts :
      (limit qty : ℕ) (s : PositionState F) (broker : Broker F)
      → Refuses broker
      → Counts limit s (sell_order limit s qty broker)
  unfolding sell_order confirm_sell fail_exit
  sell-Counts limit qty s broker h = ground arith

-- One exit decision with the state of the control and of the gateway.
pub record Attempt (F : Type 0) : Type 0 where
  pub system : Option SystemSnapshot
  pub decision : ExitDecision F
  pub broker : Broker F

module _ {F : Type 0} ⦃fl : Float F⦄ where
  execute-Counts :
      (limit : ℕ) (s : PositionState F) (a : Attempt F)
      → Refuses a.broker
      → Counts limit s (execute limit a.system s a.decision a.broker)
  unfolding execute raise_stop dry_sale
  execute-Counts limit s a h =
      ground (arith, sell-Counts limit (sell_quantity s.quantity a.decision.portion) s a.broker h)

  -- The orders that a series of decisions sends, until the sheet is closed.
  pub orders_sent : ℕ → PositionState F → List (Attempt F) → ℕ
  orders_sent limit s [] = 0
  orders_sent limit s (a ∷ attempts) =
      let r = execute limit a.system s a.decision a.broker in
      let rest = orders_sent limit r.state attempts in
      sent r.ordered + (if is_closed r.tracker then 0 else rest)

  -- A position whose sales keep failing is given up: while the gateway rejects every order or fills
  -- nothing, a series of decisions, however long, sends at most as many orders as the failure count
  -- lacks to its limit. The count begins below the limit.
  pub failed_sales_are_bounded :
      (limit : ℕ) (s : PositionState F) (attempts : List (Attempt F))
      → s.exit_fail_count < limit
      → All (λ a. Refuses a.broker) attempts
      → orders_sent limit s attempts ≤ limit - s.exit_fail_count
  unfolding orders_sent
  failed_sales_are_bounded limit s [] below h = omega arith
  failed_sales_are_bounded limit s (a ∷ attempts) below (refuses, h) =
      let r = execute limit a.system s a.decision a.broker in
      ground (
        arith,
        execute-Counts limit s a refuses,
        λ (l : r.state.exit_fail_count < limit).
            failed_sales_are_bounded limit r.state attempts l h,
      )
