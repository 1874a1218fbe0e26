-- ===== src/FastLoop/ExitExecutor/Outcome.antt =====
-- What one execution does, on every branch.
use prime_jennie_runtime.Prelude.{
  ℕ, ◌+◌, ◌≤◌, ◌<◌, ◌≡◌, ◌≢◌, ◌⊎◌, Bool, true, not, ◌&&◌, Option, none, some, arith,
}
use prime_jennie_runtime.Prelude.Float.{Float}
use prime_jennie_runtime.FastLoop.Domain.{PositionState, ExitDecision}
use prime_jennie_runtime.KisGateway.Schemas.{Answer, raised, answered, OrderStatus}
use prime_jennie_runtime.FastLoop.ExitExecutor.{
  SystemSnapshot, Broker, Executed, Result, closes, execute, sell_order, sell_quantity,
  confirm_sell, finish_fill, settle_fill, fail_exit, raise_stop, dry_sale,
}

-- The control state lets orders through.
abbrev pub is_allowed : Option SystemSnapshot → Bool
is_allowed none = true
is_allowed (some snap) = not snap.stopped && not snap.dryrun

module _ {F : Type 0} where
  -- Every status that is reported has at most that quantity filled.
  abbrev pub FilledAtMost : ℕ → Answer (Option (OrderStatus F)) → Type 0
  FilledAtMost limit raised = Unit {0}
  FilledAtMost limit (answered none) = Unit {0}
  FilledAtMost limit (answered (some status)) = status.filled_qty ≤ limit

  -- The quantity that left the position.
  abbrev pub sold_quantity : Executed F → ℕ
  sold_quantity r = elim r.ordered [ none ↦ 0 | some _ ↦ r.closed_qty ]

  -- The account of a sale of `qty`.
  abbrev Accounts : ℕ → PositionState F → ℕ → Executed F → Type 0
  Accounts limit s qty r =
      (r.ordered ≡ some qty)
      × (r.state.quantity + r.closed_qty ≡ s.quantity)
      × ((r.tracker ≢ closes) ⊎ (r.state.quantity ≡ 0) ⊎ (limit ≤ r.state.exit_fail_count))

  fail-Accounts :
      (limit qty : ℕ) (s : PositionState F) (result : Result)
      → Accounts limit s qty (fail_exit limit s qty result)
  unfolding fail_exit
  fail-Accounts limit qty s result = ground arith

  settle-Accounts :
      (limit qty filled : ℕ) (s : PositionState F)
      → filled ≤ s.quantity
      → Accounts limit s qty (settle_fill s qty filled)
  unfolding settle_fill
  settle-Accounts limit qty filled s h = ground arith

  finish-Accounts :
      (limit qty filled : ℕ) (s : PositionState F) (broker : Broker F)
      → filled ≤ s.quantity
      → FilledAtMost s.quantity broker.check_order_status
      → Accounts limit s qty (finish_fill s qty filled broker)
  unfolding finish_fill
  finish-Accounts limit qty filled s broker h k =
      ground (arith, settle-Accounts limit qty filled s h, λ (n : ℕ). settle-Accounts limit qty n s)

  sell-Accounts :
      (limit qty : ℕ) (s : PositionState F) (broker : Broker F)
      → FilledAtMost s.quantity broker.confirm_order
      → FilledAtMost s.quantity broker.check_order_status
      → Accounts limit s qty (sell_order limit s qty broker)
  unfolding sell_order confirm_sell
  sell-Accounts limit qty s broker h k = ground (
    arith,
    λ (result : Result). fail-Accounts limit qty s result,
    λ (n : ℕ). λ (l : n ≤ s.quantity). finish-Accounts limit qty n s broker l k,
  )

module _ {F : Type 0} ⦃fl : Float F⦄ where
  pub sell_quantity_bounds :
      (remaining : ℕ) (portion : F)
      → (sell_quantity remaining portion ≤ remaining)
        × ((remaining ≡ 0) ⊎ (1 ≤ sell_quantity remaining portion))
  unfolding sell_quantity
  sell_quantity_bounds remaining portion = omega arith

  -- One execution, on every branch. An order leaves only for a closing decision that the control
  -- state lets through, and it is for at least one share and at most the position. The position
  -- gets smaller by what was sold, so a decision that only raises the stop, a blocked and a
  -- simulated one leave the quantity alone. The sheet is closed only where nothing is left or the
  -- failures have reached their limit. The conditions: the position has a share, and the gateway
  -- reports no more filled than it holds.
  pub execute_accounts :
      (limit : ℕ) (system : Option SystemSnapshot) (s : PositionState F) (d : ExitDecision F)
      (broker : Broker F)
      → 0 < s.quantity
      → FilledAtMost s.quantity broker.confirm_order
      → FilledAtMost s.quantity broker.check_order_status
      → let r = execute limit system s d broker in
        ((r.ordered ≡ none)
          ⊎ ((qty : ℕ) × (r.ordered ≡ some qty)
              × (1 ≤ qty)
              × (qty ≤ s.quantity)
              × (d.should_close ≡ true)
              × (is_allowed system ≡ true)))
        × (r.state.quantity + sold_quantity r ≡ s.quantity)
        × ((r.tracker ≢ closes) ⊎ (r.state.quantity ≡ 0) ⊎ (limit ≤ r.state.exit_fail_count))
  unfolding execute raise_stop dry_sale
  execute_accounts limit system s d broker held h k = ground (
    arith,
    sell_quantity_bounds s.quantity d.portion,
    sell-Accounts limit (sell_quantity s.quantity d.portion) s broker h k,
  )
