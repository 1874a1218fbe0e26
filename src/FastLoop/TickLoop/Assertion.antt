-- ===== src/FastLoop/TickLoop/Assertion.antt =====
-- The assertion in `_check_breakeven` over the life of a position.
use prime_jennie_runtime.Prelude.{
  ℕ, ◌≡◌, inl, false, Option, none, some, List, [], ◌∷◌, arith, Option-cases, inr,
}
use prime_jennie_runtime.Prelude.Float.{Float}
use prime_jennie_runtime.PositionSheet.{PositionSheet}
use prime_jennie_runtime.FastLoop.Domain.{PositionState, TickData, ExitDecision}
use prime_jennie_runtime.FastLoop.ExitEvaluator.{evaluate, evaluate_raises}
use prime_jennie_runtime.FastLoop.ExitEvaluator.Protected.{
  IsProtected, evaluate-IsProtected, evaluate_silent,
}
use prime_jennie_runtime.FastLoop.ExitExecutor.{
  SystemSnapshot, Broker, execute, sell_order, confirm_sell, finish_fill, settle_fill, fail_exit,
  record_exit_failure, raise_stop, dry_sale,
}

-- One tick of the position: what the evaluation and the execution of its decision are given.
pub record Turn (F : Type 0) : Type 0 where
  pub sheet : PositionSheet F
  pub tick : TickData F
  pub daily_closes : Option (List F)
  pub days : ℕ
  pub system : Option SystemSnapshot
  pub broker : Broker F

module _ {F : Type 0} where
  sell_order-IsProtected :
      ⦃fl : Float F⦄
      → (limit : ℕ) (s : PositionState F) (qty : ℕ) (broker : Broker F) → IsProtected s
      → IsProtected (sell_order limit s qty broker).state
  unfolding sell_order confirm_sell finish_fill settle_fill fail_exit record_exit_failure
  sell_order-IsProtected limit s qty broker h = ground arith

module _ {F : Type 0} ⦃fl : Float F⦄ where
  execute-IsProtected :
      (limit : ℕ) (system : Option SystemSnapshot) (s : PositionState F) (d : ExitDecision F)
      (broker : Broker F)
      → IsProtected s
      → IsProtected (execute limit system s d broker).state
  unfolding execute raise_stop dry_sale
  execute-IsProtected limit system s d broker h =
      ground (arith, λ (q : ℕ). sell_order-IsProtected limit s q broker h)

  unfoldable pub turn : ℕ → Turn F → PositionState F → PositionState F
  turn limit m s =
      let (decision, s') = evaluate m.sheet s m.tick none m.daily_closes m.days in
      elim decision [ none ↦ s' | some d ↦ (execute limit m.system s' d m.broker).state ]

  unfoldable pub live : ℕ → List (Turn F) → PositionState F → PositionState F
  live limit [] s = s
  live limit (m ∷ ms) s = live limit ms (turn limit m s)

  turn-IsProtected :
      (limit : ℕ) (m : Turn F) (s : PositionState F) → IsProtected s → IsProtected (turn limit m s)
  unfolding turn
  turn-IsProtected limit m s h =
      let r = evaluate m.sheet s m.tick none m.daily_closes m.days in
      let kept = evaluate-IsProtected m.sheet s m.tick none m.daily_closes m.days h in
      elim (Option-cases r.0) [
        | inl nothing ↦ rw (nothing, turn) kept
        | inr (d, decided) ↦
            rw (decided, turn) (execute-IsProtected limit m.system r.1 d m.broker kept)
      ]

  live-IsProtected :
      (limit : ℕ) (ms : List (Turn F)) (s : PositionState F)
      → IsProtected s
      → IsProtected (live limit ms s)
  unfolding live
  live-IsProtected limit [] s h = h
  live-IsProtected limit (m ∷ ms) s h =
      live-IsProtected limit ms (turn limit m s) (turn-IsProtected limit m s h)

  -- The assertion in `_check_breakeven` never fails: from a position whose breakeven flag is not set,
  -- as an entry registers it, no evaluation on any tick raises, whatever ticks, sheets and executions
  -- of decisions came before it.
  pub assertion_holds :
      (limit : ℕ) (ms : List (Turn F)) (s : PositionState F) (m : Turn F)
      → s.breakeven_active ≡ false
      → evaluate_raises m.sheet (live limit ms s) m.tick none m.daily_closes m.days ≡ false
  assertion_holds limit ms s m fresh =
      evaluate_silent m.sheet (live limit ms s) m.tick none m.daily_closes m.days
        (live-IsProtected limit ms s (inl fresh))
