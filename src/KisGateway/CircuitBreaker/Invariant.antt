-- ===== src/KisGateway/CircuitBreaker/Invariant.antt =====
-- What holds of the breaker over any interleaving of calls.
use prime_jennie_runtime.Prelude.{
  ℕ, suc, ◌+◌, ◌≤◌, ◌<◌, ◌≡◌, ◌≢◌, ◌⊎◌, ◌∙◌, refl, inl, inr, true, false, List, [], ◌∷◌, arith, All,
}
use prime_jennie_runtime.KisGateway.CircuitBreaker.{
  closed, opened, Breaker, new_breaker, begin, record_success, record_failure, Event, begins,
  succeeds, fails, step, run,
}

-- The failures since the last success, when `n` stood at the beginning: of the calls alone, whatever
-- the breaker does.
unfoldable pub failing_streak : ℕ → List (ℕ × Event) → ℕ
failing_streak n [] = n
failing_streak n ((now, begins) ∷ es) = failing_streak n es
failing_streak n ((now, succeeds) ∷ es) = failing_streak 0 es
failing_streak n ((now, fails) ∷ es) = failing_streak (suc n) es

-- A closed breaker has counted the streak, and the streak is below the limit.
pub record IsSound (n : ℕ) (b : Breaker) : Type 0 where
  pub limit : 0 < b.fail_max
  pub counted : (b.state ≢ closed) ⊎ ((b.fail_count ≡ n) × (n < b.fail_max))

abbrev streak_step : ℕ → Event → ℕ
streak_step n begins = n
streak_step n succeeds = 0
streak_step n fails = suc n

step-IsSound :
    (now : ℕ) (e : Event) (n : ℕ) (b : Breaker)
    → IsSound n b
    → IsSound (streak_step n e) (step now e b)
unfolding step
step-IsSound now begins n b v = ground arith
step-IsSound now succeeds n b v = ground arith
step-IsSound now fails n b v = ground arith

step-fail_max : (now : ℕ) (e : Event) (b : Breaker) → (step now e b).fail_max ≡ b.fail_max
unfolding step
step-fail_max now begins b = ground arith
step-fail_max now succeeds b = ground arith
step-fail_max now fails b = ground arith

run-fail_max : (b : Breaker) (es : List (ℕ × Event)) → (run b es).fail_max ≡ b.fail_max
unfolding run
run-fail_max b [] = refl
run-fail_max b ((now, e) ∷ es) = run-fail_max (step now e b) es ∙ step-fail_max now e b

run-IsSound :
    (n : ℕ) (b : Breaker) (es : List (ℕ × Event))
    → IsSound n b
    → IsSound (failing_streak n es) (run b es)
unfolding run failing_streak
run-IsSound n b [] v = v
run-IsSound n b ((now, begins) ∷ es) v =
    run-IsSound n (step now begins b) es (step-IsSound now begins n b v)
run-IsSound n b ((now, succeeds) ∷ es) v =
    run-IsSound 0 (step now succeeds b) es (step-IsSound now succeeds n b v)
run-IsSound n b ((now, fails) ∷ es) v =
    run-IsSound (suc n) (step now fails b) es (step-IsSound now fails n b v)

-- The breaker opens on a streak of failures: after any interleaving of calls on a new breaker, if
-- `fail_max` or more calls have failed since the last success, the breaker is not closed; and a
-- breaker that is closed counts exactly the failures since the last success.
pub streak_opens :
    (fail_max reset_sec : ℕ) (es : List (ℕ × Event))
    → 0 < fail_max
    → let b = run (new_breaker fail_max reset_sec) es in
      (fail_max ≤ failing_streak 0 es → b.state ≢ closed)
      × (b.state ≡ closed → b.fail_count ≡ failing_streak 0 es)
unfolding new_breaker
streak_opens fail_max reset_sec es h =
    let start = new_breaker fail_max reset_sec in
    let v = run-IsSound 0 start es (record { limit = h; counted = inr (refl, h) }) in
    let same = run-fail_max start es in
    elim v.counted [
      | inl away ↦ (λ k. away, λ c. absurd (away c))
      | inr (count, below) ↦ (λ k c. absurd (omega (arith, k, below, same)), λ c. count)
    ]

step_open :
    (now : ℕ) (e : Event) (b : Breaker)
    → b.state ≡ opened
    → now < b.opened_at + b.reset_sec
    → ((step now e b).state ≡ opened)
      × ((step now e b).opened_at ≡ b.opened_at)
      × ((step now e b).reset_sec ≡ b.reset_sec)
unfolding step
step_open now begins b o h = ground arith
step_open now succeeds b o h = ground arith
step_open now fails b o h = ground arith

-- An open breaker stays open, and turns every call away, until `reset_sec` after it opened, whatever
-- calls that were under way before it opened succeed or fail in between.
pub open_refuses :
    (b : Breaker) (es : List (ℕ × Event)) (now : ℕ)
    → b.state ≡ opened
    → All (λ e. e.0 < b.opened_at + b.reset_sec) es
    → now < b.opened_at + b.reset_sec
    → ((run b es).state ≡ opened) × ((begin now (run b es)).0 ≡ false)
unfolding run begin
open_refuses b [] now o early h = ground arith
open_refuses b ((at, e) ∷ es) now o early h =
    let (o', at', reset') = step_open at e b o early.0 in
    open_refuses (step at e b) es now o' (rw (at', reset') early.1) (rw (at', reset') h)

-- After the reset time one probe decides: a failure opens the breaker again from then on, a success
-- closes it with the count at 0.
pub probe_decides :
    (b : Breaker) (now later : ℕ)
    → b.state ≡ opened
    → b.opened_at + b.reset_sec ≤ now
    → let (through, b') = begin now b in
      (through ≡ true)
      × ((record_failure later b').state ≡ opened)
      × ((record_failure later b').opened_at ≡ later)
      × ((record_success b').state ≡ closed)
      × ((record_success b').fail_count ≡ 0)
unfolding begin record_failure record_success
probe_decides b now later o h = ground arith

abbrev pub failures : List (ℕ × Event) → ℕ
failures [] = 0
failures ((now, fails) ∷ es) = suc (failures es)
failures ((now, begins) ∷ es) = failures es
failures ((now, succeeds) ∷ es) = failures es

count_step :
    (now : ℕ) (e : Event) (es : List (ℕ × Event)) (b : Breaker)
    → b.state ≡ closed
    → b.fail_count + failures ((now, e) ∷ es) < b.fail_max
    → ((step now e b).state ≡ closed)
      × ((step now e b).fail_count + failures es < (step now e b).fail_max)
unfolding step
count_step now begins es b c h = ground arith
count_step now succeeds es b c h = ground arith
count_step now fails es b c h = ground arith

-- A closed breaker opens only after enough failures: while the failures seen and to come stay below
-- `fail_max`, every call goes through.
pub few_failures_stay_closed :
    (b : Breaker) (es : List (ℕ × Event)) (now : ℕ)
    → b.state ≡ closed
    → b.fail_count + failures es < b.fail_max
    → ((run b es).state ≡ closed) × ((begin now (run b es)).0 ≡ true)
unfolding run begin
few_failures_stay_closed b [] now c h = ground arith
few_failures_stay_closed b ((at, e) ∷ es) now c h =
    let (c', h') = count_step at e es b c h in few_failures_stay_closed (step at e b) es now c' h'
