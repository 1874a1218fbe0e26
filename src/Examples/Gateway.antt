-- ===== src/Examples/Gateway.antt =====
-- A breaker of three failures and a bucket of two tokens.
use prime_jennie_runtime.Prelude.{
  ℕ, ◌+◌, ◌-◌, ◌*◌, ◌≤◌, ◌≡◌, ◌≢◌, refl, false, List, [], ◌∷◌, arith,
}
use prime_jennie_runtime.KisGateway.CircuitBreaker.{
  Breaker, opened, closed, new_breaker, begin, Event, begins, succeeds, fails, run,
}
use prime_jennie_runtime.KisGateway.CircuitBreaker.Invariant.{
  failing_streak, streak_opens, open_refuses,
}
use prime_jennie_runtime.KisGateway.RateLimiter
use prime_jennie_runtime.KisGateway.RateLimiter.Bound.{tokens_bounded}

abbrev failing : List (ℕ × Event)
failing = (1, begins) ∷ (2, fails) ∷ (3, begins) ∷ (4, fails) ∷ (5, fails) ∷ []

abbrev tripped : Breaker
tripped = record { fail_max = 3; reset_sec = 60; state = opened; fail_count = 3; opened_at = 10 }

streak_opens_example :
    let b = run (new_breaker 3 60) failing in
    (3 ≤ failing_streak 0 failing → b.state ≢ closed)
    × (b.state ≡ closed → b.fail_count ≡ failing_streak 0 failing)
streak_opens_example = streak_opens 3 60 failing (omega arith)

open_refuses_example :
    ((run tripped ((20, succeeds) ∷ (30, begins) ∷ [])).state ≡ opened)
    × ((begin 69 (run tripped ((20, succeeds) ∷ (30, begins) ∷ []))).0 ≡ false)
open_refuses_example =
    open_refuses tripped ((20, succeeds) ∷ (30, begins) ∷ []) 69 refl
      (omega arith, (omega arith, tt)) (omega arith)

abbrev healthy : Breaker
healthy = record { fail_max = 3; reset_sec = 60; state = closed; fail_count = 0; opened_at = 0 }

-- Two tokens a second, and at most two at once.
abbrev bucket : RateLimiter.Limiter
bucket = record { rate = 2; window = 1000000; capacity = 2; tokens = 2000000; last_refill = 0 }

abbrev readings : List ℕ
readings = 0 ∷ 1 ∷ 2 ∷ 500000 ∷ []

tokens_bounded_example :
    (RateLimiter.run bucket readings).0 * 1000000 ≤ 2 * 1000000 + (500000 - 0) * 2
tokens_bounded_example =
    tokens_bounded bucket readings 500000 (omega arith) (omega arith)
      (omega arith, (omega arith, (omega arith, (omega arith, tt))))
