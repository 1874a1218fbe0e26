-- ===== src/KisGateway/CircuitBreaker.antt =====
-- The asynchronous circuit breaker (prime_jennie_runtime/kis_gateway/circuit_breaker.py). `call` is
-- two critical sections with the guarded call between them, so concurrent calls interleave as `begin`
-- and `end` events. The clock is a number of seconds, fractions dropped.
pub mod Invariant
use prime_jennie_runtime.Prelude.{
  ℕ, suc, ◌+◌, Bool, true, false, ◌&&◌, List, [], ◌∷◌, ltb, leb, if◌then◌else◌,
}

pub data State : Type 0 where
  closed opened half_open : State

pub record Breaker : Type 0 where
  pub fail_max : ℕ
  pub reset_sec : ℕ
  pub state : State
  pub fail_count : ℕ
  pub opened_at : ℕ

-- `__init__`, which refuses a `fail_max` that is not positive.
unfoldable pub new_breaker : ℕ → ℕ → Breaker
new_breaker fail_max reset_sec = record {
  fail_max = fail_max;
  reset_sec = reset_sec;
  state = closed;
  fail_count = 0;
  opened_at = 0;
}

abbrev pub is_open : State → Bool
is_open opened = true
is_open _ = false

abbrev pub is_half_open : State → Bool
is_half_open half_open = true
is_half_open _ = false

abbrev pub is_closed : State → Bool
is_closed closed = true
is_closed _ = false

-- `self._clock() - self._opened_at >= self._reset_sec`
unfoldable pub maybe_transition_to_half_open : ℕ → Breaker → Breaker
maybe_transition_to_half_open now b =
    if is_open b.state && leb (b.opened_at + b.reset_sec) now
    then record b { state = half_open }
    else b

-- The first critical section of `call`: whether the call goes through.
unfoldable pub begin : ℕ → Breaker → Bool × Breaker
unfolding maybe_transition_to_half_open
begin now b =
    let b' = maybe_transition_to_half_open now b in
    if is_open b'.state then (false, b') else (true, b')

unfoldable pub record_success : Breaker → Breaker
record_success b = record b {
  state = if is_half_open b.state then closed else b.state;
  fail_count = 0;
}

unfoldable pub record_failure : ℕ → Breaker → Breaker
record_failure now b =
    if is_half_open b.state
    then record b { state = opened; opened_at = now }
    else let count = suc b.fail_count in
      if leb b.fail_max count && is_closed b.state
      then record b { state = opened; fail_count = count; opened_at = now }
      else record b { fail_count = count }

-- What tasks do to the breaker, in the order in which they take its lock.
pub data Event : Type 0 where
  begins succeeds : Event
  fails : Event

unfoldable pub step : ℕ → Event → Breaker → Breaker
unfolding begin record_success record_failure
step now begins b = (begin now b).1
step now succeeds b = record_success b
step now fails b = record_failure now b

unfoldable pub run : Breaker → List (ℕ × Event) → Breaker
unfolding step
run b [] = b
run b ((now, e) ∷ es) = run (step now e b) es
