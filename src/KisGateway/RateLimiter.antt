-- ===== src/KisGateway/RateLimiter.antt =====
-- The token bucket (prime_jennie_runtime/kis_gateway/rate_limiter.py). The source's floats are exact
-- here: time is in microseconds, and a token is `window` units, so that a microsecond refills `rate`
-- units; rounding and the sleep of `acquire` are left out. `acquire` is the loop's body with the
-- clock's reading: it takes a token, or asks to sleep.
pub mod Bound
use prime_jennie_runtime.Prelude.{
  ℕ, ◌+◌, ◌-◌, ◌*◌, Bool, true, false, List, [], ◌∷◌, ltb, leb, if◌then◌else◌,
}
use Prim.Native.Nat.{min}

pub record Limiter : Type 0 where
  pub rate : ℕ
  pub window : ℕ
  pub capacity : ℕ
  pub tokens : ℕ
  pub last_refill : ℕ

-- `__init__`; the checks that the three numbers are positive are the caller's here.
unfoldable pub new_limiter : ℕ → ℕ → ℕ → ℕ → Limiter
new_limiter rate window capacity now = record {
  rate = rate;
  window = window;
  capacity = capacity;
  tokens = capacity * window;
  last_refill = now;
}

unfoldable pub refill : ℕ → Limiter → Limiter
refill now l =
    if ltb l.last_refill now
    then record l {
      tokens = min (l.capacity * l.window) (l.tokens + (now - l.last_refill) * l.rate);
      last_refill = now;
    }
    else l

-- One turn of the loop in `acquire`: whether a token was taken.
unfoldable pub try_acquire : ℕ → Limiter → Bool × Limiter
unfolding refill
try_acquire now l =
    let l' = refill now l in
    if leb l'.window l'.tokens
    then (true, record l' { tokens = l'.tokens - l'.window })
    else (false, l')

-- Turns of any number of tasks, at the clock readings given: how many tokens were taken.
unfoldable pub run : Limiter → List ℕ → ℕ × Limiter
unfolding try_acquire
run l [] = (0, l)
run l (now ∷ readings) =
    let (taken, l') = try_acquire now l in
    let (count, l'') = run l' readings in (if taken then count + 1 else count, l'')
