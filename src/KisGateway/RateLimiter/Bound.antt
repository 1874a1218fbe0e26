-- ===== src/KisGateway/RateLimiter/Bound.antt =====
-- How many tokens leave the bucket.
use prime_jennie_runtime.Prelude.{
  ℕ, ◌+◌, ◌-◌, ◌*◌, ◌≤◌, ◌≡◌, Bool, true, false, List, [], ◌∷◌, arith, All, if◌then◌else◌,
}
use prime_jennie_runtime.KisGateway.RateLimiter.{Limiter, refill, try_acquire, run}

abbrev pub Within : Limiter → Type 0
Within l = l.tokens ≤ l.capacity * l.window

elapsed : (last now rate : ℕ) → last ≤ now → (now - last) * rate + last * rate ≡ now * rate
elapsed last now rate h = grind arith

-- A refill adds what the time is worth, up to the capacity, and the clock of the bucket never runs
-- back.
refill_worth :
    (now : ℕ) (l : Limiter)
    → Within l
    → let l' = refill now l in
      (l'.tokens + l.last_refill * l.rate ≤ l.tokens + l'.last_refill * l.rate)
      × (l'.tokens ≤ l.capacity * l.window)
      × (l'.rate ≡ l.rate)
      × (l'.window ≡ l.window)
      × (l'.capacity ≡ l.capacity)
      × (l.last_refill ≤ l'.last_refill)
unfolding refill
refill_worth now l v = ground (arith, elapsed l.last_refill now l.rate)

spent : Bool → ℕ → ℕ
spent true window = window
spent false window = 0

mul_mono : (a b r : ℕ) → a ≤ b → a * r ≤ b * r
mul_mono a b r h = grind arith

count_worth : (taken : Bool) (c w : ℕ) → (if taken then c + 1 else c) * w ≡ c * w + spent taken w
unfolding spent
count_worth true c w = grind arith
count_worth false c w = omega arith

module _ (deadline : ℕ) where
  abbrev Ready : Limiter → Type 0
  Ready l = Within l × (l.last_refill ≤ deadline)

  refill_deadline :
      (now : ℕ) (l : Limiter)
      → now ≤ deadline
      → l.last_refill ≤ deadline
      → (refill now l).last_refill ≤ deadline
  unfolding refill
  refill_deadline now l h k = ground arith

  try_worth :
      (now : ℕ) (l : Limiter)
      → Ready l
      → now ≤ deadline
      → let (taken, l') = try_acquire now l in
        (spent taken l.window + l'.tokens + l.last_refill * l.rate
          ≤ l.tokens + l'.last_refill * l.rate)
        × Ready l'
        × (l'.rate ≡ l.rate)
        × (l'.window ≡ l.window)
        × (l'.capacity ≡ l.capacity)
  unfolding try_acquire spent
  try_worth now l (within, k) early =
      ground (arith, refill_worth now l within, refill_deadline now l early k)

  run_worth :
      (l : Limiter) (readings : List ℕ)
      → Ready l
      → All (λ now. now ≤ deadline) readings
      → let (count, l') = run l readings in
        (count * l.window + l'.tokens + l.last_refill * l.rate ≤ l.tokens + l'.last_refill * l.rate)
        × (l'.last_refill ≤ deadline)
  unfolding run
  run_worth l [] ready h = (omega arith, ready.1)
  run_worth l (now ∷ readings) ready (early, h) =
      let (worth, ready', same_rate, same_window, _) = try_worth now l ready early in
      let (rest, in_time) = run_worth (try_acquire now l).1 readings ready' h in
      let rest' = rw (same_rate, same_window) at rest in
      (
        rw (count_worth (try_acquire now l).0 (run (try_acquire now l).1 readings).0 l.window)
            (omega arith),
        in_time,
      )

-- The tokens that any tasks take together up to a deadline, at whatever clock readings: at most the
-- capacity, and what the time since the bucket's last refill is worth at `rate` tokens per window.
-- Counts are multiplied by the window, which is one token.
pub tokens_bounded :
    (l : Limiter) (readings : List ℕ) (deadline : ℕ)
    → l.tokens ≤ l.capacity * l.window
    → l.last_refill ≤ deadline
    → All (λ now. now ≤ deadline) readings
    → (run l readings).0 * l.window ≤ l.capacity * l.window + (deadline - l.last_refill) * l.rate
tokens_bounded l readings deadline within before early =
    let (worth, in_time) = run_worth deadline l readings (within, before) early in
    omega (
      arith,
      elapsed l.last_refill deadline l.rate before,
      mul_mono (run l readings).1.last_refill deadline l.rate in_time,
    )
