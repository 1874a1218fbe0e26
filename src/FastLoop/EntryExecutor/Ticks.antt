-- ===== src/FastLoop/EntryExecutor/Ticks.antt =====
-- Prices on the exchange's grid.
use prime_jennie_runtime.Prelude.{ℕ, ◌+◌, ◌%◌, ◌≤◌, ◌<◌, ◌≡◌, arith, ltb, if◌then◌else◌}
use prime_jennie_runtime.FastLoop.EntryExecutor.{align_tick_size}

-- The exchange's tick at a price.
unfoldable pub tick_size : ℕ → ℕ
tick_size price =
    if ltb price 2000
    then 1
    else if ltb price 5000
    then 5
    else if ltb price 20000
    then 10
    else if ltb price 50000
    then 50
    else if ltb price 200000
    then 100
    else if ltb price 500000
    then 500
    else 1000

-- An aligned price is the largest valid one that is not above the price: it is a multiple of the
-- exchange's tick at the aligned price itself, and less than one tick of the price's band below it.
pub align_lem :
    (price : ℕ)
    → (align_tick_size price ≤ price)
      × (price < align_tick_size price + tick_size price)
      × (tick_size (align_tick_size price) ≡ tick_size price)
      × (align_tick_size price % tick_size (align_tick_size price) ≡ 0)
unfolding align_tick_size tick_size
align_lem price = ground arith
