-- ===== src/FastLoop/Indicators.antt =====
-- The technical indicators that the death-cross rule reads
-- (prime_jennie_runtime/fast_loop/indicators.py). A period of 0 makes the source raise
-- ZeroDivisionError; the model divides by `of_ℕ 0` there.
use mathlib.Core.List.{foldl}
use prime_jennie_runtime.Prelude.{
  ℕ, zero, suc, ◌+◌, ◌-◌, Bool, false, ◌&&◌, Option, none, some, List, [], ◌∷◌, ◌++◌, ltb, length,
  take, drop, get_elem?, if◌then◌else◌,
}
use prime_jennie_runtime.Prelude.Float.{Float, lt}

abbrev pub replicate {ℓ} : {A : Type ℓ} → ℕ → A → List A
replicate zero a = []
replicate (suc n) a = a ∷ replicate n a

abbrev flat {ℓ} : {A : Type ℓ} → Option (Option A) → Option A
flat none = none
flat (some o) = o

-- Python's `xs[-k]` for a positive `k`, on a list of optional values; `none` out of range too.
abbrev pub from_end {ℓ} : {A : Type ℓ} → ℕ → List (Option A) → Option A
from_end k xs = if ltb (length xs) k then none else flat (get_elem? xs (length xs - k))

module _ {F : Type 0} ⦃fl : Float F⦄ where
  -- Python's `sum`, from the left.
  unfoldable pub sum : List F → F
  sum = foldl fl.add (fl.of_ℕ 0)

  -- The loop over `i`: `entering` is `prices[i:]` and `leaving` is `prices[i - period:]`.
  unfoldable pub slide : ℕ → F → List F → List F → List (Option F)
  slide period window [] leaving = []
  slide period window (p ∷ entering) [] = []
  slide period window (p ∷ entering) (q ∷ leaving) =
      let window' = fl.add window (fl.sub p q) in
      some (fl.div window' (fl.of_ℕ period)) ∷ slide period window' entering leaving

  unfoldable pub calculate_sma : List F → ℕ → List (Option F)
  unfolding slide sum
  calculate_sma prices period =
      if ltb (length prices) period
      then replicate (length prices) none
      else let window = sum (take period prices) in
        replicate (period - 1) none
        ++ (some (fl.div window (fl.of_ℕ period)) ∷ slide period window (drop period prices) prices)

  -- The comparison at the end of `check_death_cross`, behind its `None` test.
  abbrev pub crossed_down : F → Option F → Option F → Option F → Option F → Bool
  crossed_down gap (some curr_s) (some curr_l) (some prev_s) (some prev_l) =
      lt curr_s (fl.mul curr_l (fl.sub (fl.of_ℕ 1) gap)) && fl.le prev_l prev_s
  crossed_down gap _ _ _ _ = false

  unfoldable pub check_death_cross : List F → ℕ → ℕ → F → Bool
  unfolding calculate_sma
  check_death_cross close_prices short long gap =
      if ltb (length close_prices) (long + 1)
      then false
      else let sma_short = calculate_sma close_prices short in
        let sma_long = calculate_sma close_prices long in
        crossed_down gap (from_end 1 sma_short) (from_end 1 sma_long) (from_end 2 sma_short)
          (from_end 2 sma_long)
