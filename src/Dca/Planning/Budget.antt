-- ===== src/Dca/Planning/Budget.antt =====
-- What bounds the budget of a slice.
use prime_jennie_runtime.Prelude.{ℕ, ◌-◌, ◌≤◌, ◌⊎◌, ◌≡◌, arith}
use prime_jennie_runtime.Prelude.Int.{ℤ, pos, pos_part, sub_ℕ, min_ℤ}
use prime_jennie_runtime.Prelude.Float.{Float}
use prime_jennie_runtime.Dca.State.{Campaign, remaining_cap_krw}
use prime_jennie_runtime.Dca.Planning.{compute_slice_budget}

abbrev Picks : ℕ → ℕ → ℕ → Type 0
Picks m a b = (m ≤ a) × (m ≤ b) × ((m ≡ a) ⊎ (m ≡ b))

pos_part-min_ℤ : (a b : ℤ) → Picks (pos_part (min_ℤ a b)) (pos_part a) (pos_part b)
pos_part-min_ℤ a b = ground arith

pos_part-sub_ℕ : (a b : ℕ) → pos_part (sub_ℕ a b) ≡ a - b
pos_part-sub_ℕ a b = ground arith

chain_of_five :
    (t l a b c d e p q r s : ℕ)
    → t ≡ a
    → l ≡ e
    → Picks p t b
    → Picks q p c
    → Picks r q d
    → Picks s r l
    → ((s ≤ a) × (s ≤ b) × (s ≤ c) × (s ≤ d) × (s ≤ e))
      × ((s ≡ a) ⊎ (s ≡ b) ⊎ (s ≡ c) ⊎ (s ≡ d) ⊎ (s ≡ e))
chain_of_five t l a b c d e p q r s u v h i j k = ground arith

module _ {F : Type 0} ⦃fl : Float F⦄ where
  -- The budget of a slice is at most each of its five limits, a limit below 0 counting as 0: what
  -- the target lacks, what the cap leaves, the clamped buying power, the cap per order and what
  -- the cap per day leaves. It is one of the five, so none of the budget is given away.
  pub budget_is_least :
      (c : Campaign F) (target buying_power today_filled : ℕ)
      → let b = compute_slice_budget c target buying_power today_filled in
        let clamped = fl.floor (fl.mul (fl.of_ℕ buying_power) c.clamp_pct) in
        ((b ≤ target - c.cumulative_filled_krw)
          × (b ≤ c.cap_krw - c.cumulative_filled_krw)
          × (b ≤ clamped)
          × (b ≤ c.per_order_cost_cap)
          × (b ≤ c.per_day_cost_cap - today_filled))
        × ((b ≡ target - c.cumulative_filled_krw)
            ⊎ (b ≡ c.cap_krw - c.cumulative_filled_krw)
            ⊎ (b ≡ clamped)
            ⊎ (b ≡ c.per_order_cost_cap)
            ⊎ (b ≡ c.per_day_cost_cap - today_filled))
  unfolding compute_slice_budget
  budget_is_least c target buying_power today_filled =
      let t = sub_ℕ target c.cumulative_filled_krw in
      let clamped = fl.floor (fl.mul (fl.of_ℕ buying_power) c.clamp_pct) in
      let left = sub_ℕ c.per_day_cost_cap today_filled in
      let m2 = min_ℤ t (pos (remaining_cap_krw c)) in
      let m3 = min_ℤ m2 (pos clamped) in
      let m4 = min_ℤ m3 (pos c.per_order_cost_cap) in
      chain_of_five (pos_part t) (pos_part left) (target - c.cumulative_filled_krw)
        (remaining_cap_krw c) clamped c.per_order_cost_cap (c.per_day_cost_cap - today_filled)
        (pos_part m2) (pos_part m3) (pos_part m4) (pos_part (min_ℤ m4 left))
        (pos_part-sub_ℕ target c.cumulative_filled_krw)
        (pos_part-sub_ℕ c.per_day_cost_cap today_filled)
        (pos_part-min_ℤ t (pos (remaining_cap_krw c))) (pos_part-min_ℤ m2 (pos clamped))
        (pos_part-min_ℤ m3 (pos c.per_order_cost_cap)) (pos_part-min_ℤ m4 left)
