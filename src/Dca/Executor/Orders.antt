-- ===== src/Dca/Executor/Orders.antt =====
-- The order that an execution sends.
use Prim.Native.Nat.{◌/◌}
use native.Mathlib.Nat.{div-mul-le_self}
use prime_jennie_runtime.Prelude.{
  ℕ, ◌*◌, ◌-◌, ◌≤◌, ◌≡◌, refl, ◌⊎◌, inl, inr, Bool, ◌||◌, some, arith, leb, ◌==◌, Bool-cases,
}
use prime_jennie_runtime.Prelude.Float.{Float}
use prime_jennie_runtime.Prelude.Time.{Datetime}
use prime_jennie_runtime.Dca.State.{
  Campaign, SliceExecution, SliceStatus, remaining_cap_krw, min_order_krw,
}
use prime_jennie_runtime.Dca.Broker.{Broker}
use prime_jennie_runtime.Dca.Planning.{target_cumulative_for_slice}
use prime_jennie_runtime.Dca.Planning.Budget.{budget_is_least}
use prime_jennie_runtime.KisGateway.Schemas.{Answer-cases, answered}
use prime_jennie_runtime.Dca.Executor.{
  finalize_slice, settle, pass_slice, vi_retry_or_pass, confirm_and_settle, submit, order_slice,
  slice_budget, is_tail, execute_slice, with_budget,
}

module _ {F : Type 0} where
  -- The slice has the quantity and the order number that it had.
  abbrev pub SendsNothing : SliceExecution F → SliceExecution F → Type 0
  SendsNothing s s' = (s'.intended_qty ≡ s.intended_qty) × (s'.order_no ≡ s.order_no)

module _ {F : Type 0} ⦃fl : Float F⦄ where
  pass-keeps :
      (s : SliceExecution F) (c : Campaign F) (t : Bool) → SendsNothing s (pass_slice (s, c) t).0
  unfolding pass_slice finalize_slice
  pass-keeps s c t = (refl, refl)

  retry-keeps :
      (s : SliceExecution F) (c : Campaign F) (now : Datetime)
      → SendsNothing s (vi_retry_or_pass (s, c) now).0
  unfolding vi_retry_or_pass
  retry-keeps s c now = ground (arith, pass-keeps s c (is_tail s.trigger_kind))

  confirm-keeps :
      (s : SliceExecution F) (c : Campaign F) (qty : ℕ) (now : Datetime) (broker : Broker F)
      → SendsNothing s (confirm_and_settle (s, c) qty now broker).0
  unfolding confirm_and_settle settle finalize_slice
  confirm-keeps s c qty now broker = ground (arith, retry-keeps s c now)

  submit-keeps :
      (s : SliceExecution F) (c : Campaign F) (qty : ℕ) (now : Datetime) (broker : Broker F)
      → (submit (s, c) qty now broker).0.intended_qty ≡ s.intended_qty
  unfolding submit
  submit-keeps s c qty now broker = ground (
    arith,
    retry-keeps (record s { status = SliceStatus.submitted }) c now,
    λ (o : ℕ).
        confirm-keeps (record s { status = SliceStatus.submitted; order_no = some o }) c qty now
          broker,
  )

  -- An order of at least one share, for at most `budget` at `price`.
  abbrev pub Orders : ℕ → ℕ → SliceExecution F → Type 0
  Orders budget price s' =
      (qty : ℕ) × (s'.intended_qty ≡ some qty) × (1 ≤ qty) × (qty * price ≤ budget)

  order-Orders :
      (budget price : ℕ) (s : SliceExecution F) (c : Campaign F) (now : Datetime) (force_dry : Bool)
      (broker : Broker F)
      → let s' = (order_slice (s, c) budget price now force_dry broker).0 in
        SendsNothing s s' ⊎ Orders budget price s'
  unfolding order_slice settle finalize_slice
  order-Orders budget price s c now force_dry broker =
      let qty = budget / price in
      let tail_done = is_tail s.trigger_kind in
      let asked : SliceExecution F = record s { intended_qty = some qty } in
      elim (Bool-cases (price == 0)) [
        | inl free ↦ rw (free, order_slice) (inl (pass-keeps s c tail_done))
        | inr priced ↦ elim (Bool-cases (qty == 0)) [
          | inl nothing ↦ rw (priced, nothing, order_slice) (inl (pass-keeps s c tail_done))
          | inr some_shares ↦
              let least : 1 ≤ qty = ground arith in
              let most : qty * price ≤ budget = div-mul-le_self budget price in
              elim (Bool-cases (force_dry || c.dry_run)) [
                | inl dry ↦
                    rw (priced, some_shares, dry, order_slice) (inr (qty, refl, least, most))
                | inr real ↦
                    rw (priced, some_shares, real, order_slice)
                      (inr (qty, submit-keeps asked c qty now broker, least, most))
              ]
        ]
      ]

  with_budget-Orders :
      (budget : ℕ) (s : SliceExecution F) (c : Campaign F) (now : Datetime) (force_dry : Bool)
      (broker : Broker F)
      → let s' = (with_budget (s, c) budget now force_dry broker).0 in
        SendsNothing s s'
        ⊎ ((price : ℕ) × (broker.get_snapshot ≡ answered price) × Orders budget price s')
  unfolding with_budget
  with_budget-Orders budget s c now force_dry broker =
      elim (Bool-cases (leb budget min_order_krw)) [
        | inl small ↦ rw (small, with_budget) (inl (pass-keeps s c (is_tail s.trigger_kind)))
        | inr enough ↦ elim (Answer-cases broker.get_snapshot) [
          | inl failed ↦ rw (enough, failed, with_budget) (inl (refl, refl))
          | inr (price, known) ↦ elim (order-Orders budget price s c now force_dry broker) [
            | inl same ↦ rw (enough, known, with_budget) (inl same)
            | inr ordered ↦ rw (enough, known, with_budget) (inr (price, refl, ordered))
          ]
        ]
      ]

  pub order_within_limits :
      (s : SliceExecution F) (c : Campaign F) (today_filled : ℕ) (now : Datetime) (force_dry : Bool)
      (broker : Broker F)
      → let s' = (execute_slice (s, c) today_filled now force_dry broker).0 in
        SendsNothing s s'
        ⊎ ((qty price cash : ℕ) × (s'.intended_qty ≡ some qty)
            × (broker.get_snapshot ≡ answered price)
            × (broker.get_cash ≡ answered cash)
            × (1 ≤ qty)
            × (qty * price ≤ c.cap_krw - c.cumulative_filled_krw)
            × (qty * price ≤ c.per_order_cost_cap)
            × (qty * price ≤ c.per_day_cost_cap - today_filled)
            × (qty * price ≤ fl.floor (fl.mul (fl.of_ℕ cash) c.clamp_pct)))
  unfolding execute_slice finalize_slice
  order_within_limits s c today_filled now force_dry broker =
      elim (Bool-cases (leb (remaining_cap_krw c) min_order_krw)) [
        | inl small ↦ rw (small, execute_slice) (inl (refl, refl))
        | inr left ↦ elim (Answer-cases broker.get_cash) [
          | inl failed ↦ rw (left, failed, execute_slice) (inl (refl, refl))
          | inr (cash, known) ↦
              let budget = slice_budget (s, c) cash today_filled in
              let target = target_cumulative_for_slice c s.slice_no (is_tail s.trigger_kind) in
              let (least, _) = budget_is_least c target cash today_filled in
              elim (with_budget-Orders budget s c now force_dry broker) [
                | inl same ↦ rw (left, known, execute_slice) (inl same)
                | inr (price, quoted, (qty, asked, one, most)) ↦
                    rw (left, known, execute_slice)
                      (inr (
                        qty,
                        price,
                        cash,
                        asked,
                        quoted,
                        refl,
                        one,
                        omega (arith, most, least.1),
                        omega (arith, most, least.3),
                        omega (arith, most, least.4),
                        omega (arith, most, least.2),
                      ))
              ]
        ]
      ]
