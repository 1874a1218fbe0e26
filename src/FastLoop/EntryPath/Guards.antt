-- ===== src/FastLoop/EntryPath/Guards.antt =====
-- What stands before an order of the entry path.
use prime_jennie_runtime.Prelude.{
  ℕ, suc, ◌≤◌, ◌<◌, ◌≡◌, refl, ◌⊎◌, inl, inr, Bool, true, false, none, some, arith, leb, ◌==◌,
  if◌then◌else◌, Bool-cases,
}
use prime_jennie_runtime.Prelude.Dict.{Dict, insert, erase, lookup-insert, lookup-erase}
use prime_jennie_runtime.Prelude.Float.{Float}
use prime_jennie_runtime.Prelude.Time.{Datetime}
use prime_jennie_runtime.PositionSheet.{PositionSheet}
use prime_jennie_runtime.FastLoop.Domain.{TickData}
use prime_jennie_runtime.FastLoop.PendingEntry.{is_empty}
use prime_jennie_runtime.FastLoop.EntryConditions.{Indicators, evaluate}
use prime_jennie_runtime.FastLoop.EntryExecutor.{OrderRequest, Entered, execute}
use prime_jennie_runtime.FastLoop.EntryExecutor.Accounts.{entry_accounts}
use prime_jennie_runtime.FastLoop.PositionTracker.{sheet_ids_for}
use prime_jennie_runtime.FastLoop.EntryPath.{
  EntryState, Answers, count_of, is_expiry, after_entry, count_reject, enter, by_result,
  process_sheet,
}
use prime_jennie_runtime.KisGateway.Schemas.{Answer-cases}
use prime_jennie_runtime.KisGateway.Schemas.{answered}

-- Fewer rejections than the limit are counted of a sheet.
abbrev Bounded : {F : Type 0} → ℕ → ℕ → EntryState F → Type 0
Bounded limit sheet_id s = count_of sheet_id s.entry_reject_counts < limit

count_of-erase :
    (i j : ℕ) (counts : Dict ℕ)
    → count_of j (erase i counts) ≡ (if j == i then 0 else count_of j counts)
count_of-erase i j counts = ground (arith, lookup-erase i j counts)

count_of-insert :
    (i j n : ℕ) (counts : Dict ℕ)
    → count_of j (insert i n counts) ≡ (if j == i then n else count_of j counts)
count_of-insert i j n counts = ground (arith, lookup-insert i j n counts)

module _ {F : Type 0} where
  count_reject-Bounded :
      (limit : ℕ) (up : Bool) (i j : ℕ) (s : EntryState F)
      → Bounded limit j s
      → Bounded limit j (count_reject limit up i s)
  unfolding count_reject
  count_reject-Bounded limit up i j s h = ground (
    arith,
    h,
    count_of-erase i j s.entry_reject_counts,
    count_of-insert i j (suc (count_of i s.entry_reject_counts)) s.entry_reject_counts,
  )

  after_entry-Bounded :
      (limit : ℕ) (ans : Answers F) (i j : ℕ) (r : Entered F) (s : EntryState F)
      → Bounded limit j s
      → Bounded limit j (after_entry limit ans i r s)
  unfolding after_entry
  after_entry-Bounded limit ans i j r s h = ground (
    arith,
    h,
    count_of-erase i j s.entry_reject_counts,
    count_reject-Bounded limit ans.queue_up i j s h,
  )

module _ {F : Type 0} ⦃fl : Float F⦄ where
  -- An order of the sheet, of the sized quantity.
  abbrev pub IsSized : Answers F → OrderRequest → Type 0
  IsSized ans order =
      (ans.sizer ≡ answered order.quantity) × (1 ≤ order.quantity) × (ans.dryrun ≡ false)

  enter_lem :
      (limit : ℕ) (ans : Answers F) (sheet : PositionSheet F) (j : ℕ) (s : EntryState F)
      → Bounded limit j s
      → let (ordered, s') = enter limit ans sheet s in
        ((ordered ≡ none) ⊎ ((order : OrderRequest) × (ordered ≡ some order) × IsSized ans order))
        × Bounded limit j s'
  unfolding enter
  enter_lem limit ans sheet j s h = elim (Answer-cases ans.sizer) [
    | inl failed ↦ rw (failed, enter) (inl refl, h)
    | inr (qty, sized) ↦ elim (Bool-cases (leb qty 0)) [
      | inl nothing ↦ rw (sized, nothing, enter) (inl refl, h)
      | inr some_shares ↦
          let r = execute ans.dryrun sheet qty ans.filled_at ans.broker in
          let (sent, _, _) = entry_accounts ans.dryrun sheet qty ans.filled_at ans.broker in
          let bounded = after_entry-Bounded limit ans sheet.sheet_id j r s h in
          rw (sized, some_shares, enter)
            (
              elim sent [
                | inl nothing_sent ↦ inl nothing_sent
                | inr (order, out, same, code, one, real) ↦
                    inr (order, out, (rw same refl, rw same one, real))
              ],
              bounded,
            )
    ]
  ]

  -- What stands before an order of the entry path. An order leaves only for a sheet whose conditions
  -- have passed on this tick, where no position of its ticker is held and outside a dry run, and it is
  -- for exactly the quantity of the sizer, at least one share. And the rejections that are counted of
  -- any sheet stay below their limit.
  pub orders_are_guarded :
      (limit : ℕ) (tick : TickData F) (ind : Indicators F) (now : Datetime) (ans : Answers F)
      (sheet : PositionSheet F) (j : ℕ) (s : EntryState F)
      → count_of j s.entry_reject_counts < limit
      → let (ordered, s') = process_sheet limit tick ind now ans sheet s in
        ((ordered ≡ none)
          ⊎ (((order : OrderRequest) × (ordered ≡ some order) × IsSized ans order)
              × ((evaluate sheet tick ind now).passed ≡ true)
              × (is_empty (sheet_ids_for sheet.ticker s.tracker) ≡ true)))
        × (count_of j s'.entry_reject_counts < limit)
  unfolding process_sheet by_result
  orders_are_guarded limit tick ind now ans sheet j s h =
      elim (Bool-cases (is_empty (sheet_ids_for sheet.ticker s.tracker))) [
        | inr held ↦ rw (held, process_sheet) (inl refl, h)
        | inl clear ↦
            let result = evaluate sheet tick ind now in
            elim (Bool-cases result.passed) [
              | inl passed ↦
                  let (sent, bounded) = enter_lem limit ans sheet j s h in
                  rw (clear, passed, process_sheet, by_result)
                    (
                      elim sent [ inl nothing ↦ inl nothing | inr order ↦ inr (order, refl, refl) ],
                      bounded,
                    )
              | inr failed ↦ elim (Bool-cases (is_expiry result.reason)) [
                | inl over ↦ rw (clear, failed, over, process_sheet, by_result) (inl refl, h)
                | inr waits ↦ rw (clear, failed, waits, process_sheet, by_result) (inl refl, h)
              ]
            ]
      ]
