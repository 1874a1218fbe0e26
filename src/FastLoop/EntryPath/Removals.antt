-- ===== src/FastLoop/EntryPath/Removals.antt =====
-- What handling one sheet does to the queue.
use prime_jennie_runtime.Prelude.{
  ℕ, suc, ◌≡◌, ◌⊎◌, inl, inr, refl, Bool, leb, Option-cases, Bool-cases,
}
use prime_jennie_runtime.Prelude.Float.{Float}
use prime_jennie_runtime.Prelude.Time.{Datetime}
use prime_jennie_runtime.PositionSheet.{PositionSheet}
use prime_jennie_runtime.FastLoop.Domain.{TickData}
use prime_jennie_runtime.FastLoop.PendingEntry.{Queue, is_empty, remove}
use prime_jennie_runtime.FastLoop.EntryConditions.{Indicators, evaluate}
use prime_jennie_runtime.FastLoop.EntryExecutor.{Entered, execute}
use prime_jennie_runtime.FastLoop.PositionTracker.{sheet_ids_for}
use prime_jennie_runtime.FastLoop.EntryPath.{
  EntryState, Answers, after_entry, count_reject, is_expiry, is_gateway_failure, count_of, enter,
  by_result, process_sheet,
}
use prime_jennie_runtime.KisGateway.Schemas.{Answer-cases}

module _ {F : Type 0} where
  -- The queue is as it was, or without the sheet.
  abbrev pub Removed : ℕ → Queue F → Queue F → Type 0
  Removed i q q' = (q' ≡ q) ⊎ ((up : Bool) × (q' ≡ remove up i q))

  count_reject-Removed :
      (limit : ℕ) (up : Bool) (i : ℕ) (s : EntryState F)
      → Removed i s.queue (count_reject limit up i s).queue
  unfolding count_reject
  count_reject-Removed limit up i s =
      elim (Bool-cases (leb limit (suc (count_of i s.entry_reject_counts)))) [
        | inl over ↦ rw (over, count_reject) (inr (up, refl))
        | inr under ↦ rw (under, count_reject) (inl refl)
      ]

  after_entry-Removed :
      (limit : ℕ) (ans : Answers F) (i : ℕ) (r : Entered F) (s : EntryState F)
      → Removed i s.queue (after_entry limit ans i r s).queue
  unfolding after_entry
  after_entry-Removed limit ans i r s = elim (Option-cases r.registered) [
    | inr (position, entered) ↦ elim (Bool-cases ans.tracker_up) [
      | inl up ↦ rw (entered, up, after_entry) (inr (ans.queue_up, refl))
      | inr down ↦ rw (entered, down, after_entry) (inl refl)
    ]
    | inl unregistered ↦ elim (Bool-cases (is_gateway_failure r.result)) [
      | inl failed ↦ rw (unregistered, failed, after_entry) (inl refl)
      | inr ended ↦ elim (Bool-cases r.success) [
        | inl success ↦ rw (unregistered, ended, success, after_entry) (inr (ans.queue_up, refl))
        | inr failure ↦
            rw (unregistered, ended, failure, after_entry)
              (count_reject-Removed limit ans.queue_up i s)
      ]
    ]
  ]

module _ {F : Type 0} ⦃fl : Float F⦄ where
  enter-Removed :
      (limit : ℕ) (ans : Answers F) (sheet : PositionSheet F) (s : EntryState F)
      → Removed sheet.sheet_id s.queue (enter limit ans sheet s).1.queue
  unfolding enter
  enter-Removed limit ans sheet s = elim (Answer-cases ans.sizer) [
    | inl failed ↦ rw (failed, enter) (inl refl)
    | inr (qty, sized) ↦ elim (Bool-cases (leb qty 0)) [
      | inl nothing ↦ rw (sized, nothing, enter) (inl refl)
      | inr some_shares ↦
          rw (sized, some_shares, enter)
            (after_entry-Removed limit ans sheet.sheet_id
              (execute ans.dryrun sheet qty ans.filled_at ans.broker) s)
    ]
  ]

  pub process_sheet-Removed :
      (limit : ℕ) (tick : TickData F) (ind : Indicators F) (now : Datetime) (ans : Answers F)
      (sheet : PositionSheet F) (s : EntryState F)
      → Removed sheet.sheet_id s.queue (process_sheet limit tick ind now ans sheet s).1.queue
  unfolding process_sheet by_result
  process_sheet-Removed limit tick ind now ans sheet s =
      let result = evaluate sheet tick ind now in
      elim (Bool-cases (is_empty (sheet_ids_for sheet.ticker s.tracker))) [
        | inr held ↦ rw (held, process_sheet) (inr (ans.queue_up, refl))
        | inl clear ↦ elim (Bool-cases result.passed) [
          | inl passed ↦
              rw (clear, passed, process_sheet, by_result) (enter-Removed limit ans sheet s)
          | inr failed ↦ elim (Bool-cases (is_expiry result.reason)) [
            | inl over ↦
                rw (clear, failed, over, process_sheet, by_result) (inr (ans.queue_up, refl))
            | inr waits ↦ rw (clear, failed, waits, process_sheet, by_result) (inl refl)
          ]
        ]
      ]
