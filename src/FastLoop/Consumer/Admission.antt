-- ===== src/FastLoop/Consumer/Admission.antt =====
-- Which sheets the consumer lets into the queue.
use mathlib.Core.List.{Memᴰ}
use prime_jennie_runtime.Prelude.{
  ◌+◌, ◌*◌, ◌≤◌, ◌&&◌, ◌==◌, sym, All-map, ℕ, ◌≡◌, ◌≢◌, ◌⊎◌, inl, inr, refl, subst, Bool, true,
  false, Option, none, some, List, [], ◌∷◌, arith, if◌then◌else◌, Option-cases, Bool-cases, All,
}
use prime_jennie_runtime.Prelude.Dict.{lookup, sorted, lookup-insert}
use prime_jennie_runtime.KisGateway.Schemas.{Answer, answered}
use prime_jennie_runtime.PositionSheet.{PositionSheet}
use prime_jennie_runtime.SlowLoop.ActiveSheets.{
  SheetRow, ExecutionRow, Database, sell, fixed_sl, stop_loss, breakeven_stop, any_sheet,
}
use prime_jennie_runtime.FastLoop.PendingEntry.{Queue, ids_of, is_empty, contains_ticker, add_sheet}
use prime_jennie_runtime.FastLoop.PendingEntry.AtMostOne.{empty_sorted}
use prime_jennie_runtime.FastLoop.PositionTracker.{Tracker, sheet_ids_for}
use prime_jennie_runtime.FastLoop.Cooldown.{RecentStopLoss, is_recent_stoploss, has_recent_stoploss}
use prime_jennie_runtime.FastLoop.Cooldown.Latest.{has_recent_stoploss_lem, Reports}
use prime_jennie_runtime.FastLoop.Consumer.{
  Consumption, Handled, already_holding, ticker_pending, recent_stoploss_cooldown,
  sheet_id_in_queue, enqueued, in_cooldown, handle, enqueue,
}

-- A row of one of the reasons that count, of a sheet of the ticker, and of a sale.
abbrev pub IsStopOf : ℕ → Database → ExecutionRow → Type 0
IsStopOf ticker db e =
    ((row : SheetRow) × Memᴰ row db.position_sheets
      × (row.sheet_id ≡ e.sheet_id)
      × (row.ticker ≡ ticker))
    × (e.side ≡ sell)
    × ((e.exit_reason ≡ some fixed_sl)
        ⊎ (e.exit_reason ≡ some stop_loss)
        ⊎ (e.exit_reason ≡ some breakeven_stop))

any_sheet-Memᴰ :
    (test : SheetRow → Bool) (row : SheetRow) (rows : List SheetRow)
    → Memᴰ row rows
    → test row ≡ true
    → any_sheet test rows ≡ true
unfolding any_sheet
any_sheet-Memᴰ test row [] m h = elim m [ ]
any_sheet-Memᴰ test row (other ∷ rows) (Memᴰ.head e) h =
    let here : test other ≡ true = rw (sym e) h in ground (arith, here)
any_sheet-Memᴰ test row (other ∷ rows) (Memᴰ.tail m) h =
    ground (arith, any_sheet-Memᴰ test row rows m h)

stop_is_old :
    (window_hours now ticker : ℕ) (db : Database) (e : ExecutionRow)
    → is_recent_stoploss window_hours now ticker db e ≡ false
    → IsStopOf ticker db e
    → e.executed_at + window_hours * 3_600_000_000 ≤ now
unfolding is_recent_stoploss
stop_is_old window_hours now ticker db e h ((row, m, id, own), sale, why) =
    let found =
      any_sheet-Memᴰ (λ r. r.sheet_id == e.sheet_id && r.ticker == ticker) row db.position_sheets m
        (ground arith) in
    ground (arith, found)

module _ {F : Type 0} where
  -- Nothing stands against the sheet.
  abbrev pub IsClear :
      Answer (Option RecentStopLoss) → PositionSheet F → Tracker F → Queue F → Type 0
  IsClear recent sheet t q =
      (ids_of sheet.ticker t.by_ticker ≡ [])
      × (ids_of sheet.ticker q.by_ticker ≡ [])
      × (in_cooldown recent ≡ false)
      × (lookup sheet.sheet_id q.sheets ≡ none)

  -- What stands against it.
  abbrev pub Reason :
      Handled → Answer (Option RecentStopLoss) → PositionSheet F → Tracker F → Queue F → Type 0
  Reason already_holding recent sheet t q = is_empty (sheet_ids_for sheet.ticker t) ≡ false
  Reason ticker_pending recent sheet t q = contains_ticker sheet.ticker q ≡ true
  Reason recent_stoploss_cooldown recent sheet t q = in_cooldown recent ≡ true
  Reason sheet_id_in_queue recent sheet t q =
      (old : PositionSheet F) × (lookup sheet.sheet_id q.sheets ≡ some old)
  Reason enqueued recent sheet t q = IsClear recent sheet t q

  no_ids :
      (ticker : ℕ) (q : Queue F) → contains_ticker ticker q ≡ false → ids_of ticker q.by_ticker ≡ []
  unfolding contains_ticker
  no_ids ticker q h = elim (Bool-cases (is_empty (ids_of ticker q.by_ticker))) [
    | inl e ↦ nil (ids_of ticker q.by_ticker) e
    | inr e ↦ absurd (ground (arith, e, h))
  ]
    where
      nil : (ids : List ℕ) → is_empty ids ≡ true → ids ≡ []
      nil [] h = refl
      nil (x ∷ ids) h = absurd (cc)

  -- What the handler leaves: the sheet stored, or the queue as it was.
  abbrev pub Leaves : Bool → Option ℕ → PositionSheet F → Queue F → Consumption F → Type 0
  Leaves subscribes up sheet q r =
      ((r.outcome ≡ enqueued)
        × (r.queue ≡ (add_sheet up sheet q).1)
        × (lookup sheet.sheet_id r.queue.sheets ≡ some sheet)
        × (r.subscribed ≡ (if subscribes then some sheet.ticker else none)))
      ⊎ ((r.outcome ≢ enqueued) × (r.queue ≡ q) × (r.subscribed ≡ none))

  enqueue_lem :
      (subscribes : Bool) (up : Option ℕ) (recent : Answer (Option RecentStopLoss))
      (sheet : PositionSheet F) (t : Tracker F) (q : Queue F)
      → ids_of sheet.ticker t.by_ticker ≡ []
      → ids_of sheet.ticker q.by_ticker ≡ []
      → in_cooldown recent ≡ false
      → let r = enqueue subscribes up sheet q in
        Reason r.outcome recent sheet t q × Leaves subscribes up sheet q r
  unfolding enqueue add_sheet
  enqueue_lem subscribes up recent sheet t q unheld unqueued calm =
      elim (Option-cases (lookup sheet.sheet_id q.sheets)) [
        | inl new ↦
            rw (new, enqueue, add_sheet)
              (
                (unheld, unqueued, calm, new),
                inl (
                  refl,
                  refl,
                  ground (arith, lookup-insert sheet.sheet_id sheet.sheet_id sheet q.sheets),
                  refl,
                ),
              )
        | inr (old, there) ↦
            rw (there, enqueue, add_sheet) ((old, there), inr (λ e. cc, refl, refl))
      ]

  -- Every end of the handler. Its outcome says what stood against the sheet: a position of its ticker,
  -- a sheet of its ticker in the queue, a stop that the cooldown reports, or its id in the queue; a
  -- sheet is enqueued only where none of these is so. The enqueued sheet is found under its id and its
  -- ticker is subscribed where the consumer subscribes; otherwise the queue is as it was.
  pub handle_accounts :
      (subscribes : Bool) (up : Option ℕ) (recent : Answer (Option RecentStopLoss))
      (sheet : PositionSheet F) (t : Tracker F) (q : Queue F)
      → let r = handle subscribes up recent sheet t q in
        Reason r.outcome recent sheet t q × Leaves subscribes up sheet q r
  unfolding handle sheet_ids_for
  handle_accounts subscribes up recent sheet t q =
      elim (Bool-cases (is_empty (sorted (ids_of sheet.ticker t.by_ticker)))) [
        | inr held ↦ rw (held, handle) (held, inr (λ e. cc, refl, refl))
        | inl clear ↦ elim (Bool-cases (contains_ticker sheet.ticker q)) [
          | inl waits ↦ rw (clear, waits, handle) (waits, inr (λ e. cc, refl, refl))
          | inr alone ↦ elim (Bool-cases (in_cooldown recent)) [
            | inl cold ↦ rw (clear, alone, cold, handle) (cold, inr (λ e. cc, refl, refl))
            | inr calm ↦
                rw (clear, alone, calm, handle)
                  (enqueue_lem subscribes up recent sheet t q
                    (empty_sorted (ids_of sheet.ticker t.by_ticker) clear)
                    (no_ids sheet.ticker q alone) calm)
          ]
        ]
      ]

  -- A queued sheet is not of a ticker with a recent stop: where the database answers, each sale of a
  -- sheet of its ticker that is recorded for the reason `fixed_sl`, `stop_loss` or `breakeven_stop`
  -- is at least the hours of the window old when the consumer enqueues a sheet. A stop that is
  -- recorded for another reason, as `breakeven`, does not count.
  pub no_entry_after_stop :
      (subscribes : Bool) (up : Option ℕ) (window_hours now : ℕ) (db : Database)
      (sheet : PositionSheet F) (t : Tracker F) (q : Queue F)
      → let recent = has_recent_stoploss window_hours now (answered db) sheet.ticker in
        (handle subscribes up recent sheet t q).outcome ≡ enqueued
        → All
            (λ e. IsStopOf sheet.ticker db e → e.executed_at + window_hours * 3_600_000_000 ≤ now)
            db.executions
  no_entry_after_stop subscribes up window_hours now db sheet t q entered =
      let (found, same, reports) = has_recent_stoploss_lem window_hours now sheet.ticker db in
      let recent = has_recent_stoploss window_hours now (answered db) sheet.ticker in
      let test = is_recent_stoploss window_hours now sheet.ticker db in
      let clear : IsClear recent sheet t q =
        subst (λ o. Reason o recent sheet t q) entered
          (handle_accounts subscribes up recent sheet t q).0 in
      elim (Option-cases found) [
        | inl nothing ↦
            let none_recent : Reports test db.executions none =
              subst (λ x. Reports test db.executions x) nothing reports in
            All-map (stop_is_old window_hours now sheet.ticker db) db.executions none_recent
        | inr (e, stop) ↦ absurd (ground (arith, clear.2, same, stop))
      ]
