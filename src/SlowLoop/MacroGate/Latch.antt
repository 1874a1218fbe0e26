-- ===== src/SlowLoop/MacroGate/Latch.antt =====
-- The reversal guard over a trading day.
use prime_jennie_runtime.Prelude.{
  ℕ, ◌≡◌, ◌≢◌, ◌⊎◌, inl, inr, Bool, true, false, some, List, [], ◌∷◌, arith, All, All-map,
}
use prime_jennie_runtime.Prelude.Float.{Float}
use prime_jennie_runtime.Prelude.Time.{Datetime}
use prime_jennie_runtime.SlowLoop.MacroGate.{
  closed, MacroGateOutput, RecentMacroRun, MarketSnapshot, PostContext, closed_row_today, found,
  kst_day, run_post_processing,
}
use prime_jennie_runtime.SlowLoop.MacroGate.Post.{post_gate}

-- One scheduled run: its id and time, what the model answered and the market showed.
pub record Scheduled (F : Type 0) : Type 0 where
  pub run_id : ℕ
  pub at : Datetime
  pub raw : MacroGateOutput F
  pub snapshot : MarketSnapshot F
  pub auto_override_disabled : Bool

module _ {F : Type 0} where
  -- The table has a closed run of that day under another id.
  abbrev pub HasClosed : ℕ → ℕ → List (RecentMacroRun F) → Type 0
  HasClosed d i [] = ⊥
  HasClosed d i (row ∷ rows) =
      ((row.gate ≡ closed) × (row.macro_run_id ≢ i) × (kst_day row.generated_at ≡ d))
      ⊎ HasClosed d i rows

  closed_row_found :
      (rows : List (RecentMacroRun F)) (i : ℕ) (at : Datetime)
      → HasClosed (kst_day at) i rows
      → found (some (rows, i, at)) ≡ true
  unfolding closed_row_today
  closed_row_found [] i at h = absurd h
  closed_row_found (row ∷ rows) i at (inl h) = ground arith
  closed_row_found (row ∷ rows) i at (inr h) = ground (arith, closed_row_found rows i at h)

module _ {F : Type 0} ⦃fl : Float F⦄ where
  -- A run in real mode with the guard on; its row enters the table.
  abbrev context : List (RecentMacroRun F) → Scheduled F → PostContext F
  context rows r = record {
    auto_override_disabled = r.auto_override_disabled;
    reversal_guard_disabled = false;
    paper_mode = false;
    lookup = some (rows, r.run_id, r.at);
  }

  pub run_once : List (RecentMacroRun F) → Scheduled F → RecentMacroRun F
  run_once rows r =
      let o = (run_post_processing r.raw r.snapshot rows (context rows r)).output in
      record {
        macro_run_id = r.run_id;
        generated_at = r.at;
        gate = o.gate;
        size_multiplier = o.size_multiplier;
      }

  -- The rows of a series of runs, in the order of the runs.
  pub run_day : List (RecentMacroRun F) → List (Scheduled F) → List (RecentMacroRun F)
  unfolding run_once
  run_day rows [] = []
  run_day rows (r ∷ rs) = let row = run_once rows r in row ∷ run_day (row ∷ rows) rs

  run_once_closed :
      (rows : List (RecentMacroRun F)) (r : Scheduled F)
      → HasClosed (kst_day r.at) r.run_id rows
      → (run_once rows r).gate ≡ closed
  unfolding run_once
  run_once_closed rows r h = ground (
    arith,
    closed_row_found rows r.run_id r.at h,
    post_gate r.raw r.snapshot rows (context rows r),
  )

  -- Once a run of the day is in the table as closed, every later run of that day comes out closed,
  -- in real mode with the guard on and the table readable, whatever the model answers. The later
  -- runs have other ids than the closed one.
  pub closed_latches :
      (rows : List (RecentMacroRun F)) (rs : List (Scheduled F)) (d : ℕ)
      → All (λ r. (kst_day r.at ≡ d) × HasClosed d r.run_id rows) rs
      → All (λ row. row.gate ≡ closed) (run_day rows rs)
  unfolding run_day
  closed_latches rows [] d h = tt
  closed_latches rows (r ∷ rs) d ((today, has), h) = (
    run_once_closed rows r (rw today has),
    closed_latches (run_once rows r ∷ rows) rs d (All-map (λ x p. (p.0, inr p.1)) rs h),
  )
