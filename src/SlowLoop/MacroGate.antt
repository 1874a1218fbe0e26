-- ===== src/SlowLoop/MacroGate.antt =====
-- The macro gate behind the model's answer (prime_jennie_runtime/slow_loop/macro): closed conditions,
-- post-processing, discretisation and the continuity check. Of `MacroGateOutput` the execution path
-- reads the gate and the multiplier; its log fields, the events and the log payload of the latch are
-- left out. Run ids are numbers.
pub mod Post
pub mod Latch
use prime_jennie_runtime.Prelude.{
  ℕ, suc, ◌+◌, ◌-◌, ◌/◌, Bool, true, false, not, ◌&&◌, ◌||◌, Option, none, some, List, [], ◌∷◌,
  ◌++◌, leb, ◌==◌, if◌then◌else◌,
}
use prime_jennie_runtime.Prelude.Float.{Float, lt, eq, neg, max, min, abs}
use prime_jennie_runtime.Prelude.Time.{Datetime, day, wall_in_kst}

pub data Gate : Type 0 where
  open_gate closed : Gate

pub record MacroGateOutput (F : Type 0) : Type 0 where
  pub gate : Gate
  pub size_multiplier : F

pub record RecentMacroRun (F : Type 0) : Type 0 where
  pub macro_run_id : ℕ
  pub generated_at : Datetime
  pub gate : Gate
  pub size_multiplier : F

-- The fields of `MarketSnapshot` that the conditions read; `usd_krw_change_abs` is its property of
-- that name, and `major_sector_drops` has the `change_pct` of each sector.
pub record MarketSnapshot (F : Type 0) : Type 0 where
  pub usd_krw_change_abs : F
  pub kospi_20d_vol : F
  pub major_sector_drops : List F
  pub high_impact_geopolitical_count : ℕ
  pub kospi_turnover_ratio : Option F
  pub kospi_spread_ratio : Option F

pub data Trigger : Type 0 where
  fx_shock high_volatility sector_contagion geopolitical liquidity_crunch : Trigger

-- `triggers.append(t)` under a test.
abbrev pub add_if : Bool → Trigger → List Trigger → List Trigger
add_if true t triggers = triggers ++ (t ∷ [])
add_if false t triggers = triggers

module _ {F : Type 0} ⦃fl : Float F⦄ where
  unfoldable pub count_drops : List F → ℕ
  count_drops [] = 0
  count_drops (change_pct ∷ sectors) =
      let rest = count_drops sectors in
      if fl.le change_pct (neg (fl.decimal 5 2)) then suc rest else rest

  abbrev pub crunch : Option F → Option F → Bool
  crunch (some turnover) (some spread) =
      fl.le turnover (fl.decimal 5 1) && fl.le (fl.decimal 20 1) spread
  crunch _ _ = false

  unfoldable pub check_closed_conditions : MarketSnapshot F → List Trigger
  check_closed_conditions snap =
      let t1 = add_if (fl.le (fl.decimal 3 2) snap.usd_krw_change_abs) fx_shock [] in
      let t2 = add_if (fl.le (fl.decimal 35 2) snap.kospi_20d_vol) high_volatility t1 in
      let t3 = add_if (leb 3 (count_drops snap.major_sector_drops)) sector_contagion t2 in
      let t4 = add_if (leb 3 snap.high_impact_geopolitical_count) geopolitical t3 in
      add_if (crunch snap.kospi_turnover_ratio snap.kospi_spread_ratio) liquidity_crunch t4

  abbrev pub open_floor : F
  open_floor = fl.decimal 75 2

  -- The size, and whether the inconsistency hook was called.
  unfoldable pub discretize_sync : F → Gate → F × Bool
  discretize_sync x closed = (fl.decimal 0 1, false)
  discretize_sync x open_gate =
      let clamped = max (fl.decimal 0 1) (min (fl.decimal 10 1) x) in
      if eq clamped (fl.decimal 0 1)
      then (open_floor, true)
      else if fl.le clamped open_floor
      then (open_floor, false)
      else (fl.decimal 10 1, false)

  unfoldable pub abrupt_transition : MacroGateOutput F → List (RecentMacroRun F) → Bool
  abrupt_transition current [] = false
  abrupt_transition current (prev ∷ history) =
      fl.le (fl.decimal 5 1) (abs (fl.sub current.size_multiplier prev.size_multiplier))

-- The calendar day in KST.
abbrev pub kst_day : Datetime → ℕ
kst_day d = wall_in_kst d / day

abbrev pub is_closed : Gate → Bool
is_closed closed = true
is_closed open_gate = false

-- The query of `_fetch_closed_row_today` over the table of runs, newest first.
module _ {F : Type 0} where
  unfoldable pub closed_row_today :
      List (RecentMacroRun F) → ℕ → Datetime → Option (RecentMacroRun F)
  closed_row_today [] current_id as_of = none
  closed_row_today (row ∷ rows) current_id as_of =
      let rest = closed_row_today rows current_id as_of in
      if is_closed row.gate
        && not (row.macro_run_id == current_id)
        && kst_day row.generated_at == kst_day as_of
      then some row
      else rest

  abbrev pub found : Option (List (RecentMacroRun F) × ℕ × Datetime) → Bool
  found none = false
  found (some (rows, current_id, as_of)) = elim (closed_row_today rows current_id as_of) [
    | none ↦ false
    | some row ↦ true
  ]

-- What `run_post_processing` is called with and reads from its environment. `lookup` is the table of
-- runs with the run's own id and time, `none` where the engine, the id or the time was not given or
-- where the query failed.
pub record PostContext (F : Type 0) : Type 0 where
  pub auto_override_disabled : Bool
  pub reversal_guard_disabled : Bool
  pub paper_mode : Bool
  pub lookup : Option (List (RecentMacroRun F) × ℕ × Datetime)

pub record MacroPostResult (F : Type 0) : Type 0 where
  pub output : MacroGateOutput F
  pub auto_override_applied : Bool
  pub inconsistent_open_zero : Bool
  pub abrupt : Bool
  pub closed_triggers : List Trigger
  pub reversal_latched : Bool
  pub paper_relaxed : Bool

abbrev pub is_empty : List Trigger → Bool
is_empty [] = true
is_empty (t ∷ ts) = false

module _ {F : Type 0} ⦃fl : Float F⦄ where
  abbrev pub close_gate : MacroGateOutput F → MacroGateOutput F
  close_gate o = record { gate = closed; size_multiplier = fl.decimal 0 1 }

  unfoldable pub run_post_processing :
      MacroGateOutput F
      → MarketSnapshot F
      → List (RecentMacroRun F)
      → PostContext F
      → MacroPostResult F
  unfolding closed_row_today
  run_post_processing raw snapshot history c =
      let checked = check_closed_conditions snapshot in
      let triggers = if c.auto_override_disabled then [] else checked in
      let override = not (is_empty triggers) && not (is_closed raw.gate) in
      let overridden = if override then close_gate raw else raw in
      let hit =
        not (is_closed overridden.gate) && not c.reversal_guard_disabled && found c.lookup in
      let latched = hit && not c.paper_mode in
      let current = if latched then close_gate overridden else overridden in
      let (new_size, fired) = discretize_sync current.size_multiplier current.gate in
      let output : MacroGateOutput F = record { gate = current.gate; size_multiplier = new_size } in
      record {
        output = output;
        auto_override_applied = override;
        inconsistent_open_zero = fired;
        abrupt = abrupt_transition output history;
        closed_triggers = triggers;
        reversal_latched = latched;
        paper_relaxed = hit && c.paper_mode;
      }
