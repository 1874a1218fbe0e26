-- ===== src/SlowLoop/SheetTimes.antt =====
-- How long a sheet and its entry stay valid (prime_jennie_runtime/slow_loop/strategy/engine.py,
-- `_sheet_valid_until` and `_entry_valid_until`). `generated_at` is an aware time.
use prime_jennie_runtime.Prelude.{
  ℕ, ◌+◌, ◌-◌, ◌%◌, ◌≤◌, ◌≡◌, ◌↔◌, ◌⊎◌, none, some, arith, ltb, leb, if◌then◌else◌,
}
use prime_jennie_runtime.Prelude.Time.{Datetime, day, seconds, time, kst_offset, wall_in_kst}
use prime_jennie_runtime.PositionSheet.Validation.{check_times}

-- `kst_gen.replace(hour=15, minute=30, second=0, microsecond=0)`
abbrev pub end_of_day : ℕ → ℕ
end_of_day kst_gen = kst_gen - kst_gen % day + time 15 30

abbrev pub in_kst : ℕ → Datetime
in_kst wall = record { wall = wall; offset = some kst_offset }

unfoldable pub sheet_valid_until : Datetime → Datetime
sheet_valid_until generated_at =
    let kst_gen = wall_in_kst generated_at in
    let eod = end_of_day kst_gen in in_kst (if leb eod kst_gen then kst_gen + seconds 60 else eod)

unfoldable pub entry_valid_until : Datetime → Datetime
entry_valid_until generated_at =
    let kst_gen = wall_in_kst generated_at in
    let one_hour = kst_gen + seconds 3600 in
    let eod = end_of_day kst_gen in
    let candidate = if ltb eod one_hour then eod else one_hour in
    in_kst (if ltb candidate (kst_gen + seconds 60) then kst_gen + seconds 60 else candidate)

-- The times that the engine gives a sheet pass the checks of the schema exactly when the sheet is
-- generated by 15:29:00 in Korea, or in the last minute before midnight.
pub sheet_times_fit :
    (wall offset : ℕ)
    → (check_times
          (record { wall = wall; offset = some offset })
          (sheet_valid_until (record { wall = wall; offset = some offset }))
          (entry_valid_until (record { wall = wall; offset = some offset }))
        ≡ none)
      ↔ ((wall_in_kst (record { wall = wall; offset = some offset }) % day ≤ time 15 29)
          ⊎ (time 23 59 ≤ wall_in_kst (record { wall = wall; offset = some offset }) % day))
unfolding sheet_valid_until entry_valid_until
sheet_times_fit wall offset = ground arith
