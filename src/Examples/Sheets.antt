-- ===== src/Examples/Sheets.antt =====
-- A valid sheet.
use prime_jennie_runtime.Prelude.{ℕ, ◌+◌, ◌*◌, ◌≡◌, refl, Bool, true, none, some, [], ◌∷◌}
use prime_jennie_runtime.Prelude.Int.{ℤ, ◌+ℤ◌, ◌-ℤ◌, ◌*ℤ◌}
use prime_jennie_runtime.Prelude.Time.{Datetime, kst_offset, day, time}
use prime_jennie_runtime.PositionSheet.{PositionSheet, eod, fixed_sl, time_stop, limit}
use prime_jennie_runtime.PositionSheet.Validation.{
  validate_all, check_size, check_entry, check_rules, any_rule,
}
use prime_jennie_runtime.PositionSheet.Validation.Contents.{valid_sheet_stops}
use prime_jennie_runtime.FastLoop.Domain.{ExitDecision}
use prime_jennie_runtime.FastLoop.ExitEvaluator.{evaluate}
use prime_jennie_runtime.Examples.Fixed.{fixed_point, won}
use prime_jennie_runtime.Examples.Exits.{sheet, held, tick_at, percent, breakeven_rule}

abbrev pub at : ℕ → ℕ → Datetime
at h m = record { wall = 20500 * day + time h m; offset = some kst_offset }

abbrev pub morning_sheet : PositionSheet ℤ
morning_sheet = record sheet {
  generated_at = at 10 0;
  valid_until = at 15 20;
  entry = record {
    trigger = limit;
    price = some (won 10000);
    valid_until = at 15 0;
    conditions = [];
  };
  rules = breakeven_rule ∷ fixed_sl (percent 5) ∷ time_stop eod none ∷ [];
}

abbrev pub any_id : ℕ → Bool
any_id id = true

pub morning_sheet_valid : validate_all any_id morning_sheet ≡ none
unfolding validate_all check_size check_entry check_rules any_rule ◌+ℤ◌ ◌-ℤ◌ ◌*ℤ◌
morning_sheet_valid = refl

valid_sheet_stops_example :
    (d : ExitDecision ℤ) × ((evaluate morning_sheet held (tick_at 9400) none none 0).0 ≡ some d)
    × (d.should_close ≡ true)
unfolding ◌+ℤ◌ ◌-ℤ◌ ◌*ℤ◌
valid_sheet_stops_example =
    valid_sheet_stops any_id morning_sheet held (tick_at 9400) none none 0 morning_sheet_valid
      (refl, tt, (refl, (tt, (tt, tt))))
