-- ===== src/Examples/Levels.antt =====
-- Three ticks at a profit of 5 % under a sheet that sells half at 4 %.
use prime_jennie_runtime.Prelude.{◌≤◌, none, [], ◌∷◌}
use prime_jennie_runtime.Prelude.Int.{ℤ}
use prime_jennie_runtime.PositionSheet.{PositionSheet, scale_out}
use prime_jennie_runtime.FastLoop.ExitEvaluator.Levels.{Moment, times_decided, level_decided_once}
use prime_jennie_runtime.Examples.Fixed.{fixed_point}
use prime_jennie_runtime.Examples.Exits.{sheet, held, tick_at, percent}

abbrev halves : PositionSheet ℤ
halves = record sheet { rules = scale_out ((percent 4, percent 50) ∷ []) ∷ [] }

abbrev moment : Moment ℤ
moment = record { tick = tick_at 10500; now = none; closes = none; days = 0 }

level_decided_once_example : times_decided 0 halves held (moment ∷ moment ∷ moment ∷ []) ≤ 1
level_decided_once_example = level_decided_once 0 halves held (moment ∷ moment ∷ moment ∷ [])
