-- ===== src/Examples/Throttle.antt =====
-- A throttle at `critical`, in a market that has calmed.
use prime_jennie_runtime.Prelude.{ℕ, ◌+◌, ◌≤◌, ◌≡◌, inr, refl, none, some, List, [], ◌∷◌}
use prime_jennie_runtime.Prelude.Int.{ℤ, ◌+ℤ◌, ◌-ℤ◌, ◌*ℤ◌}
use prime_jennie_runtime.Prelude.Float.{neg}
use prime_jennie_runtime.FastLoop.RiskThrottle.Levels.{update_heeds}
use prime_jennie_runtime.Prelude.Time.{seconds}
use prime_jennie_runtime.FastLoop.RiskThrottle.{
  Throttle, level, no_timer, critical, warning, normal, severity, level_multiplier, update,
}
use prime_jennie_runtime.FastLoop.RiskThrottle.Recovery.{
  Event, updates, loses_level, owed, run, recovery_takes_time,
}
use prime_jennie_runtime.Examples.Fixed.{fixed_point, won}

abbrev halted : Throttle ℤ
halted = record {
  current_level = critical;
  current_mult = won 0;
  redis = record { stored_level = level critical; recovery_start = no_timer };
}

abbrev calm : Event ℤ
calm = updates (won 0) (some (won 15)) none

-- 65 minutes of readings, the stored level being lost once on the way.
abbrev hour_of_calm : List (ℕ × Event ℤ)
hour_of_calm =
    (0, calm)
    ∷ (seconds 1800, calm)
    ∷ (0, loses_level)
    ∷ (seconds 1200, calm)
    ∷ (seconds 600, calm)
    ∷ (seconds 300, calm)
    ∷ []

calm_recovers : (run 0 halted hour_of_calm).1.current_level ≡ normal
unfolding run update ◌+ℤ◌ ◌-ℤ◌ ◌*ℤ◌
calm_recovers = refl

recovery_takes_time_example :
    owed critical + 0
    ≤ owed (run 0 halted hour_of_calm).1.current_level + (run 0 halted hour_of_calm).0
recovery_takes_time_example = recovery_takes_time 0 halted hour_of_calm refl refl

-- A SOX that fell by 3 % over night, and the wait at `critical` not over.
update_heeds_example :
    let (s', r) = update halted (won 0) (some (won 15)) (some (neg (won 3))) (seconds 10) in
    (severity warning ≤ severity s'.current_level)
    × (severity critical ≤ severity s'.current_level + 1)
    × (s'.current_mult ≡ level_multiplier s'.current_level)
    × (s'.redis.stored_level ≡ level s'.current_level)
    × (r.level ≡ s'.current_level)
unfolding ◌-ℤ◌ ◌*ℤ◌
update_heeds_example =
    update_heeds halted (won 0) (some (won 15)) (some (neg (won 3))) (seconds 10) warning
      (inr (inr (neg (won 3), refl, refl)))
