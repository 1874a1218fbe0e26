-- ===== src/FastLoop/RiskThrottle/Levels.antt =====
-- How the market's readings set the level.
use prime_jennie_runtime.Prelude.{ℕ, ◌+◌, ◌≤◌, ◌⊎◌, ◌≡◌, refl, inl, inr, true, Option, some, arith}
use prime_jennie_runtime.Prelude.Float.{Float, neg}
use prime_jennie_runtime.FastLoop.RiskThrottle.{
  Level, severity, level_multiplier, calc_intraday_multiplier, apply_sox_floor, sox_floor, worse,
  effective_raw, update, value_or_zero, Throttle, normal, caution, warning, danger, critical,
  recover, StoredTimer, known_or, level, apply_recovery_logic,
}

same_severity : (a b : Level) → severity a ≡ severity b → a ≡ b
same_severity a b h = ground arith

worse_lem :
    (a b : Level) → (severity a ≤ severity (worse a b)) × (severity b ≤ severity (worse a b))
worse_lem a b = ground arith

module _ {F : Type 0} ⦃fl : Float F⦄ where
  -- The market asks for the level: by the fall of the KOSPI over the day, by the VIX, or by the fall
  -- of the SOX over night.
  abbrev pub Asks : F → Option F → Option F → Level → Type 0
  Asks kospi vix sox critical = fl.le kospi (neg (fl.decimal 40 1)) ≡ true
  Asks kospi vix sox danger =
      (fl.le kospi (neg (fl.decimal 30 1)) ≡ true)
      ⊎ ((v : F) × (vix ≡ some v) × (fl.le (fl.of_ℕ 40) v ≡ true))
  Asks kospi vix sox warning =
      (fl.le kospi (neg (fl.decimal 20 1)) ≡ true)
      ⊎ ((v : F) × (vix ≡ some v) × (fl.le (fl.of_ℕ 35) v ≡ true))
      ⊎ ((x : F) × (sox ≡ some x) × (fl.le x (neg (fl.decimal 30 1)) ≡ true))
  Asks kospi vix sox caution =
      (fl.le kospi (neg (fl.decimal 10 1)) ≡ true)
      ⊎ ((v : F) × (vix ≡ some v) × (fl.le (fl.of_ℕ 30) v ≡ true))
      ⊎ ((x : F) × (sox ≡ some x) × (fl.le x (neg (fl.decimal 20 1)) ≡ true))
  Asks kospi vix sox normal = Unit {0}

  heeds :
      (kospi : F) (vix sox : Option F) (l : Level)
      → Asks kospi vix sox l
      → (severity l ≤ severity (calc_intraday_multiplier kospi (value_or_zero vix)).0)
        ⊎ (severity l ≤ severity (sox_floor sox))
  unfolding calc_intraday_multiplier sox_floor
  heeds kospi vix sox critical h = inl (ground arith)
  heeds kospi vix sox danger (inl h) = inl (ground arith)
  heeds kospi vix sox danger (inr (v, is, h)) = inl (ground arith)
  heeds kospi vix sox warning (inl h) = inl (ground arith)
  heeds kospi vix sox warning (inr (inl (v, is, h))) = inl (ground arith)
  heeds kospi vix sox warning (inr (inr (x, is, h))) = inr (ground arith)
  heeds kospi vix sox caution (inl h) = inl (ground arith)
  heeds kospi vix sox caution (inr (inl (v, is, h))) = inl (ground arith)
  heeds kospi vix sox caution (inr (inr (x, is, h))) = inr (ground arith)
  heeds kospi vix sox normal h = inl (omega arith)

  effective_heeds :
      (kospi : F) (vix sox : Option F) (l : Level)
      → Asks kospi vix sox l
      → severity l ≤ severity (effective_raw kospi vix sox).0
  unfolding effective_raw apply_sox_floor
  effective_heeds kospi vix sox l h =
      let raw = (calc_intraday_multiplier kospi (value_or_zero vix)).0 in
      let (floor, asked) = worse_lem (sox_floor sox) raw in
      elim (heeds kospi vix sox l h) [
        | inl by_raw ↦ omega (arith, by_raw, asked)
        | inr by_floor ↦ omega (arith, by_floor, floor)
      ]

  calc_multiplier :
      (kospi vix : F)
      → (calc_intraday_multiplier kospi vix).1
        ≡ level_multiplier (calc_intraday_multiplier kospi vix).0
  unfolding calc_intraday_multiplier
  calc_multiplier kospi vix = ground arith

  effective_multiplier :
      (kospi : F) (vix sox : Option F)
      → (effective_raw kospi vix sox).1 ≡ level_multiplier (effective_raw kospi vix sox).0
  unfolding effective_raw
  effective_multiplier kospi vix sox = ground (
    arith,
    calc_multiplier kospi (value_or_zero vix),
    same_severity (apply_sox_floor (calc_intraday_multiplier kospi (value_or_zero vix)).0 sox)
        (calc_intraday_multiplier kospi (value_or_zero vix)).0,
  )

  recover_steps :
      (now : ℕ) (prev : Level) (timer : StoredTimer)
      → ((recover {F = F} now prev timer).0.1
          ≡ level_multiplier (recover {F = F} now prev timer).0.0)
        × (severity (recover {F = F} now prev timer).0.0 ≤ severity prev)
        × (severity prev ≤ severity (recover {F = F} now prev timer).0.0 + 1)
  unfolding recover
  recover_steps now normal timer = ground arith
  recover_steps now caution timer = ground arith
  recover_steps now warning timer = ground arith
  recover_steps now danger timer = ground arith
  recover_steps now critical timer = ground arith

  apply_steps :
      (now : ℕ) (prev raw : Level) (mult : F) (timer : StoredTimer)
      → mult ≡ level_multiplier raw
      → let (applied, mult') = (apply_recovery_logic prev raw mult now timer).0 in
        (severity raw ≤ severity applied)
        × (severity prev ≤ severity applied + 1)
        × (mult' ≡ level_multiplier applied)
  unfolding apply_recovery_logic
  apply_steps now prev raw mult timer same = ground (arith, recover_steps now prev timer)

  -- Whatever level the market asks for, by the KOSPI, the VIX or the SOX, an update leaves the
  -- throttle at that level or a heavier one, and at most one level below the one before, as
  -- Redis, or without it the cache, has it; the cached multiplier is that of the new level,
  -- Redis holds that level, and the result names it.
  pub update_heeds :
      (s : Throttle F) (kospi : F) (vix sox : Option F) (now : ℕ) (l : Level)
      → Asks kospi vix sox l
      → let (s', r) = update s kospi vix sox now in
        (severity l ≤ severity s'.current_level)
        × (severity (known_or s.current_level s.redis.stored_level) ≤ severity s'.current_level + 1)
        × (s'.current_mult ≡ level_multiplier s'.current_level)
        × (s'.redis.stored_level ≡ level s'.current_level)
        × (r.level ≡ s'.current_level)
  unfolding update
  update_heeds s kospi vix sox now l asks =
      let raw = effective_raw kospi vix sox in
      let heeded = effective_heeds kospi vix sox l asks in
      let (up, down, same) =
        apply_steps now (known_or s.current_level s.redis.stored_level) raw.0 raw.1
          s.redis.recovery_start (effective_multiplier kospi vix sox) in
      (omega (arith, up, heeded), down, same, refl, refl)
