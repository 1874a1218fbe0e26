-- ===== src/FastLoop/RiskThrottle/Recovery.antt =====
-- How long a recovery takes, whatever Redis loses on the way.
use prime_jennie_runtime.Prelude.{
  ℕ, ◌+◌, ◌*◌, ◌≤◌, ◌≡◌, refl, sym, ap, ◌∙◌, Option, List, [], ◌∷◌, arith,
}
use prime_jennie_runtime.Prelude.Float.{Float}
use prime_jennie_runtime.Prelude.Time.{seconds}
use prime_jennie_runtime.FastLoop.RiskThrottle.{
  Level, required, StoredLevel, StoredTimer, no_level, unknown_level, level, no_timer,
  damaged_timer, started, normal, caution, warning, danger, critical, apply_recovery_logic,
  effective_raw, known_or, Throttle, update,
}

-- The time that the source asks for between a level and `normal`.
abbrev pub owed : Level → ℕ
owed normal = 0
owed caution = required caution
owed warning = required warning + required caution
owed danger = required danger + required warning + required caution
owed critical = required critical + required danger + required warning + required caution

-- What happens to a throttle: an update, or a key of Redis that expires or is damaged.
pub data Event (F : Type 0) : Type 0 where
  updates : (kospi : F) (vix sox : Option F) → Event F
  loses_level damages_level loses_timer damages_timer : Event F

abbrev with_level : {F : Type 0} → StoredLevel → Throttle F → Throttle F
with_level l s = record s {
  redis = record { stored_level = l; recovery_start = s.redis.recovery_start };
}

abbrev with_timer : {F : Type 0} → StoredTimer → Throttle F → Throttle F
with_timer t s = record s {
  redis = record { stored_level = s.redis.stored_level; recovery_start = t };
}

abbrev Agrees : Level → StoredLevel → Type 0
Agrees l no_level = Unit {0}
Agrees l unknown_level = Unit {0}
Agrees l (level k) = k ≡ l

-- What has been waited so far covers the levels that were given up.
abbrev Covers : ℕ → ℕ → Level → StoredTimer → Type 0
Covers debt now l no_timer = debt ≤ owed l + now
Covers debt now l damaged_timer = debt ≤ owed l + now
Covers debt now l (started at) = (at ≤ now) × (debt ≤ owed l + at)

known_or-Agrees : (l : Level) (st : StoredLevel) → Agrees l st → known_or l st ≡ l
known_or-Agrees l no_level h = refl
known_or-Agrees l unknown_level h = refl
known_or-Agrees l (level k) h = h

Covers-later :
    (debt now later : ℕ) (l : Level) (t : StoredTimer)
    → now ≤ later
    → Covers debt now l t
    → Covers debt later l t
Covers-later debt now later l no_timer h c = omega arith
Covers-later debt now later l damaged_timer h c = omega arith
Covers-later debt now later l (started at) h c = omega arith

Covers-forget :
    (debt now : ℕ) (l : Level) (t : StoredTimer) → Covers debt now l t → debt ≤ owed l + now
Covers-forget debt now l no_timer h = h
Covers-forget debt now l damaged_timer h = h
Covers-forget debt now l (started at) h = omega arith

module _ {F : Type 0} ⦃fl : Float F⦄ where
  recover-Covers :
      (debt now : ℕ) (prev raw : Level) (m : F) (timer : StoredTimer)
      → Covers debt now prev timer
      → let (applied, timer') = apply_recovery_logic prev raw m now timer in
        Covers debt now applied.0 timer'
  unfolding apply_recovery_logic
  recover-Covers debt now normal raw m timer h = ground arith
  recover-Covers debt now caution raw m timer h = ground arith
  recover-Covers debt now warning raw m timer h = ground arith
  recover-Covers debt now danger raw m timer h = ground arith
  recover-Covers debt now critical raw m timer h = ground arith

  unfoldable step : ℕ → Event F → Throttle F → Throttle F
  step now (updates kospi vix sox) s = (update s kospi vix sox now).0
  step now loses_level s = with_level no_level s
  step now damages_level s = with_level unknown_level s
  step now loses_timer s = with_timer no_timer s
  step now damages_timer s = with_timer damaged_timer s

  -- Each event comes `wait` after the one before it. The result has the time of the last one.
  unfoldable pub run : ℕ → Throttle F → List (ℕ × Event F) → ℕ × Throttle F
  unfolding step
  run now s [] = (now, s)
  run now s ((wait, e) ∷ es) = run (now + wait) (step (now + wait) e s) es

  abbrev Owes : ℕ → ℕ → Throttle F → Type 0
  Owes debt now s =
      Agrees s.current_level s.redis.stored_level
      × Covers debt now s.current_level s.redis.recovery_start

  update-Owes :
      (debt now : ℕ) (kospi : F) (vix sox : Option F) (s : Throttle F)
      → Owes debt now s
      → Owes debt now (update s kospi vix sox now).0
  unfolding update
  update-Owes debt now kospi vix sox s (agrees, covers) =
      rw (known_or-Agrees s.current_level s.redis.stored_level agrees, update)
        (
          refl,
          recover-Covers debt now s.current_level (effective_raw kospi vix sox).0
              (effective_raw kospi vix sox).1 s.redis.recovery_start covers,
        )

  step-Owes :
      (debt now : ℕ) (e : Event F) (s : Throttle F) → Owes debt now s → Owes debt now (step now e s)
  unfolding step
  step-Owes debt now (updates k v x) s h = update-Owes debt now k v x s h
  step-Owes debt now loses_level s h = (tt, h.1)
  step-Owes debt now damages_level s h = (tt, h.1)
  step-Owes debt now loses_timer s h =
      (h.0, Covers-forget debt now s.current_level s.redis.recovery_start h.1)
  step-Owes debt now damages_timer s h =
      (h.0, Covers-forget debt now s.current_level s.redis.recovery_start h.1)

  run-Owes :
      (debt now : ℕ) (es : List (ℕ × Event F)) (s : Throttle F)
      → Owes debt now s
      → Owes debt (run now s es).0 (run now s es).1
  unfolding run
  run-Owes debt now [] s h = h
  run-Owes debt now ((wait, e) ∷ es) s h = run-Owes debt (now + wait) es (step (now + wait) e s) (
      step-Owes debt (now + wait) e s
        (h.0, Covers-later debt now (now + wait) _ s.redis.recovery_start (omega arith) h.1))

  -- Recovery takes its time: in any run of updates, with Redis losing or damaging its two keys
  -- between them at will, what the source asks to wait from the first level down to `normal` is at
  -- most what it asks from the last level, plus the time that passed. The run begins with no timer
  -- running and Redis holding no other level than the cached one.
  pub recovery_takes_time :
      (now : ℕ) (s : Throttle F) (es : List (ℕ × Event F))
      → s.redis.stored_level ≡ level s.current_level
      → s.redis.recovery_start ≡ no_timer
      → owed s.current_level + now ≤ owed (run now s es).1.current_level + (run now s es).0
  recovery_takes_time now s es agrees fresh =
      Covers-forget (owed s.current_level + now) (run now s es).0 (run now s es).1.current_level
        (run now s es).1.redis.recovery_start
        (run-Owes (owed s.current_level + now) now es s (rw agrees refl, rw fresh (omega arith))).1

  -- So a throttle at `critical` is back at `normal` after 65 minutes at the earliest.
  pub critical_to_normal :
      (now : ℕ) (s : Throttle F) (es : List (ℕ × Event F))
      → s.redis.stored_level ≡ level critical
      → s.current_level ≡ critical
      → s.redis.recovery_start ≡ no_timer
      → (run now s es).1.current_level ≡ normal
      → now + seconds (65 * 60) ≤ (run now s es).0
  critical_to_normal now s es agrees from fresh to =
      let taken = recovery_takes_time now s es (agrees ∙ ap level (sym from)) fresh in
      ground (arith, taken)
