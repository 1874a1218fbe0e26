-- ===== src/FastLoop/Cooldown/Latest.antt =====
-- The stop that the cooldown reports.
use mathlib.Core.List.{Memᴰ}
use prime_jennie_runtime.Prelude.{
  ℕ, ◌≤◌, ◌≡◌, refl, inl, inr, Bool, true, false, Option, none, some, List, [], ◌∷◌, arith,
  Bool-cases, ltb, All, All-map,
}
use prime_jennie_runtime.KisGateway.Schemas.{answered}
use prime_jennie_runtime.SlowLoop.ActiveSheets.{ExecutionRow, Database}
use prime_jennie_runtime.FastLoop.Cooldown.{
  is_recent_stoploss, later, latest, summary, has_recent_stoploss,
}

-- What the query may answer: nothing where no row qualifies, and else a row that does and that no
-- qualifying row is later than.
abbrev pub Reports : (ExecutionRow → Bool) → List ExecutionRow → Option ExecutionRow → Type 0
Reports test rows none = All (λ e. test e ≡ false) rows
Reports test rows (some found) =
    Memᴰ found rows
    × (test found ≡ true)
    × All (λ e. test e ≡ true → e.executed_at ≤ found.executed_at) rows

skip-Reports :
    (test : ExecutionRow → Bool) (e : ExecutionRow) (rows : List ExecutionRow)
    (found : Option ExecutionRow)
    → test e ≡ false
    → Reports test rows found
    → Reports test (e ∷ rows) found
skip-Reports test e rows none out h = (out, h)
skip-Reports test e rows (some found) out (m, q, h) = (Memᴰ.tail m, q, (λ k. absurd (cc), h))

take-Reports :
    (test : ExecutionRow → Bool) (e : ExecutionRow) (rows : List ExecutionRow)
    (found : Option ExecutionRow)
    → test e ≡ true
    → Reports test rows found
    → Reports test (e ∷ rows) (later e found)
take-Reports test e rows none q h =
    (Memᴰ.head refl, q, (λ k. omega arith, All-map (λ d out k. absurd (cc)) rows h))
take-Reports test e rows (some found) q (m, p, h) =
    elim (Bool-cases (ltb e.executed_at found.executed_at)) [
      | inl newer ↦ rw newer (Memᴰ.tail m, p, (λ k. ground (arith, newer), h))
      | inr older ↦ rw older (
        Memᴰ.head refl,
        q,
        (λ k. omega arith, All-map (λ d bound k. ground (arith, older, bound k)) rows h),
      )
    ]

latest-Reports :
    (test : ExecutionRow → Bool) (rows : List ExecutionRow) → Reports test rows (latest test rows)
unfolding latest
latest-Reports test [] = tt
latest-Reports test (e ∷ rows) =
    let rest = latest-Reports test rows in
    elim (Bool-cases (test e)) [
      | inl q ↦ rw (q, latest) (take-Reports test e rows (latest test rows) q rest)
      | inr out ↦ rw (out, latest) (skip-Reports test e rows (latest test rows) out rest)
    ]

-- The cooldown reports a stop of the ticker exactly where one is in the window: where the database
-- answers, the summary is that of a row of executions which is a sale of a sheet of the ticker for one
-- of the stop reasons within the hours of the window, and no such row is later; it is `none` only
-- where no row is such.
pub has_recent_stoploss_lem :
    (window_hours now ticker : ℕ) (db : Database)
    → (found : Option ExecutionRow) × (has_recent_stoploss window_hours now (answered db) ticker
        ≡ answered (summary ticker found))
      × Reports (is_recent_stoploss window_hours now ticker db) db.executions found
unfolding has_recent_stoploss
has_recent_stoploss_lem window_hours now ticker db =
    let test = is_recent_stoploss window_hours now ticker db in
    (latest test db.executions, refl, latest-Reports test db.executions)
