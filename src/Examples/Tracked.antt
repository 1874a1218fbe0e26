-- ===== src/Examples/Tracked.antt =====
-- A position that is registered, changed without being saved, and held beside one that is closed.
use prime_jennie_runtime.Prelude.{◌≡◌, refl, true, false, List, [], ◌∷◌}
use prime_jennie_runtime.Prelude.Int.{ℤ}
use prime_jennie_runtime.Prelude.Dict.{is_some, member}
use prime_jennie_runtime.FastLoop.Domain.{PositionState}
use prime_jennie_runtime.FastLoop.PositionTracker.{
  new_tracker, get, active_sheet_ids, sheet_ids_for, load_from_redis,
}
use prime_jennie_runtime.FastLoop.PositionTracker.Specification.{
  Call, registers, closes, changes, run, promised, no_positions, is_of,
}
use prime_jennie_runtime.FastLoop.PositionTracker.Restart.{tracker_refines}
use prime_jennie_runtime.Examples.Exits.{held}

abbrev other : PositionState ℤ
other = record held { sheet_id = 2 }

abbrev calls : List (Call ℤ)
calls =
    registers true held
    ∷ registers true other
    ∷ changes 1 (λ s. record s { trailing_active = true })
    ∷ closes false 2
    ∷ []

tracker_refines_example :
    let t = run (new_tracker []) calls in
    let p = promised no_positions calls in
    (get 1 t ≡ p.live 1)
    × (member 1 (active_sheet_ids t) ≡ is_some (p.live 1))
    × (member 1 (sheet_ids_for 5930 t) ≡ is_of 5930 (p.live 1))
    × (get 1 (load_from_redis (new_tracker t.redis)) ≡ p.saved 1)
tracker_refines_example =
    tracker_refines (λ id. 5930) calls 5930 1 (refl, (refl, ((λ s. (refl, refl)), (tt, tt))))
