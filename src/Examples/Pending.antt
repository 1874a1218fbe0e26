-- ===== src/Examples/Pending.antt =====
-- Two sheets in a queue, one of them removed again.
use prime_jennie_runtime.Prelude.{◌+◌, ◌≤◌, ◌≡◌, refl, true, some, List, [], ◌∷◌}
use prime_jennie_runtime.Prelude.Int.{ℤ}
use prime_jennie_runtime.Prelude.Dict.{lookup}
use prime_jennie_runtime.Prelude.Time.{instant}
use prime_jennie_runtime.PositionSheet.{PositionSheet}
use prime_jennie_runtime.FastLoop.PendingEntry.{empty_queue, load_from_redis}
use prime_jennie_runtime.FastLoop.PendingEntry.Index.{
  Call, adds, removes, run, IsIndexed, run-IsIndexed,
}
use prime_jennie_runtime.FastLoop.PendingEntry.Backup.{restart_restores}
use prime_jennie_runtime.Examples.Exits.{sheet}

abbrev other : PositionSheet ℤ
other = record sheet { sheet_id = 2 }

abbrev calls : List (Call ℤ)
calls = adds (some 0) sheet ∷ adds (some 0) other ∷ removes true 1 ∷ []

run-IsIndexed_example : IsIndexed (run (empty_queue []) calls)
run-IsIndexed_example = run-IsIndexed [] calls

restart_restores_example :
    let q = run (empty_queue []) calls in
    let fresh = load_from_redis 5 (empty_queue q.redis) in
    (lookup 2 q.sheets ≡ some other
      → 5 + 1_000_000 ≤ instant other.entry.valid_until
      → lookup 2 fresh.sheets ≡ some other)
    × (lookup 2 fresh.sheets ≡ some other → lookup 2 q.sheets ≡ some other)
restart_restores_example = restart_restores calls 5 2 other (refl, (refl, (refl, tt)))
