-- ===== src/Examples/Selected.antt =====
-- Three candidates, one of them kept from the previous selection.
use mathlib.Core.List.{Mem}
use prime_jennie_runtime.Prelude.{ℕ, ◌≡◌, ◌↔◌, ◌⊎◌, true, Option, some, List, [], ◌∷◌}
use prime_jennie_runtime.Prelude.Int.{ℤ}
use prime_jennie_runtime.Prelude.Dict.{Dict}
use prime_jennie_runtime.SlowLoop.Selection.{in_previous, select_with_hysteresis}
use prime_jennie_runtime.SlowLoop.Selection.Survivors.{Falling, selection_keeps}
use prime_jennie_runtime.Examples.Fixed.{fixed_point, won, thousandths}

abbrev scores : Dict ℤ
scores = (1, won 70) ∷ (2, won 71) ∷ (3, won 75) ∷ []

abbrev previous : Option (List ℕ)
previous = some (2 ∷ [])

selection_keeps_example :
    (Mem
        (2, won 71)
        (select_with_hysteresis previous (thousandths 72500) (thousandths 68500) scores)
      ↔ (Mem (2, won 71) scores
          × ((fixed_point.le (thousandths 72500) (won 71) ≡ true)
              ⊎ ((fixed_point.le (thousandths 68500) (won 71) ≡ true)
                  × (in_previous 2 previous ≡ true)))))
    × Falling (select_with_hysteresis previous (thousandths 72500) (thousandths 68500) scores)
selection_keeps_example =
    selection_keeps previous (thousandths 72500) (thousandths 68500) scores (2, won 71)
