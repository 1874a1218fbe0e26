-- ===== src/SlowLoop/Selection.antt =====
-- The deterministic selection of candidates (prime_jennie_runtime/slow_loop/scout/selection.py). Codes
-- are numbers; a set of codes is a list. The rounding of a score to a tenth is an argument, and
-- `sum` is plain addition from the left.
pub mod Survivors
use prime_jennie_runtime.Prelude.{
  ℕ, Bool, true, false, ◌&&◌, ◌||◌, Option, none, some, List, [], ◌∷◌, ◌++◌, last_n, length, ◌==◌,
  if◌then◌else◌,
}
use prime_jennie_runtime.Prelude.Dict.{Dict, lookup, member}
use prime_jennie_runtime.Prelude.Float.{Float, lt}
use prime_jennie_runtime.FastLoop.Indicators.{sum}

abbrev pub in_previous : ℕ → Option (List ℕ) → Bool
in_previous code none = false
in_previous code (some previous) = member code previous

abbrev pub scores_or_empty : {F : Type 0} → Option (List F) → List F
scores_or_empty none = []
scores_or_empty (some scores) = scores

module _ {F : Type 0} ⦃fl : Float F⦄ where
  unfoldable pub compute_ma_scores : (F → F) → Dict F → Dict (List F) → ℕ → Dict F
  unfolding sum lookup
  compute_ma_scores round_to_tenth [] historical window = []
  compute_ma_scores round_to_tenth ((code, current) ∷ scores) historical window =
      let recent = last_n window (scores_or_empty (lookup code historical) ++ current ∷ []) in
      (code, round_to_tenth (fl.div (sum recent) (fl.of_ℕ (length recent))))
      ∷ compute_ma_scores round_to_tenth scores historical window

  -- The branches of the loop: whether the code is appended. A cold start has no previous codes.
  unfoldable pub survives : Option (List ℕ) → F → F → ℕ × F → Bool
  unfolding member
  survives previous entry_threshold exit_threshold (code, ma) =
      if fl.le entry_threshold ma
      then true
      else fl.le exit_threshold ma && in_previous code previous

  unfoldable pub survivors : Option (List ℕ) → F → F → Dict F → Dict F
  unfolding survives
  survivors previous entry_threshold exit_threshold [] = []
  survivors previous entry_threshold exit_threshold (score ∷ scores) =
      let rest = survivors previous entry_threshold exit_threshold scores in
      if survives previous entry_threshold exit_threshold score then score ∷ rest else rest

  -- The stable sort by falling score.
  unfoldable pub place : ℕ × F → Dict F → Dict F
  place score [] = score ∷ []
  place score (other ∷ scores) =
      let rest = place score scores in
      if lt score.1 other.1 then other ∷ rest else score ∷ other ∷ scores

  unfoldable pub sort_falling : Dict F → Dict F
  unfolding place
  sort_falling [] = []
  sort_falling (score ∷ scores) = place score (sort_falling scores)

  unfoldable pub select_with_hysteresis : Option (List ℕ) → F → F → Dict F → Dict F
  unfolding survivors sort_falling
  select_with_hysteresis previous entry_threshold exit_threshold ma_scores =
      sort_falling (survivors previous entry_threshold exit_threshold ma_scores)
