-- ===== src/FastLoop/PositionTracker/Specification.antt =====
-- What a tracker promises: two maps, of the live positions and of the saved ones.
use prime_jennie_runtime.Prelude.{
  ℕ, ◌≡◌, Bool, false, Option, none, some, List, [], ◌∷◌, ◌==◌, if◌then◌else◌,
}
use prime_jennie_runtime.FastLoop.Domain.{PositionState}
use prime_jennie_runtime.FastLoop.PositionTracker.{
  Tracker, encode_state, register, persist, close, change,
}

-- The calls on a tracker, each with whether Redis answers, and the changes between them.
pub data Call (F : Type 0) : Type 0 where
  registers : Bool → PositionState F → Call F
  persists closes : Bool → ℕ → Call F
  changes : ℕ → (PositionState F → PositionState F) → Call F

pub record Positions (F : Type 0) : Type 0 where
  pub live : ℕ → Option (PositionState F)
  pub saved : ℕ → Option (PositionState F)

module _ {F : Type 0} where
  abbrev pub call : Call F → Tracker F → Tracker F
  call (registers up s) t = register up s t
  call (persists up i) t = persist up i t
  call (closes up i) t = close up i t
  call (changes i f) t = change i f t

  unfoldable pub run : Tracker F → List (Call F) → Tracker F
  run t [] = t
  run t (c ∷ calls) = run (call c t) calls

  abbrev pub put :
      ℕ → Option (PositionState F) → (ℕ → Option (PositionState F)) → ℕ → Option (PositionState F)
  put i o m j = if j == i then o else m j

  abbrev pub apply :
      (PositionState F → PositionState F) → Option (PositionState F) → Option (PositionState F)
  apply f none = none
  apply f (some s) = some (f s)

  -- What a call promises. A position is saved when it is registered and when it is persisted, if Redis
  -- answers; a change is not saved by itself; a closed position is forgotten by both maps, by the
  -- saved one if Redis answers.
  abbrev pub specified : Call F → Positions F → Positions F
  specified (registers up s) p = record {
    live = put s.sheet_id (some s) p.live;
    saved = if up then put s.sheet_id (some (encode_state s)) p.saved else p.saved;
  }
  specified (persists up i) p = record {
    live = p.live;
    saved = elim (p.live i) [
      | none ↦ p.saved
      | some s ↦ if up then put i (some (encode_state s)) p.saved else p.saved
    ];
  }
  specified (closes up i) p = record {
    live = put i none p.live;
    saved = elim (p.live i) [
      | none ↦ p.saved
      | some s ↦ if up then put i none p.saved else p.saved
    ];
  }
  specified (changes i f) p = record { live = put i (apply f (p.live i)) p.live; saved = p.saved }

  abbrev pub no_positions : Positions F
  no_positions = record { live = λ i. none; saved = λ i. none }

  unfoldable pub promised : Positions F → List (Call F) → Positions F
  promised p [] = p
  promised p (c ∷ calls) = promised (specified c p) calls

  abbrev pub is_of : ℕ → Option (PositionState F) → Bool
  is_of ticker none = false
  is_of ticker (some s) = s.ticker == ticker

  -- A sheet has one ticker, and a change touches neither its id nor its ticker.
  abbrev pub IsLawful : (ℕ → ℕ) → Call F → Type 0
  IsLawful ticker_of (registers up s) = s.ticker ≡ ticker_of s.sheet_id
  IsLawful ticker_of (persists up i) = Unit {0}
  IsLawful ticker_of (closes up i) = Unit {0}
  IsLawful ticker_of (changes i f) =
      (s : PositionState F) → ((f s).sheet_id ≡ s.sheet_id) × ((f s).ticker ≡ s.ticker)
