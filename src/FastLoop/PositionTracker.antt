-- ===== src/FastLoop/PositionTracker.antt =====
-- The tracker of open positions (prime_jennie_runtime/fast_loop/position_tracker.py). Each method runs
-- to its end before the next one; `redis_up` says whether its call of Redis goes through, and an
-- exception leaves the memory as it stands then. The JSON text of a state and the ISO texts of its
-- times read back as they were written, so what is stored is the state with its set as a sorted list;
-- a payload that does not decode is `none`.
pub mod Specification
pub mod Refinement
pub mod Restart
use prime_jennie_runtime.Prelude.{ℕ, Bool, Option, none, some, List, [], ◌∷◌, map, if◌then◌else◌}
use prime_jennie_runtime.Prelude.Dict.{Dict, is_some, lookup, insert, erase, sorted}
use prime_jennie_runtime.FastLoop.Domain.{PositionState}
use prime_jennie_runtime.FastLoop.PendingEntry.{ids_of, is_empty, index, unindex}

pub record Tracker (F : Type 0) : Type 0 where
  pub states : Dict (PositionState F)
  pub by_ticker : Dict (List ℕ)
  pub redis : Dict (Option (PositionState F))

unfoldable pub tickers_with_ids : Dict (List ℕ) → List ℕ
tickers_with_ids [] = []
tickers_with_ids ((ticker, ids) ∷ rest) =
    let others = tickers_with_ids rest in if is_empty ids then others else ticker ∷ others

module _ {F : Type 0} where
  -- A tracker over what Redis holds.
  unfoldable pub new_tracker : Dict (Option (PositionState F)) → Tracker F
  new_tracker redis = record { states = []; by_ticker = []; redis = redis }

  unfoldable pub get : ℕ → Tracker F → Option (PositionState F)
  unfolding lookup
  get sheet_id t = lookup sheet_id t.states

  unfoldable pub sheet_ids_for : ℕ → Tracker F → List ℕ
  unfolding sorted
  sheet_ids_for ticker t = sorted (ids_of ticker t.by_ticker)

  unfoldable pub active_sheet_ids : Tracker F → List ℕ
  unfolding sorted
  active_sheet_ids t = sorted (map (λ e. e.0) t.states)

  unfoldable pub tickers_active : Tracker F → List ℕ
  unfolding sorted tickers_with_ids
  tickers_active t = sorted (tickers_with_ids t.by_ticker)

  -- `_encode_state`, read back by `_decode_state`.
  unfoldable pub encode_state : PositionState F → PositionState F
  unfolding sorted
  encode_state s = record s { scale_out_executed = sorted s.scale_out_executed }

  -- `_persist`
  unfoldable pub persist_state :
      Bool → PositionState F → Dict (Option (PositionState F)) → Dict (Option (PositionState F))
  unfolding encode_state insert
  persist_state redis_up s redis =
      if redis_up then insert s.sheet_id (some (encode_state s)) redis else redis

  unfoldable pub register : Bool → PositionState F → Tracker F → Tracker F
  unfolding persist_state index
  register redis_up s t = record {
    states = insert s.sheet_id s t.states;
    by_ticker = index s.ticker s.sheet_id t.by_ticker;
    redis = persist_state redis_up s t.redis;
  }

  unfoldable pub persist : Bool → ℕ → Tracker F → Tracker F
  unfolding persist_state
  persist redis_up sheet_id t = elim (lookup sheet_id t.states) [
    | none ↦ t
    | some s ↦ record t { redis = persist_state redis_up s t.redis }
  ]

  unfoldable pub close : Bool → ℕ → Tracker F → Tracker F
  unfolding unindex erase
  close redis_up sheet_id t = elim (lookup sheet_id t.states) [
    | none ↦ t
    | some s ↦ record {
      states = erase sheet_id t.states;
      by_ticker = unindex s.ticker sheet_id t.by_ticker;
      redis = if redis_up then erase sheet_id t.redis else t.redis;
    }
  ]

  -- What a caller does to the state that it got, which is the tracker's own object.
  unfoldable pub change : ℕ → (PositionState F → PositionState F) → Tracker F → Tracker F
  change sheet_id f t = elim (lookup sheet_id t.states) [
    | none ↦ t
    | some s ↦ record t { states = insert sheet_id (f s) t.states }
  ]

  -- The loop of `load_from_redis` over the keys that the scan returns.
  unfoldable pub load : Dict (Option (PositionState F)) → Tracker F → Tracker F
  load [] t = t
  load ((key, none) ∷ rest) t = load rest t
  load ((key, some s) ∷ rest) t = load rest (record t {
    states = insert s.sheet_id s t.states;
    by_ticker = index s.ticker s.sheet_id t.by_ticker;
  })

  unfoldable pub load_from_redis : Tracker F → Tracker F
  unfolding load
  load_from_redis t = load t.redis t
