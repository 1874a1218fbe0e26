-- ===== src/FastLoop/PendingEntry.antt =====
-- The queue of sheets that wait for their entry conditions
-- (prime_jennie_runtime/fast_loop/pending_entry.py, `PendingEntryQueue`). Each method runs to its end
-- before the next one. What Redis answers enters as an argument: whether its calls go through, and for
-- `add` the instant in microseconds at which it persists, `none` where that fails. Of
-- Redis the model keeps the keys `pending_entry:{sheet_id}`; the ticker sets there are written and
-- never read. A payload that no longer validates is `none`.
pub mod Index
pub mod Backup
pub mod AtMostOne
use Prim.Native.Nat.{max}
use prime_jennie_runtime.Prelude.{
  ℕ, suc, ◌+◌, ◌-◌, ◌*◌, ◌/◌, leb, Bool, true, false, Option, none, some, List, [], ◌∷◌, map,
  length, if◌then◌else◌,
}
use prime_jennie_runtime.Prelude.Dict.{Dict, is_some, lookup, insert, erase, add, discard, sorted}
use prime_jennie_runtime.Prelude.Time.{Datetime, instant, at_or_before}
use prime_jennie_runtime.PositionSheet.{PositionSheet}

-- A key of Redis: its payload, and the instant at which it expires.
pub record Saved (F : Type 0) : Type 0 where
  pub payload : Option (PositionSheet F)
  pub expires_at : ℕ

pub record Queue (F : Type 0) : Type 0 where
  pub sheets : Dict (PositionSheet F)
  pub by_ticker : Dict (List ℕ)
  pub redis : Dict (Saved F)

-- `self._by_ticker.get(ticker)`, an absent set read as the empty one.
abbrev pub or_empty : Option (List ℕ) → List ℕ
or_empty none = []
or_empty (some ids) = ids

abbrev pub ids_of : ℕ → Dict (List ℕ) → List ℕ
ids_of ticker by_ticker = or_empty (lookup ticker by_ticker)

abbrev pub is_empty : List ℕ → Bool
is_empty [] = true
is_empty (x ∷ xs) = false

-- `setdefault(ticker, set()).add(sheet_id)`
unfoldable pub index : ℕ → ℕ → Dict (List ℕ) → Dict (List ℕ)
index ticker sheet_id by_ticker = insert ticker (add sheet_id (ids_of ticker by_ticker)) by_ticker

-- The branch of `remove` on the ticker's set.
unfoldable pub unindex : ℕ → ℕ → Dict (List ℕ) → Dict (List ℕ)
unindex ticker sheet_id by_ticker = elim (lookup ticker by_ticker) [
  | none ↦ by_ticker
  | some ids ↦
      let left = discard sheet_id ids in
      if is_empty left then erase ticker by_ticker else insert ticker left by_ticker
]

module _ {F : Type 0} where
  unfoldable pub contains_sheet : ℕ → Queue F → Bool
  contains_sheet sheet_id q = is_some (lookup sheet_id q.sheets)

  unfoldable pub contains_ticker : ℕ → Queue F → Bool
  contains_ticker ticker q = if is_empty (ids_of ticker q.by_ticker) then false else true

  unfoldable pub sheets_of : List ℕ → Dict (PositionSheet F) → List (PositionSheet F)
  sheets_of [] sheets = []
  sheets_of (sid ∷ ids) sheets =
      let rest = sheets_of ids sheets in
      elim (lookup sid sheets) [ none ↦ rest | some sheet ↦ sheet ∷ rest ]

  unfoldable pub snapshot_for_ticker : ℕ → Queue F → List (PositionSheet F)
  unfolding sheets_of
  snapshot_for_ticker ticker q = sheets_of (sorted (ids_of ticker q.by_ticker)) q.sheets

  unfoldable pub all_sheet_ids : Queue F → List ℕ
  all_sheet_ids q = sorted (map (λ e. e.0) q.sheets)

  unfoldable pub size : Queue F → ℕ
  size q = length q.sheets

  unfoldable pub empty_queue : Dict (Saved F) → Queue F
  empty_queue redis = record { sheets = []; by_ticker = []; redis = redis }

  -- What `_persist` sets, with `ex=ttl_sec`.
  unfoldable pub save : ℕ → PositionSheet F → Saved F
  save now sheet =
      let ttl_sec = max ((instant sheet.entry.valid_until - now) / 1_000_000) 1 in
      record { payload = some sheet; expires_at = now + ttl_sec * 1_000_000 }

  unfoldable pub persist : Option ℕ → PositionSheet F → Dict (Saved F) → Dict (Saved F)
  unfolding save
  persist none sheet redis = redis
  persist (some now) sheet redis = insert sheet.sheet_id (save now sheet) redis

  unfoldable pub add_sheet : Option ℕ → PositionSheet F → Queue F → Bool × Queue F
  unfolding index persist
  add_sheet persisted_at sheet q =
      if is_some (lookup sheet.sheet_id q.sheets) then (false, q) else (
        true,
        record {
          sheets = insert sheet.sheet_id sheet q.sheets;
          by_ticker = index sheet.ticker sheet.sheet_id q.by_ticker;
          redis = persist persisted_at sheet q.redis;
        },
      )

  unfoldable pub remove : Bool → ℕ → Queue F → Queue F
  unfolding unindex
  remove redis_up sheet_id q = elim (lookup sheet_id q.sheets) [
    | none ↦ q
    | some sheet ↦ record {
      sheets = erase sheet_id q.sheets;
      by_ticker = unindex sheet.ticker sheet_id q.by_ticker;
      redis = if redis_up then erase sheet_id q.redis else q.redis;
    }
  ]

  -- `entry.valid_until <= now`
  abbrev pub expired : Datetime → PositionSheet F → Bool
  expired now sheet = at_or_before sheet.entry.valid_until now

  unfoldable pub expired_ids : Datetime → Dict (PositionSheet F) → List ℕ
  expired_ids now [] = []
  expired_ids now ((sid, sheet) ∷ sheets) =
      let rest = expired_ids now sheets in if expired now sheet then sid ∷ rest else rest

  unfoldable pub remove_all : Bool → List ℕ → Queue F → Queue F
  remove_all redis_up [] q = q
  remove_all redis_up (sid ∷ ids) q = remove_all redis_up ids (remove redis_up sid q)

  unfoldable pub purge_expired : Bool → Datetime → Queue F → ℕ × Queue F
  unfolding expired_ids remove_all
  purge_expired redis_up now q =
      let ids = expired_ids now q.sheets in (length ids, remove_all redis_up ids q)

  -- The loop of `load_from_redis` over the keys that the scan returns; an expired one is gone.
  unfoldable pub load : ℕ → Dict (Saved F) → Queue F → Queue F
  load now [] q = q
  load now ((key, saved) ∷ rest) q =
      if leb saved.expires_at now then load now rest q else elim saved.payload [
        | none ↦ load now rest q
        | some sheet ↦ load now rest (record q {
          sheets = insert sheet.sheet_id sheet q.sheets;
          by_ticker = index sheet.ticker sheet.sheet_id q.by_ticker;
        })
      ]

  unfoldable pub load_from_redis : ℕ → Queue F → Queue F
  unfolding load index
  load_from_redis now q = load now q.redis q
