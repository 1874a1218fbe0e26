-- ===== src/FastLoop/TickLoop/Exits/Reductions.antt =====
-- What the exits of a tick may do to the positions.
use prime_jennie_runtime.Prelude.{
  ℕ, ◌≤◌, ◌≡◌, ◌≢◌, ◌∙◌, refl, ◌==◌, if◌then◌else◌, Bool, Option, none, some, arith, Option-cases,
  Bool-cases, inl, inr,
}
use prime_jennie_runtime.Prelude.Dict.{lookup, lookup-insert, lookup-erase}
use prime_jennie_runtime.Prelude.Float.{Float}
use prime_jennie_runtime.FastLoop.Domain.{PositionState, ExitDecision}
use prime_jennie_runtime.FastLoop.PositionTracker.{Tracker, persist, close, change}
use prime_jennie_runtime.FastLoop.TickLoop.Exits.{call_tracker, settle}
use prime_jennie_runtime.FastLoop.ExitExecutor.{
  TrackerCall, untouched, persists, closes, SystemSnapshot, Broker, Executed, execute, sell_order,
  confirm_sell, finish_fill, settle_fill, fail_exit, record_exit_failure, raise_stop, dry_sale,
}

module _ {F : Type 0} where
  -- What is left of a position: it, or less of it.
  pub record IsReduced (s s' : PositionState F) : Type 0 where
    pub quantity : s'.quantity ≤ s.quantity
    pub sheet_id : s'.sheet_id ≡ s.sheet_id
    pub ticker : s'.ticker ≡ s.ticker
    pub entry_price : s'.entry_price ≡ s.entry_price
    pub entered_at : s'.entered_at ≡ s.entered_at

  abbrev pub Reduces : Option (PositionState F) → Option (PositionState F) → Type 0
  Reduces none after = after ≡ none
  Reduces (some s) none = Unit {0}
  Reduces (some s) (some s') = IsReduced s s'

  pub Reduces-refl : (o : Option (PositionState F)) → Reduces o o
  Reduces-refl none = refl
  Reduces-refl (some s) = record {
    quantity = omega arith;
    sheet_id = refl;
    ticker = refl;
    entry_price = refl;
    entered_at = refl;
  }

  pub IsReduced-trans : (s t r : PositionState F) → IsReduced s t → IsReduced t r → IsReduced s r
  IsReduced-trans s t r h k = record {
    quantity = omega (arith, h.quantity, k.quantity);
    sheet_id = k.sheet_id ∙ h.sheet_id;
    ticker = k.ticker ∙ h.ticker;
    entry_price = k.entry_price ∙ h.entry_price;
    entered_at = k.entered_at ∙ h.entered_at;
  }

  pub Reduces-trans : (a b c : Option (PositionState F)) → Reduces a b → Reduces b c → Reduces a c
  Reduces-trans none none c h k = k
  Reduces-trans none (some s) c h k = absurd (cc)
  Reduces-trans (some s) none none h k = tt
  Reduces-trans (some s) none (some r) h k = absurd (cc)
  Reduces-trans (some s) (some t) none h k = tt
  Reduces-trans (some s) (some t) (some r) h k = IsReduced-trans s t r h k

  -- Every position is reduced, and no position but that of the id changes.
  abbrev pub Touches : ℕ → Tracker F → Tracker F → Type 0
  Touches i t t' =
      (j : ℕ)
      → Reduces (lookup j t.states) (lookup j t'.states)
        × (j ≢ i → lookup j t'.states ≡ lookup j t.states)

  pub Touches-refl : (i : ℕ) (t : Tracker F) → Touches i t t
  Touches-refl i t j = (Reduces-refl (lookup j t.states), λ _. refl)

  pub Touches-trans :
      (i : ℕ) (t t' t'' : Tracker F) → Touches i t t' → Touches i t' t'' → Touches i t t''
  Touches-trans i t t' t'' h k j = (
    Reduces-trans (lookup j t.states) (lookup j t'.states) (lookup j t''.states) (h j).0 (k j).0,
    λ n. (k j).1 n ∙ (h j).1 n,
  )

  persist-states : (up : Bool) (i : ℕ) (t : Tracker F) → (persist up i t).states ≡ t.states
  unfolding persist
  persist-states up i t = ground arith

  -- An entry put in place of the position, or erased.
  put-Touches :
      (i : ℕ) (s : PositionState F) (o : Option (PositionState F)) (t t' : Tracker F)
      → lookup i t.states ≡ some s
      → Reduces (some s) o
      → ((j : ℕ) → lookup j t'.states ≡ (if j == i then o else lookup j t.states))
      → Touches i t t'
  put-Touches i s o t t' held less put j = elim (Bool-cases (j == i)) [
    | inl same ↦
        let e : j ≡ i = ground arith in
        let before : lookup j t.states ≡ some s = rw e held in
        let after : lookup j t'.states ≡ o = ground (arith, put j) in
        (rw (before, after) less, λ n. absurd (n e))
    | inr other ↦
        let after : lookup j t'.states ≡ lookup j t.states = ground (arith, put j) in
        (rw after (Reduces-refl (lookup j t.states)), λ _. after)
  ]

  pub change-Touches :
      (i : ℕ) (s s' : PositionState F) (t : Tracker F)
      → lookup i t.states ≡ some s
      → IsReduced s s'
      → Touches i t (change i (λ _. s') t)
  unfolding change
  change-Touches i s s' t held less =
      put-Touches i s (some s') t (change i (λ _. s') t) held less
        (λ j. ground (arith, held, lookup-insert i j s' t.states))

  close-Touches : (up : Bool) (i : ℕ) (t : Tracker F) → Touches i t (close up i t)
  unfolding close
  close-Touches up i t = elim (Option-cases (lookup i t.states)) [
    | inl absent ↦ rw (absent, close) (Touches-refl i t)
    | inr (s, held) ↦
        put-Touches i s none t (close up i t) held tt
          (λ j. ground (arith, held, lookup-erase i j t.states))
  ]

  pub persist-Touches : (up : Bool) (i : ℕ) (t : Tracker F) → Touches i t (persist up i t)
  persist-Touches up i t j =
      let same : lookup j (persist up i t).states ≡ lookup j t.states =
        rw (persist-states up i t) refl in
      (rw same (Reduces-refl (lookup j t.states)), λ _. same)

  call_tracker-Touches :
      (up : Bool) (call : TrackerCall) (i : ℕ) (t : Tracker F)
      → Touches i t (call_tracker up call i t)
  call_tracker-Touches up untouched i t = Touches-refl i t
  call_tracker-Touches up persists i t = persist-Touches up i t
  call_tracker-Touches up closes i t = close-Touches up i t

  pub settle-Touches :
      (up : Bool) (i : ℕ) (s : PositionState F) (r : Executed F) (t : Tracker F)
      → lookup i t.states ≡ some s
      → IsReduced s r.state
      → Touches i t (settle up i r t)
  unfolding settle
  settle-Touches up i s r t held less =
      Touches-trans i t (change i (λ _. r.state) t) (settle up i r t)
        (change-Touches i s r.state t held less)
        (call_tracker-Touches up r.tracker i (change i (λ _. r.state) t))

  confirm-IsReduced :
      (limit : ℕ) (s : PositionState F) (qty : ℕ) (broker : Broker F)
      → IsReduced s (sell_order limit s qty broker).state
  unfolding sell_order confirm_sell finish_fill settle_fill fail_exit record_exit_failure
  confirm-IsReduced limit s qty broker = ground arith

module _ {F : Type 0} ⦃fl : Float F⦄ where
  pub execute-IsReduced :
      (limit : ℕ) (system : Option SystemSnapshot) (s : PositionState F) (d : ExitDecision F)
      (broker : Broker F)
      → IsReduced s (execute limit system s d broker).state
  unfolding execute raise_stop dry_sale
  execute-IsReduced limit system s d broker = ground arith
