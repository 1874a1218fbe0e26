-- ===== src/Prelude/Dict.antt =====
-- Python's dictionaries and sets keyed by numbers. A dictionary is an association list in insertion
-- order; `erase` drops every entry of the key, of which a Python dictionary has one at most. A set is
-- a list without repetition of which only membership is read, but for `sorted`.
use Prim.Native.Nat.{ℕ}
use mathlib.Core.Path.{◌≡◌, refl}
use mathlib.Core.Bool.{Bool, true, false, not, ◌&&◌, ◌||◌}
use mathlib.Core.List.{List, [], ◌∷◌}
use mathlib.Core.Option.{Option, none, some}
use native.Mathlib.Omega.{arith}
use prime_jennie_runtime.Prelude.Tests.{◌==◌, leb, if◌then◌else◌}

abbrev pub Dict {ℓ} : Type ℓ → Type ℓ
Dict V = List (ℕ × V)

abbrev pub is_some {ℓ} : {A : Type ℓ} → Option A → Bool
is_some none = false
is_some (some a) = true

module _ {ℓ} {V : Type ℓ} where
  -- `d.get(k)`
  unfoldable pub lookup : ℕ → Dict V → Option V
  lookup k [] = none
  lookup k ((j, v) ∷ d) = if k == j then some v else lookup k d

  -- `d[k] = v`
  unfoldable pub insert : ℕ → V → Dict V → Dict V
  insert k v [] = (k, v) ∷ []
  insert k v ((j, w) ∷ d) = if k == j then (k, v) ∷ d else (j, w) ∷ insert k v d

  -- `d.pop(k, None)`, without its result
  unfoldable pub erase : ℕ → Dict V → Dict V
  erase k [] = []
  erase k ((j, w) ∷ d) = let rest = erase k d in if k == j then rest else (j, w) ∷ rest

  pub lookup-insert :
      (k j : ℕ) (v : V) (d : Dict V)
      → lookup j (insert k v d) ≡ (if j == k then some v else lookup j d)
  unfolding lookup insert
  lookup-insert k j v [] = refl
  lookup-insert k j v ((i, w) ∷ d) = ground (arith, lookup-insert k j v d)

  pub lookup-erase :
      (k j : ℕ) (d : Dict V) → lookup j (erase k d) ≡ (if j == k then none else lookup j d)
  unfolding lookup erase
  lookup-erase k j [] = ground arith
  lookup-erase k j ((i, w) ∷ d) = ground (arith, lookup-erase k j d)

-- No key twice, which every Python dictionary has.
module _ {ℓ} {V : Type ℓ} where
  abbrev pub Unique : Dict V → Type 0
  Unique [] = Unit {0}
  Unique ((j, v) ∷ d) = (is_some (lookup j d) ≡ false) × Unique d

  pub insert-Unique : (k : ℕ) (v : V) (d : Dict V) → Unique d → Unique (insert k v d)
  unfolding insert
  insert-Unique k v [] u = (unfold lookup in refl, tt)
  insert-Unique k v ((j, w) ∷ d) u = ground (arith, insert-Unique k v d u.1, lookup-insert k j v d)

  pub erase-Unique : (k : ℕ) (d : Dict V) → Unique d → Unique (erase k d)
  unfolding erase
  erase-Unique k [] u = tt
  erase-Unique k ((j, w) ∷ d) u = ground (arith, erase-Unique k d u.1, lookup-erase k j d)

-- `x in s`
unfoldable pub member : ℕ → List ℕ → Bool
member x [] = false
member x (y ∷ s) = x == y || member x s

-- `s.add(x)`
unfoldable pub add : ℕ → List ℕ → List ℕ
unfolding member
add x s = if member x s then s else x ∷ s

-- `s.discard(x)`
unfoldable pub discard : ℕ → List ℕ → List ℕ
discard x [] = []
discard x (y ∷ s) = let rest = discard x s in if x == y then rest else y ∷ rest

pub member-add : (x y : ℕ) (s : List ℕ) → member y (add x s) ≡ (y == x || member y s)
unfolding add member
member-add x y s = ground (arith, member_eq x y s)
  where
    member_eq : (x y : ℕ) (s : List ℕ) → x ≡ y → member x s ≡ member y s
    member_eq x y s e = rw e

pub member-discard : (x y : ℕ) (s : List ℕ) → member y (discard x s) ≡ (not (y == x) && member y s)
unfolding member discard
member-discard x y [] = ground arith
member-discard x y (z ∷ s) = ground (arith, member-discard x y s)

-- `sorted(s)`
unfoldable pub insert_sorted : ℕ → List ℕ → List ℕ
insert_sorted x [] = x ∷ []
insert_sorted x (y ∷ s) = let rest = insert_sorted x s in if leb x y then x ∷ y ∷ s else y ∷ rest

unfoldable pub sorted : List ℕ → List ℕ
unfolding insert_sorted
sorted [] = []
sorted (x ∷ s) = insert_sorted x (sorted s)

member-insert_sorted :
    (x y : ℕ) (s : List ℕ) → member y (insert_sorted x s) ≡ (y == x || member y s)
unfolding member insert_sorted
member-insert_sorted x y [] = refl
member-insert_sorted x y (z ∷ s) = ground (arith, member-insert_sorted x y s)

pub member-sorted : (y : ℕ) (s : List ℕ) → member y (sorted s) ≡ member y s
unfolding member sorted
member-sorted y [] = refl
member-sorted y (x ∷ s) = ground (arith, member-insert_sorted x y (sorted s), member-sorted y s)
