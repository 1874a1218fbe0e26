-- ===== src/KisGateway/Schemas.antt =====
-- What the gateway answers about orders (prime_jennie_runtime/kis_gateway/schemas.py): the fields
-- that the executors read. `raised` is an exception of the call.
use prime_jennie_runtime.Prelude.{ℕ, Bool, Option, ◌≡◌, refl, ◌⊎◌, inl, inr}

pub data Answer (A : Type 0) : Type 0 where
  raised : Answer A
  answered : A → Answer A

pub Answer-cases : {A : Type 0} (x : Answer A) → (x ≡ raised) ⊎ ((y : A) × (x ≡ answered y))
Answer-cases raised = inl refl
Answer-cases (answered y) = inr (y, refl)

pub record OrderStatus (F : Type 0) : Type 0 where
  pub filled_qty : ℕ
  pub avg_price : F

-- `success` and `order_no` of an OrderResult.
pub record OrderResult : Type 0 where
  pub success : Bool
  pub order_no : Option ℕ
