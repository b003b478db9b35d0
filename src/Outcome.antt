-- ===== src/Outcome.antt =====
-- Results of code that may run into undefined behaviour.
use perfexpert.Prelude.{ℕ, ◌^◌, ltb, if◌then◌else◌, Option, none, some}

-- The result of code that may run into undefined behaviour, such as a read out of bounds or
-- through a dangling pointer.
pub data Outcome {ℓ} (A : Type ℓ) : Type ℓ where
  ok : A → Outcome A
  fault : Outcome A

infixl 5 ◌>>=◌
abbrev pub ◌>>=◌ {ℓ κ} : {A : Type ℓ} {B : Type κ} → Outcome A → (A → Outcome B) → Outcome B
ok a >>= f = f a
fault >>= f = fault

-- A read of an array element: a fault out of bounds.
abbrev pub defined {ℓ} : {A : Type ℓ} → Option A → Outcome A
defined none = fault
defined (some a) = ok a

-- A result of `int` that is not negative: beyond its 31 bits it is undefined.
abbrev pub as_int : ℕ → Outcome ℕ
as_int n = if ltb n (2 ^ 31) then ok n else fault
