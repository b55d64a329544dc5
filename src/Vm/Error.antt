-- ===== src/Vm/Error.antt =====
-- compiler/hash-vm/src/error.rs, and the outcome of code that may also panic.
use hashc.Prelude.{ℕ, ◌≡◌}

pub data StackAccessKind : Type 0 where
  push pop : StackAccessKind

pub data RuntimeError : Type 0 where
  stack_violation_access : StackAccessKind → ℕ → ℕ → RuntimeError

-- `RuntimeResult<T>`, with one more case for a Rust panic.
pub data Outcome {ℓ} (A : Type ℓ) : Type ℓ where
  ok : A → Outcome A
  err : RuntimeError → Outcome A
  panic : Outcome A

infixl 5 ◌>>=◌ ◌>>◌
abbrev pub ◌>>=◌ {ℓ κ} : {A : Type ℓ} {B : Type κ} → Outcome A → (A → Outcome B) → Outcome B
ok a >>= f = f a
err e >>= f = err e
panic >>= f = panic

abbrev pub ◌>>◌ {ℓ} : {B : Type ℓ} → Outcome (Unit {0}) → Outcome B → Outcome B
m >> k = m >>= λ _. k

pub ok-injective {ℓ} : {A : Type ℓ} (a b : A) → ok a ≡ ok b → a ≡ b
ok-injective a b e = cc
