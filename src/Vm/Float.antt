-- ===== src/Vm/Float.antt =====
-- The float arithmetic of compiler/hash-vm/src/vm.rs is that of Rust's `f32` and `f64`. The model has
-- no floats: a value is its bit pattern, and the operations are a parameter.
use hashc.Prelude.{ℕ, ◌^◌, ◌<◌}

pub data FloatOp : Type 0 where
  add sub div mul rem powf : FloatOp

-- The operations on `to_bits` patterns; a result is a pattern of the same width.
pub record FloatUnit : Type 0 where
  pub apply32 : FloatOp → ℕ → ℕ → ℕ
  pub apply64 : FloatOp → ℕ → ℕ → ℕ
  pub apply32-lt : (op : FloatOp) (a b : ℕ) → apply32 op a b < 2 ^ 32
  pub apply64-lt : (op : FloatOp) (a b : ℕ) → apply64 op a b < 2 ^ 64
