-- ===== src/Vm/Alu/Bounds.antt =====
-- Every result that the machine writes back fits its width.
use Prim.Native.Nat.{digits, differ, bit_xor-bitwise, bit_or-bitwise, bit_and-bitwise}
use native.Mathlib.Nat.{pow-suc, div-le_self, mod-lt}
use hashc.Prelude.{ℕ, zero, suc, ◌+◌, ◌-◌, ◌*◌, ◌/◌, ◌%◌, ◌^◌, ◌≤◌, ◌<◌, min, max, ◌≡◌, some, arith}
use hashc.Vm.Register.{Width, w8, w16, w32, w64, modulus}
use hashc.Vm.Alu.{
  ArithOp, add, sub, div, mul, rem, checked, wrapping, BitOp, xor, or, and, bitwise_op, complement,
  ShiftOp, shl, shr, shifted,
}

module _ (z : ℕ → ℕ) (f : ℕ → ℕ → ℕ) (hz : (b : ℕ) → z b ≤ b)
    (hf : (a b : ℕ) → a < 2 → b < 2 → f a b < 2) where
  digits-lt : (k n a b : ℕ) → a < 2 ^ k → b < 2 ^ k → digits z f n a b < 2 ^ k
  digits-lt k zero a b ha hb = omega (arith, hz b)
  digits-lt k (suc n) zero b ha hb = omega (arith, hz b)
  digits-lt zero (suc n) (suc a) b ha hb = absurd (omega arith)
  digits-lt (suc k) (suc n) (suc a) b ha hb = omega (
    arith,
    pow-suc 2 k,
    hf (suc a % 2) (b % 2) (omega arith) (omega arith),
    digits-lt k n (suc a / 2) (b / 2) (omega (arith, pow-suc 2 k)) (omega (arith, pow-suc 2 k)),
  )

differ-lt : (a b : ℕ) → a < 2 → b < 2 → differ a b < 2
differ-lt zero b ha hb = hb
differ-lt (suc a) zero ha hb = ha
differ-lt (suc a) (suc b) ha hb = differ-lt a b (omega arith) (omega arith)

bitwise_op-lt : (op : BitOp) (k a b : ℕ) → a < 2 ^ k → b < 2 ^ k → bitwise_op op a b < 2 ^ k
unfolding bitwise_op
bitwise_op-lt xor k a b ha hb =
    rw (bit_xor-bitwise a b) (digits-lt (λ b. b) differ (λ b. omega arith) differ-lt k a a b ha hb)
bitwise_op-lt or k a b ha hb =
    rw (bit_or-bitwise a b)
      (digits-lt (λ b. b) max (λ b. omega arith) (λ a b p q. omega arith) k a a b ha hb)
bitwise_op-lt and k a b ha hb =
    rw (bit_and-bitwise a b)
      (digits-lt (λ b. zero) min (λ b. omega arith) (λ a b p q. omega arith) k a a b ha hb)

pub bitwise_op-lt-modulus :
    (op : BitOp) (w : Width) (a b : ℕ)
    → a < modulus w
    → b < modulus w
    → bitwise_op op a b < modulus w
bitwise_op-lt-modulus op w8 a b = bitwise_op-lt op 8 a b
bitwise_op-lt-modulus op w16 a b = bitwise_op-lt op 16 a b
bitwise_op-lt-modulus op w32 a b = bitwise_op-lt op 32 a b
bitwise_op-lt-modulus op w64 a b = bitwise_op-lt op 64 a b

pub modulus-pos : (w : Width) → 0 < modulus w
modulus-pos w8 = omega arith
modulus-pos w16 = omega arith
modulus-pos w32 = omega arith
modulus-pos w64 = omega arith

module _ (m a b : ℕ) (pos : 0 < m) (ha : a < m) (hb : b < m) where
  rem-lt : a % b < m
  rem-lt = grind arith

  pub checked-lt : (op : ArithOp) (c : ℕ) → checked op m a b ≡ some c → c < m
  unfolding checked
  checked-lt add c e = ground arith
  checked-lt sub c e = ground arith
  checked-lt div c e = ground (arith, div-le_self a b)
  checked-lt mul c e = ground arith
  checked-lt rem c e = ground (arith, rem-lt)

  pub wrapping-lt : (op : ArithOp) (c : ℕ) → wrapping op m a b ≡ some c → c < m
  unfolding wrapping
  wrapping-lt add c e = ground (arith, mod-lt (a + b) pos)
  wrapping-lt sub c e = ground (arith, mod-lt (a + m - b) pos)
  wrapping-lt div c e = ground (arith, div-le_self a b)
  wrapping-lt mul c e = ground (arith, mod-lt (a * b) pos)
  wrapping-lt rem c e = ground (arith, rem-lt)

  pub complement-lt : complement m a < m
  unfolding complement
  complement-lt = omega arith

  pub shifted-lt : (op : ShiftOp) (k : ℕ) → shifted op m a k < m
  unfolding shifted
  shifted-lt shl k = mod-lt (a * 2 ^ k) pos
  shifted-lt shr k = omega (arith, div-le_self a (2 ^ k))
