-- ===== src/Vm/Alu.antt =====
-- The arithmetic that the instructions of compiler/hash-vm/src/vm.rs call on Rust's integer types:
-- `checked_*` and `wrapping_*` of uN and iN, shifts, negation. `m` is `2^N`; `none` from a
-- `wrapping_*` operation, a shift or a negation is a panic.
pub mod Bounds
pub mod Exact
use Prim.Native.Nat.{bit_and, bit_or, bit_xor}
use hashc.Prelude.{
  ℕ, zero, suc, ◌+◌, ◌-◌, ◌*◌, ◌/◌, ◌%◌, ◌^◌, Bool, true, false, ◌&&◌, Option, none, some, ltb, leb,
  ◌==◌, if◌then◌else◌,
}
use hashc.Prelude.Int.{ℤ, pos, negsuc, ◌*ℤ◌, is_zero}

pub data ArithOp : Type 0 where
  add sub div mul rem : ArithOp

-- `a.checked_add(b)` and its siblings on uN.
unfoldable pub checked : ArithOp → ℕ → ℕ → ℕ → Option ℕ
checked add m a b = if ltb (a + b) m then some (a + b) else none
checked sub m a b = if leb b a then some (a - b) else none
checked div m a b = if b == 0 then none else some (a / b)
checked mul m a b = if ltb (a * b) m then some (a * b) else none
checked rem m a b = if b == 0 then none else some (a % b)

-- `a.wrapping_add(b)` and its siblings on uN; a zero divisor panics.
unfoldable pub wrapping : ArithOp → ℕ → ℕ → ℕ → Option ℕ
wrapping add m a b = some ((a + b) % m)
wrapping sub m a b = some ((a + m - b) % m)
wrapping div m a b = if b == 0 then none else some (a / b)
wrapping mul m a b = some ((a * b) % m)
wrapping rem m a b = if b == 0 then none else some (a % b)

-- The integer that a bit pattern below `m` stands for as an iN, and back (`as` casts).
unfoldable pub to_signed : ℕ → ℕ → ℤ
to_signed m v = if ltb v (m / 2) then pos v else negsuc (m - v - 1)

unfoldable pub of_signed : ℕ → ℤ → ℕ
of_signed m (pos n) = n
of_signed m (negsuc n) = m - 1 - n

-- The iN that agrees with an integer modulo `m`.
unfoldable pub wrap_signed : ℕ → ℤ → ℤ
unfolding to_signed
wrap_signed m (pos n) = to_signed m (n % m)
wrap_signed m (negsuc n) = to_signed m (m - 1 - n % m)

unfoldable pub fits_signed : ℕ → ℤ → Bool
fits_signed m (pos n) = ltb n (m / 2)
fits_signed m (negsuc n) = ltb n (m / 2)

abbrev negated : ℕ → ℤ
negated zero = pos 0
negated (suc n) = negsuc n

-- Division of integers that rounds towards zero.
unfoldable pub quotient : ℤ → ℤ → ℤ
quotient (pos a) (pos b) = pos (a / b)
quotient (pos a) (negsuc b) = negated (a / suc b)
quotient (negsuc a) (pos b) = negated (suc a / b)
quotient (negsuc a) (negsuc b) = pos (suc a / suc b)

pub data SignedOp : Type 0 where
  idiv imul : SignedOp

-- `checked_div` is `None` for a zero divisor and for the one quotient that does not fit, `MIN / -1`.
unfoldable pub checked_signed : SignedOp → ℕ → ℤ → ℤ → Option ℤ
unfolding quotient fits_signed ◌*ℤ◌
checked_signed idiv m a b =
    if is_zero b then none else if fits_signed m (quotient a b) then some (quotient a b) else none
checked_signed imul m a b = if fits_signed m (a *ℤ b) then some (a *ℤ b) else none

unfoldable pub wrapping_signed : SignedOp → ℕ → ℤ → ℤ → Option ℤ
unfolding quotient wrap_signed ◌*ℤ◌
wrapping_signed idiv m a b = if is_zero b then none else some (wrap_signed m (quotient a b))
wrapping_signed imul m a b = some (wrap_signed m (a *ℤ b))

pub data BitOp : Type 0 where
  xor or and : BitOp

unfoldable pub bitwise_op : BitOp → ℕ → ℕ → ℕ
bitwise_op xor a b = bit_xor a b
bitwise_op or a b = bit_or a b
bitwise_op and a b = bit_and a b

-- `!a` on uN.
unfoldable pub complement : ℕ → ℕ → ℕ
complement m a = m - 1 - a

pub data ShiftOp : Type 0 where
  shl shr : ShiftOp

-- `a << b` and `a >> b` on words of `bits` bits. An amount of `bits` or more panics where the build
-- checks overflow, and is taken modulo `bits` where it does not.
unfoldable pub shift_amount : Bool → ℕ → ℕ → Option ℕ
shift_amount overflow_checks bits b =
    if ltb b bits then some b else if overflow_checks then none else some (b % bits)

unfoldable pub shifted : ShiftOp → ℕ → ℕ → ℕ → ℕ
shifted shl m a k = (a * 2 ^ k) % m
shifted shr m a k = a / 2 ^ k

-- `-(d as i64)` as a bit pattern, for a `u64` above zero: the negation of `i64::MIN` overflows.
unfoldable pub negated_i64 : Bool → ℕ → Option ℕ
negated_i64 overflow_checks d =
    if d == 2 ^ 63
    then (if overflow_checks then none else some (2 ^ 63))
    else some ((2 ^ 64 - d) % 2 ^ 64)
