-- ===== src/Vm/Arms.antt =====
-- `run_next_instruction` of compiler/hash-vm/src/vm.rs: the arms of its `match` by groups, and the
-- proofs of what they do stand below. `floats` is the arithmetic of `f32` and `f64`, and `overflow_checks` the build's setting
-- (the repository's release profile turns it off).
pub mod Valid
pub mod Unsigned
pub mod Signed
pub mod Call
pub mod Compare
use hashc.Prelude.{
  ℕ, ◌-◌, ◌+◌, ◌*◌, Bool, true, false, Option, none, some, List, ltb, leb, ◌==◌, if◌then◌else◌,
}
use hashc.Prelude.Bytes.{to_be_bytes, from_be_bytes}
use hashc.Prelude.Int.{ℤ}
use hashc.Vm.Register.{
  Register, RegisterSet, Width, w8, w16, w32, w64, byte_count, modulus, get_register, set_register,
  get_register_bytes, set_register_bytes, get_register8, get_register64, get_register_8b,
  set_register64, set_register_8b, set_register_4b, set_register_b, get_register_f32,
  get_register_f64, set_register_f32, set_register_f64, get_register_b, get_register_2b,
  get_register_4b, set_register_2b, base_pointer, stack_pointer, instruction_pointer,
}
use hashc.Vm.Error.{ok}
use hashc.Vm.Stack
use hashc.Vm.Bytecode.{Instruction}
use hashc.Vm.Alu.{
  ArithOp, checked, wrapping, to_signed, of_signed, SignedOp, idiv, imul, checked_signed,
  wrapping_signed, BitOp, bitwise_op, complement, ShiftOp, shl, shr, shift_amount, shifted,
  negated_i64,
}
use hashc.Vm.Float.{FloatOp, FloatUnit}
use hashc.Vm.Interpreter.{
  Interpreter, Exec, ◌>>=◌, ◌>>◌, read, write, set_overflow, panicked, push_stack, pop_stack,
}

-- `match r1.checked_op(r2)`: the result is written and the flag cleared, or the wrapped result is
-- written and the flag set; the wrapping operation may panic.
pub settle : {A : Type 0} → (A → RegisterSet → RegisterSet) → Option A → Option A → Exec (Unit {0})
settle put (some result) wrapped = do write (put result); set_overflow false
settle put none (some result) = do write (put result); set_overflow true
settle put none none = panicked

pub unsigned_arith : Width → ArithOp → Register → Register → Exec (Unit {0})
unfolding settle
unsigned_arith w op l1 l2 = do
  r1 ← read (λ rs. get_register w rs l1)
  r2 ← read (λ rs. get_register w rs l2)
  settle (λ v rs. set_register w rs l1 v) (checked op (modulus w) r1 r2)
      (wrapping op (modulus w) r1 r2)

unfoldable pub arith8 : ArithOp → Register → Register → Exec (Unit {0})
arith8 = unsigned_arith w8

unfoldable pub arith16 : ArithOp → Register → Register → Exec (Unit {0})
arith16 = unsigned_arith w16

unfoldable pub arith32 : ArithOp → Register → Register → Exec (Unit {0})
arith32 = unsigned_arith w32

unfoldable pub arith64 : ArithOp → Register → Register → Exec (Unit {0})
arith64 = unsigned_arith w64

-- `iN::from_be_bytes` of the register's bytes, and `to_be_bytes` of the result.
pub signed_arith : Width → SignedOp → Register → Register → Exec (Unit {0})
unfolding settle
signed_arith w op l1 l2 = do
  r1 ← read (λ rs. to_signed (modulus w) (from_be_bytes (get_register_bytes w rs l1)))
  r2 ← read (λ rs. to_signed (modulus w) (from_be_bytes (get_register_bytes w rs l2)))
  settle
      (λ (z : ℤ) rs.
        set_register_bytes w rs l1 (to_be_bytes (byte_count w) (of_signed (modulus w) z)))
      (checked_signed op (modulus w) r1 r2) (wrapping_signed op (modulus w) r1 r2)

unfoldable pub signed8 : SignedOp → Register → Register → Exec (Unit {0})
signed8 = signed_arith w8

-- Both arms multiply: that of `IDiv16` calls `checked_mul` and `wrapping_mul`.
unfoldable pub signed16 : SignedOp → Register → Register → Exec (Unit {0})
signed16 idiv = signed_arith w16 imul
signed16 imul = signed_arith w16 imul

unfoldable pub signed32 : SignedOp → Register → Register → Exec (Unit {0})
signed32 = signed_arith w32

unfoldable pub signed64 : SignedOp → Register → Register → Exec (Unit {0})
signed64 = signed_arith w64

pub bitwise : Width → BitOp → Register → Register → Exec (Unit {0})
bitwise w op l1 l2 = do
  r1 ← read (λ rs. get_register w rs l1)
  r2 ← read (λ rs. get_register w rs l2)
  write (λ rs. set_register w rs l1 (bitwise_op op r1 r2))

pub negation : Width → Register → Exec (Unit {0})
negation w l1 = do
  r1 ← read (λ rs. get_register w rs l1)
  write (λ rs. set_register w rs l1 (complement (modulus w) r1))

abbrev shift_by : Width → ShiftOp → Register → ℕ → Option ℕ → Exec (Unit {0})
shift_by w op l1 r1 none = panicked
shift_by w op l1 r1 (some k) = write (λ rs. set_register w rs l1 (shifted op (modulus w) r1 k))

-- The arms of 8 bits write through `set_register_b`, the others through `set_register16` and so on.
pub shift : Bool → Width → ShiftOp → Register → Register → Exec (Unit {0})
shift overflow_checks w op l1 l2 = do
  r1 ← read (λ rs. get_register w rs l1)
  r2 ← read (λ rs. get_register w rs l2)
  shift_by w op l1 r1 (shift_amount overflow_checks (8 * byte_count w) r2)

unfoldable pub move : Register → Register → Exec (Unit {0})
move src dest = do
  value ← read (λ rs. get_register64 rs src)
  write (λ rs. set_register64 rs dest value)

pub jump : Register → Exec (Unit {0})
jump location = do
  value ← read (λ rs. get_register64 rs location)
  write (λ rs. set_register64 rs instruction_pointer value)

abbrev pub skip : Exec (Unit {0})
skip vm = (ok tt, vm)

-- `i64::from_be_bytes` of the register is compared with zero.
pub jump_if : (ℤ → Bool) → Register → Register → Exec (Unit {0})
unfolding jump
jump_if test l1 location = do
  r1 ← read (λ rs. to_signed (modulus w64) (from_be_bytes (get_register_8b rs l1)))
  if test r1 then jump location else skip

-- `r1 - r2` where `r1 >= r2`, and `-((r2 - r1) as i64)` otherwise.
abbrev difference : Bool → ℕ → ℕ → Option ℕ
difference overflow_checks r1 r2 =
    if leb r2 r1 then some (r1 - r2) else negated_i64 overflow_checks (r2 - r1)

abbrev store_difference : Register → Option ℕ → Exec (Unit {0})
store_difference l1 none = panicked
store_difference l1 (some v) = write (λ rs. set_register_8b rs l1 (to_be_bytes 8 v))

pub compare_registers : Bool → Register → Register → Exec (Unit {0})
unfolding negated_i64
compare_registers overflow_checks l1 l2 = do
  r1 ← read (λ rs. get_register64 rs l1)
  r2 ← read (λ rs. get_register64 rs l2)
  store_difference l1 (difference overflow_checks r1 r2)

pub pop_register : Width → Register → Exec (Unit {0})
pop_register w l1 = do
  value ← pop_stack (Stack.pop_width w)
  write (λ rs. set_register_bytes w rs l1 value)

pub push_register : Width → Register → Exec (Unit {0})
push_register w l1 = do
  value ← read (λ rs. get_register_bytes w rs l1)
  push_stack (Stack.push_width w) value

pub call_function : Register → Exec (Unit {0})
call_function func = do
  ip ← read (λ rs. get_register64 rs instruction_pointer)
  push_stack (Stack.push_width w64) (to_be_bytes 8 ip)
  bp ← read (λ rs. get_register64 rs base_pointer)
  push_stack (Stack.push_width w64) (to_be_bytes 8 bp)
  sp ← read (λ rs. get_register64 rs stack_pointer)
  write (λ rs. set_register64 rs base_pointer sp)
  target ← read (λ rs. get_register64 rs func)
  write (λ rs. set_register64 rs instruction_pointer target)

pub return_function : Exec (Unit {0})
return_function = do
  bp ← read (λ rs. get_register64 rs base_pointer)
  write (λ rs. set_register64 rs stack_pointer bp)
  saved_bp ← pop_stack (Stack.pop_width w64)
  write (λ rs. set_register64 rs base_pointer (from_be_bytes saved_bp))
  saved_ip ← pop_stack (Stack.pop_width w64)
  write (λ rs. set_register64 rs instruction_pointer (from_be_bytes saved_ip))

module _ (floats : FloatUnit) where
  pub float32 : FloatOp → Register → Register → Exec (Unit {0})
  float32 op l1 l2 = do
    r1 ← read (λ rs. get_register_f32 rs l1)
    r2 ← read (λ rs. get_register_f32 rs l2)
    write (λ rs. set_register_f32 rs l1 (floats.apply32 op r1 r2))

  pub float64 : FloatOp → Register → Register → Exec (Unit {0})
  float64 op l1 l2 = do
    r1 ← read (λ rs. get_register_f64 rs l1)
    r2 ← read (λ rs. get_register_f64 rs l2)
    write (λ rs. set_register_f64 rs l1 (floats.apply64 op r1 r2))
