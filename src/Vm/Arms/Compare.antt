-- ===== src/Vm/Arms/Compare.antt =====
-- `Cmp` and the conditional jumps.
use hashc.Prelude.{
  ℕ, ◌+◌, ◌-◌, ◌^◌, ◌<◌, ◌≤◌, ◌≡◌, ◌≢◌, inl, inr, refl, ap, ◌∙◌, Bool, true, Option, some, arith,
  leb, if◌then◌else◌, Bool-cases,
}
use hashc.Prelude.Bytes.{from_be_bytes, to_be_bytes, from-to_be_bytes}
use hashc.Prelude.Int.{ℤ, sub_ℕ, is_negative}
use hashc.Vm.Error.{ok}
use hashc.Vm.Register.{
  Register, RegisterSet, IsRegisterFile, w64, modulus, get_register64, get_register_8b,
  set_register_8b, instruction_pointer,
}
use hashc.Vm.Register.RoundTrip.{to_be_bytes-IsBytes}
use hashc.Vm.Register.Words.{
  get_register64-lt, get-set_register64, get-set_register_8b, get-set_register_8b_ne,
}
use hashc.Vm.Alu.{to_signed, negated_i64}
use hashc.Vm.Interpreter.{Interpreter, read, write, panicked}
use hashc.Vm.Arms.{difference, store_difference, compare_registers, jump, jump_if}

-- The signed value of a whole register.
abbrev pub signed64_value : RegisterSet → Register → ℤ
signed64_value rs r = to_signed (modulus w64) (from_be_bytes (get_register_8b rs r))

-- The bits of a difference that an `i64` holds.
abbrev bits : ℕ → ℕ → ℕ
bits a b = if leb b a then a - b else 2 ^ 64 - (b - a)

difference-near :
    (checks : Bool) (a b : ℕ)
    → a < b + 2 ^ 63
    → b < a + 2 ^ 63
    → difference checks a b ≡ some (bits a b)
unfolding negated_i64
difference-near checks a b h k = ground arith

to_signed-bits :
    (a b : ℕ) → a < b + 2 ^ 63 → b < a + 2 ^ 63 → to_signed (2 ^ 64) (bits a b) ≡ sub_ℕ a b
unfolding to_signed
to_signed-bits a b h k = ground arith

bits-lt : (a b : ℕ) → a < 2 ^ 64 → b < 2 ^ 64 → bits a b < 2 ^ 64
bits-lt a b h k = ground arith

module _ (checks : Bool) (l1 l2 : Register) (vm : Interpreter)
    (h : IsRegisterFile vm.registers) where
  compare-eq :
      (v : ℕ)
      → difference checks (get_register64 vm.registers l1) (get_register64 vm.registers l2) ≡ some v
      → compare_registers checks l1 l2 vm
        ≡ (ok tt, record vm { registers = set_register_8b vm.registers l1 (to_be_bytes 8 v) })
  unfolding compare_registers read write panicked
  compare-eq v e = ap (λ (d : Option ℕ). store_difference l1 d vm) e

  value-compared :
      (v : ℕ)
      → l1.index < 256
      → v < 2 ^ 64
      → signed64_value (set_register_8b vm.registers l1 (to_be_bytes 8 v)) l1 ≡ to_signed (2 ^ 64) v
  value-compared v hr fits =
      rw (get-set_register_8b vm.registers l1 (to_be_bytes 8 v) h (to_be_bytes-IsBytes w64 v) hr)
        (ap (to_signed (2 ^ 64)) (from-to_be_bytes 8 v fits))

  -- The machine after a comparison of values whose difference fits an `i64`.
  pub compare-near :
      l1.index < 256
      → get_register64 vm.registers l1 < get_register64 vm.registers l2 + 2 ^ 63
      → get_register64 vm.registers l2 < get_register64 vm.registers l1 + 2 ^ 63
      → ((compare_registers checks l1 l2 vm).0 ≡ ok tt)
        × (signed64_value (compare_registers checks l1 l2 vm).1.registers l1
            ≡ sub_ℕ (get_register64 vm.registers l1) (get_register64 vm.registers l2))
  compare-near hr near near' =
      let x = get_register64 vm.registers l1 in
      let y = get_register64 vm.registers l2 in
      rw (compare-eq (bits x y) (difference-near checks x y near near')) (
        refl,
        value-compared (bits x y) hr (
              bits-lt x y (get_register64-lt vm.registers l1 h)
                (get_register64-lt vm.registers l2 h))
            ∙ to_signed-bits x y near near',
      )

  -- A comparison leaves every other register, and the register file is one.
  pub compare-others :
      (q : Register)
      → l1.index ≢ q.index
      → get_register64 vm.registers l1 < get_register64 vm.registers l2 + 2 ^ 63
      → get_register64 vm.registers l2 < get_register64 vm.registers l1 + 2 ^ 63
      → get_register64 (compare_registers checks l1 l2 vm).1.registers q
        ≡ get_register64 vm.registers q
  compare-others q ne near near' =
      let x = get_register64 vm.registers l1 in
      let y = get_register64 vm.registers l2 in
      rw (compare-eq (bits x y) (difference-near checks x y near near'))
        (get-set_register_8b_ne vm.registers l1 _ h (to_be_bytes-IsBytes w64 (bits x y)) q ne)

  -- Values so far apart that the difference is read as a negative number.
  pub compare-far :
      l1.index < 256
      → get_register64 vm.registers l2 + 2 ^ 63 ≤ get_register64 vm.registers l1
      → ((compare_registers checks l1 l2 vm).0 ≡ ok tt)
        × (is_negative (signed64_value (compare_registers checks l1 l2 vm).1.registers l1) ≡ true)
  compare-far hr far =
      let x = get_register64 vm.registers l1 in
      let y = get_register64 vm.registers l2 in
      rw (compare-eq (x - y) (far_difference x y far)) (
        refl,
        ap is_negative
              (value-compared (x - y) hr (omega (arith, get_register64-lt vm.registers l1 h)))
            ∙ far_negative x y far (get_register64-lt vm.registers l1 h),
      )
    where
      far_difference : (x y : ℕ) → y + 2 ^ 63 ≤ x → difference checks x y ≡ some (x - y)
      far_difference x y far = ground arith

      far_negative :
          (x y : ℕ) → y + 2 ^ 63 ≤ x → x < 2 ^ 64 → is_negative (to_signed (2 ^ 64) (x - y)) ≡ true
      far_negative x y far lt = unfold to_signed in ground arith

-- The instruction pointer after a conditional jump.
pub jump_if-pointer :
    (test : ℤ → Bool) (l1 location : Register) (vm : Interpreter)
    → IsRegisterFile vm.registers
    → get_register64 (jump_if test l1 location vm).1.registers instruction_pointer ≡ (
        if test (signed64_value vm.registers l1)
        then get_register64 vm.registers location
        else get_register64 vm.registers instruction_pointer)
unfolding jump_if jump read write
jump_if-pointer test l1 location vm h = elim (Bool-cases (test (signed64_value vm.registers l1))) [
  | inl e ↦ rw e (
      get-set_register64 vm.registers instruction_pointer _ h (omega arith)
        (get_register64-lt vm.registers location h))
  | inr e ↦ rw e refl
]
