-- ===== src/Vm/Step/Branch.antt =====
-- Conditional jumps on a comparison.
use hashc.Prelude.{
  ℕ, ◌+◌, ◌^◌, ◌<◌, ◌≤◌, ◌≡◌, ◌≢◌, refl, ◌∙◌, Bool, List, arith, ltb, ◌==◌, if◌then◌else◌,
}
use hashc.Prelude.Int.{ℤ, sub_ℕ, is_zero, is_positive, is_negative}
use hashc.Vm.Register.{Register, IsRegisterFile, get_register64, instruction_pointer}
use hashc.Vm.Bytecode.{Instruction}
use hashc.Vm.Float.{FloatUnit}
use hashc.Vm.Interpreter.{Interpreter}
use hashc.Vm.Interpreter.Keeps.{IsInterpreter}
use hashc.Vm.Arms.{jump_if}
use hashc.Vm.Arms.Compare.{
  signed64_value, compare-near, compare-others, compare-far, jump_if-pointer,
}
use hashc.Vm.Step.{step}
use hashc.Vm.Step.Valid.{step-IsInterpreter}

pub data Condition : Type 0 where
  greater less equal : Condition

abbrev pub jump_on : Condition → Register → Register → Instruction
jump_on greater l1 location = Instruction.jmp_pos l1 location
jump_on less l1 location = Instruction.jmp_neg l1 location
jump_on equal l1 location = Instruction.jmp_zero l1 location

abbrev pub holds : Condition → ℕ → ℕ → Bool
holds greater a b = ltb b a
holds less a b = ltb a b
holds equal a b = a == b

abbrev test : Condition → ℤ → Bool
test greater = is_positive
test less = is_negative
test equal = is_zero

test-sub : (c : Condition) (a b : ℕ) → test c (sub_ℕ a b) ≡ holds c a b
test-sub c a b = ground arith

step-jump_on :
    (floats : FloatUnit) (checks : Bool) (c : Condition) (l1 location : Register)
    → step floats checks (jump_on c l1 location) ≡ jump_if (test c) l1 location
unfolding step
step-jump_on floats checks c l1 location = ground arith

after_cmp-pointer :
    (floats : FloatUnit) (checks : Bool) (c : Condition) (l1 location : Register) (vm : Interpreter)
    → IsRegisterFile vm.registers
    → get_register64 (step floats checks (jump_on c l1 location) vm).1.registers instruction_pointer
      ≡ (if test c (signed64_value vm.registers l1)
          then get_register64 vm.registers location
          else get_register64 vm.registers instruction_pointer)
after_cmp-pointer floats checks c l1 location vm h =
    rw (step-jump_on floats checks c l1 location) (jump_if-pointer (test c) l1 location vm h)

module _ (floats : FloatUnit) (checks : Bool) (l1 l2 : Register) (vm : Interpreter)
    (program : List Instruction) (capacity : ℕ) (h : IsInterpreter program capacity vm) where
  file_after : IsRegisterFile (step floats checks (Instruction.cmp l1 l2) vm).1.registers
  file_after = (step-IsInterpreter floats checks (Instruction.cmp l1 l2) program capacity vm h).file

-- In a valid state, with `l1` neither `location` nor the instruction pointer, after `Cmp l1 l2` on
-- values less than `2^63` apart, `JmpPos`, `JmpNeg` and `JmpZero` on `l1` set
-- the instruction pointer to the value of `location` exactly if the value of `l1` was greater than,
-- less than or equal to that of `l2`, and leave it otherwise.
pub jump-cmp :
    (floats : FloatUnit) (checks : Bool) (c : Condition) (l1 l2 location : Register)
    (vm : Interpreter) (capacity : ℕ)
    → IsInterpreter vm.instructions capacity vm
    → l1.index < 256
    → l1.index ≢ location.index
    → l1.index ≢ instruction_pointer.index
    → get_register64 vm.registers l1 < get_register64 vm.registers l2 + 2 ^ 63
    → get_register64 vm.registers l2 < get_register64 vm.registers l1 + 2 ^ 63
    → get_register64
        (step floats checks
          (jump_on c l1 location)
          (step floats checks (Instruction.cmp l1 l2) vm).1).1.registers
        instruction_pointer
      ≡ (if holds c (get_register64 vm.registers l1) (get_register64 vm.registers l2)
          then get_register64 vm.registers location
          else get_register64 vm.registers instruction_pointer)
jump-cmp floats checks c l1 l2 location vm capacity h hr nl ni near near' =
    after_cmp-pointer floats checks c l1 location _
      (file_after floats checks l1 l2 vm vm.instructions capacity h)
    ∙ unfold step in
      (rw
        (
          (compare-near checks l1 l2 vm h.file hr near near').1,
          compare-others checks l1 l2 vm h.file location nl near near',
          compare-others checks l1 l2 vm h.file instruction_pointer ni near near',
          test-sub c,
        )
        refl)

-- In a valid state, after `Cmp l1 l2` with the value of `l1` at least `2^63` above that of `l2`, the comparison is read
-- as negative: `JmpNeg` takes the jump, as if `l1` were the smaller.
pub jmp_neg-cmp_far :
    (floats : FloatUnit) (checks : Bool) (l1 l2 location : Register) (vm : Interpreter)
    (capacity : ℕ)
    → IsInterpreter vm.instructions capacity vm
    → l1.index < 256
    → get_register64 vm.registers l2 + 2 ^ 63 ≤ get_register64 vm.registers l1
    → get_register64
        (step floats checks
          (Instruction.jmp_neg l1 location)
          (step floats checks (Instruction.cmp l1 l2) vm).1).1.registers
        instruction_pointer
      ≡ get_register64 (step floats checks (Instruction.cmp l1 l2) vm).1.registers location
jmp_neg-cmp_far floats checks l1 l2 location vm capacity h hr far =
    after_cmp-pointer floats checks less l1 location _
      (file_after floats checks l1 l2 vm vm.instructions capacity h)
    ∙ unfold step in (rw (compare-far checks l1 l2 vm h.file hr far).1 refl)
