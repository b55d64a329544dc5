-- ===== src/Vm/Step/Tests.antt =====
-- Instructions at concrete machines.
use hashc.Prelude.{ℕ, ◌<◌, ◌≡◌, refl, true, false, [], ◌∷◌, replicate, arith, if◌then◌else◌}
use hashc.Prelude.Bytes.{IsByte, All-replicate}
use hashc.Prelude.Int.{pos}
use hashc.Vm.Error.{ok}
use hashc.Vm.Register.{
  Register, RegisterSet, default_registers, IsRegisterFile, w8, w16, get_register, get_register64,
  set_register64, base_pointer, stack_pointer, instruction_pointer,
}
use hashc.Vm.Register.Words.{
  set_register64-IsRegisterFile, get-set_register64, get-set_register64_ne,
}
use hashc.Vm.Register.Tests.{r0, r1}
use hashc.Vm.Register.Words.{default_registers-IsRegisterFile}
use hashc.Vm.Stack.{IsStack}
use hashc.Vm.Stack.Contents.{contents}
use hashc.Vm.Alu.{add, idiv}
use hashc.Vm.Alu.Exact.{exact}
use hashc.Vm.Bytecode.{Instruction}
use hashc.Vm.Float.{FloatUnit}
use hashc.Vm.Interpreter.{Interpreter}
use hashc.Vm.Interpreter.Keeps.{IsInterpreter}
use hashc.Vm.Arms.Unsigned.{ArithOutcome}
use hashc.Vm.Arms.Signed.{SignedOutcome, exact_signed, signed_value}
use hashc.Vm.Step.{step}
use hashc.Vm.Step.Valid.{step-IsInterpreter}
use hashc.Vm.Step.Instructions.{arith_instruction, signed_instruction, performed}
use hashc.Vm.Step.Arith.{step-arith, step-signed}
use hashc.Vm.Step.Call.{return-call}
use hashc.Vm.Step.Branch.{holds, jump_on, greater, jump-cmp, jmp_neg-cmp_far}

-- A float unit whose every result is zero.
abbrev pub zeros : FloatUnit
zeros = record {
  apply32 = λ _ _ _. 0;
  apply64 = λ _ _ _. 0;
  apply32-lt = λ _ _ _. omega arith;
  apply64-lt = λ _ _ _. omega arith;
}

abbrev r2 : Register
r2 = record { index = 2 }

-- The registers 0 and 1 hold `a` and `b`; the stack holds 8 bytes of 64.
abbrev registers : ℕ → ℕ → RegisterSet
registers a b = set_register64 (set_register64 default_registers r0 a) r1 b

registers-IsRegisterFile : (a b : ℕ) → IsRegisterFile (registers a b)
registers-IsRegisterFile a b =
    set_register64-IsRegisterFile _ r1
      (set_register64-IsRegisterFile default_registers r0 default_registers-IsRegisterFile a) b

abbrev machine : ℕ → ℕ → Interpreter
machine a b = record {
  stack = record { cells = replicate 64 0; stack_pointer = 8 };
  flags = record { overflow = false; comparison = pos 0 };
  instructions = Instruction.return ∷ [];
  registers = registers a b;
}

machine-IsStack : (a b : ℕ) → IsStack (machine a b).stack
machine-IsStack a b = record {
  within = omega arith;
  bytes = All-replicate IsByte 64 0 (omega arith);
}

machine-IsInterpreter : (a b : ℕ) → IsInterpreter (Instruction.return ∷ []) 64 (machine a b)
machine-IsInterpreter a b = record {
  file = registers-IsRegisterFile a b;
  stack_valid = machine-IsStack a b;
  same_program = refl;
  same_capacity = refl;
}

value0 : (a b : ℕ) → a < 18446744073709551616 → get_register64 (registers a b) r0 ≡ a
value0 a b h =
    (rw (get-set_register64_ne (set_register64 default_registers r0 a) r1 r0 b (omega arith))
      (get-set_register64 default_registers r0 a default_registers-IsRegisterFile (omega arith) h))

value1 : (a b : ℕ) → b < 18446744073709551616 → get_register64 (registers a b) r1 ≡ b
value1 a b h =
    get-set_register64 _ r1 b
      (set_register64-IsRegisterFile default_registers r0 default_registers-IsRegisterFile a)
      (omega arith) h

step-IsInterpreter_example :
    IsInterpreter
      (Instruction.return ∷ [])
      64
      (step zeros true (Instruction.push64 r0) (machine 3 4)).1
step-IsInterpreter_example =
    step-IsInterpreter zeros true (Instruction.push64 r0) (Instruction.return ∷ []) 64 (machine 3 4)
      (machine-IsInterpreter 3 4)

step-arith_example :
    ArithOutcome w8 r0 r1
      (machine 200 100)
      (exact add (get_register w8 (registers 200 100) r0) (get_register w8 (registers 200 100) r1))
      (step zeros true (arith_instruction w8 add r0 r1) (machine 200 100))
step-arith_example =
    step-arith zeros true w8 add r0 r1 r1 (machine 200 100) (registers-IsRegisterFile 200 100)
      (omega arith) (omega arith)

step-signed_example :
    SignedOutcome w16 r0 r1
      (machine 9 3)
      (exact_signed
        (performed w16 idiv)
        (signed_value w16 (registers 9 3) r0)
        (signed_value w16 (registers 9 3) r1))
      (step zeros true (signed_instruction w16 idiv r0 r1) (machine 9 3))
step-signed_example =
    step-signed zeros true w16 idiv r0 r1 r1 (machine 9 3) (registers-IsRegisterFile 9 3)
      (omega arith) (omega arith)

abbrev in_call : Interpreter
in_call = (step zeros true (Instruction.call r0) (machine 5 6)).1

return-call_example :
    ((step zeros true (Instruction.call r0) (machine 5 6)).0 ≡ ok tt)
    × ((step zeros true Instruction.return in_call).0 ≡ ok tt)
    × (get_register64 (step zeros true Instruction.return in_call).1.registers instruction_pointer
        ≡ get_register64 (registers 5 6) instruction_pointer)
    × (get_register64 (step zeros true Instruction.return in_call).1.registers base_pointer
        ≡ get_register64 (registers 5 6) base_pointer)
    × (get_register64 (step zeros true Instruction.return in_call).1.registers stack_pointer
        ≡ get_register64 (registers 5 6) stack_pointer)
    × (contents (step zeros true Instruction.return in_call).1.stack ≡ contents (machine 5 6).stack)
return-call_example =
    return-call zeros true r0 (machine 5 6) in_call (registers-IsRegisterFile 5 6)
      (machine-IsStack 5 6) (omega arith) (omega arith)
      (step-IsInterpreter zeros true (Instruction.call r0) (Instruction.return ∷ []) 64
        (machine 5 6) (machine-IsInterpreter 5 6)).file
      refl refl

jump-cmp_example :
    get_register64
      (step zeros true
        (jump_on greater r0 r1)
        (step zeros true (Instruction.cmp r0 r1) (machine 9 3)).1).1.registers
      instruction_pointer
    ≡ (if holds greater (get_register64 (registers 9 3) r0) (get_register64 (registers 9 3) r1)
        then get_register64 (registers 9 3) r1
        else get_register64 (registers 9 3) instruction_pointer)
jump-cmp_example =
    jump-cmp zeros true greater r0 r1 r1 (machine 9 3) 64 (machine-IsInterpreter 9 3) (omega arith)
      (omega arith) (omega arith)
      (omega (arith, value0 9 3 (omega arith), value1 9 3 (omega arith)))
      (omega (arith, value0 9 3 (omega arith), value1 9 3 (omega arith)))

abbrev far : ℕ
far = 0xf000000000000000

jmp_neg-cmp_far_example :
    get_register64
      (step zeros true
        (Instruction.jmp_neg r0 r2)
        (step zeros true (Instruction.cmp r0 r1) (machine far 3)).1).1.registers
      instruction_pointer
    ≡ get_register64 (step zeros true (Instruction.cmp r0 r1) (machine far 3)).1.registers r2
jmp_neg-cmp_far_example =
    jmp_neg-cmp_far zeros true r0 r1 r2 (machine far 3) 64 (machine-IsInterpreter far 3)
      (omega arith) (omega (arith, value0 far 3 (omega arith), value1 far 3 (omega arith)))
