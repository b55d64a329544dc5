-- ===== src/Vm/Run/Tests.antt =====
-- Programs of one and of three instructions.
use hashc.Prelude.{◌+◌, ◌≡◌, ◌≢◌, refl, true, some, List, [], ◌∷◌, get_elem?, arith}
use hashc.Vm.Error.{ok}
use hashc.Vm.Register.Tests.{r0, r1}
use hashc.Vm.Bytecode.{Instruction}
use hashc.Vm.Interpreter.{
  Interpreter, new, set_program, read, write, get_instruction_pointer, set_instruction_pointer,
}
use hashc.Vm.Interpreter.Keeps.{IsInterpreter, new-IsInterpreter, new-instruction_pointer}
use hashc.Vm.Arms.{move}
use hashc.Vm.Step.{step}
use hashc.Vm.Step.Tests.{zeros}
use hashc.Vm.Run.{run}
use hashc.Vm.Run.Loop.{run-ne_ok, run-last, again, run-again}

abbrev three : List Instruction
three = Instruction.mov r0 r1 ∷ Instruction.mov r1 r0 ∷ Instruction.return ∷ []

abbrev one : List Instruction
one = Instruction.add16 r0 r1 ∷ []

abbrev loaded : List Instruction → Interpreter
loaded program = set_program program new

good : (program : List Instruction) → IsInterpreter program 10_000 (loaded program)
good program = new-IsInterpreter program

ip_lem : (program : List Instruction) → get_instruction_pointer (loaded program) ≡ 0
ip_lem program = new-instruction_pointer program

run-ne_ok_example : (run zeros true 1000 (loaded three)).0 ≢ some (ok tt)
run-ne_ok_example =
    run-ne_ok zeros true three 10_000 1000 (loaded three) (good three) (omega (arith, ip_lem three))

at_start :
    (i : Instruction) (program : List Instruction)
    → get_elem? (i ∷ program) (get_instruction_pointer (loaded (i ∷ program))) ≡ some i
at_start i program = rw (ip_lem (i ∷ program)) refl

run-last_example : run zeros true 1 (loaded one) ≡ (
  some (step zeros true (Instruction.add16 r0 r1) (loaded one)).0,
  (step zeros true (Instruction.add16 r0 r1) (loaded one)).1,
)
run-last_example =
    run-last zeros true one 10_000 0 (Instruction.add16 r0 r1) (loaded one) (good one)
      (omega (arith, ip_lem one)) (at_start (Instruction.add16 r0 r1) [])

at_next :
    get_elem? three (get_instruction_pointer (loaded three) + 1) ≡ some (Instruction.mov r1 r0)
at_next = rw (ip_lem three) refl

abbrev moved : Interpreter
moved = (step zeros true (Instruction.mov r0 r1) (loaded three)).1

move_ok : step zeros true (Instruction.mov r0 r1) (loaded three) ≡ (ok tt, moved)
unfolding step move read write
move_ok = refl

run-again_example :
    run zeros true 6 (loaded three)
    ≡ again zeros true 5
        (get_instruction_pointer (loaded three) + 1)
        (Instruction.mov r1 r0)
        (set_instruction_pointer (get_instruction_pointer (loaded three) + 1) moved)
run-again_example =
    run-again zeros true three 10_000 5 (Instruction.mov r0 r1) (Instruction.mov r1 r0)
      (loaded three) moved (good three) (omega (arith, ip_lem three)) (omega arith)
      (at_start (Instruction.mov r0 r1) _) at_next move_ok
