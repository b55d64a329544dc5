-- ===== src/Vm/Step/Valid.antt =====
-- Well-formedness of the machine across one instruction.
use hashc.Prelude.{ℕ, Bool, List}
use hashc.Vm.Float.{FloatUnit}
use hashc.Vm.Bytecode.{Instruction}
use hashc.Vm.Interpreter.{Interpreter}
use hashc.Vm.Interpreter.Keeps.{IsInterpreter, Keeps, Top, Keeps-panicked}
use hashc.Vm.Arms.Valid.{
  signed16-Keeps, bitwise-Keeps, negation-Keeps, shift-Keeps, move-Keeps, jump-Keeps, jump_if-Keeps,
  compare_registers-Keeps, pop_register-Keeps, push_register-Keeps, call_function-Keeps,
  return_function-Keeps, float32-Keeps, float64-Keeps, arith8-Keeps, arith16-Keeps, arith32-Keeps,
  arith64-Keeps, signed8-Keeps, signed32-Keeps, signed64-Keeps,
}
use hashc.Vm.Step.{step}

ruleset arm_rules = (
  arith8-Keeps, arith16-Keeps, arith32-Keeps, arith64-Keeps, signed8-Keeps, signed16-Keeps,
  signed32-Keeps, signed64-Keeps, bitwise-Keeps, negation-Keeps, shift-Keeps, move-Keeps,
  jump-Keeps, jump_if-Keeps, compare_registers-Keeps, pop_register-Keeps, push_register-Keeps,
  call_function-Keeps, return_function-Keeps, float32-Keeps, float64-Keeps, Keeps-panicked,
)

module _ (floats : FloatUnit) (checks : Bool) (program : List Instruction) (capacity : ℕ) where
  step-Keeps : (i : Instruction) → Keeps program capacity Top (step floats checks i)
  unfolding step
  step-Keeps Instruction.return = return_function-Keeps program capacity
  step-Keeps _ = search arm_rules

-- From a state with a register file of 256 words and a stack pointer within the stack's bytes, every
-- instruction, whether it succeeds, fails or panics, leaves such a state, with the same capacity of
-- the stack and the same program.
pub step-IsInterpreter :
    (floats : FloatUnit) (checks : Bool) (i : Instruction) (program : List Instruction)
    (capacity : ℕ) (vm : Interpreter)
    → IsInterpreter program capacity vm
    → IsInterpreter program capacity (step floats checks i vm).1
step-IsInterpreter floats checks i program capacity vm h =
    ((step-Keeps floats checks program capacity i).at vm h).0
