-- ===== src/Vm/Run.antt =====
-- `run_next_instruction` and `run` of compiler/hash-vm/src/vm.rs. The loop reads the instruction
-- pointer once, before it starts; it takes fuel here, and `none` means that the fuel ran out.
pub mod Loop
pub mod Tests
use hashc.Prelude.{
  ℕ, zero, suc, ◌+◌, ◌-◌, Bool, true, false, Option, none, some, length, get_elem?, ltb, ◌==◌,
  if◌then◌else◌,
}
use hashc.Vm.Error.{Outcome, ok, err, panic}
use hashc.Vm.Bytecode.{Instruction}
use hashc.Vm.Float.{FloatUnit}
use hashc.Vm.Interpreter.{Interpreter, get_instruction_pointer, set_instruction_pointer}
use hashc.Vm.Step.{step}

abbrev pub Run : Type 0
Run = Option (Outcome (Unit {0})) × Interpreter

-- `self.instructions.get(ip).unwrap()`, and its arm.
abbrev fetched :
    FloatUnit → Bool → Option Instruction → Interpreter → Outcome (Unit {0}) × Interpreter
fetched floats checks none vm = (panic, vm)
fetched floats checks (some i) vm = step floats checks i vm

pub run_next_instruction : FloatUnit → Bool → Interpreter → Outcome (Unit {0}) × Interpreter
run_next_instruction floats checks vm =
    fetched floats checks (get_elem? vm.instructions (get_instruction_pointer vm)) vm

-- What the loop does with the result of an instruction: `next` is the next round.
abbrev pub proceed : ℕ → (Interpreter → Run) → Outcome (Unit {0}) → Interpreter → Run
proceed ip next (ok _) vm =
    if ip == length vm.instructions - 1
    then (some (ok tt), vm)
    else next (set_instruction_pointer (ip + 1) vm)
proceed ip next (err e) vm = (some (err e), vm)
proceed ip next panic vm = (some panic, vm)

pub loop : FloatUnit → Bool → ℕ → ℕ → Interpreter → Run
loop floats checks zero ip vm = (none, vm)
loop floats checks (suc fuel) ip vm = elim (ltb ip (length vm.instructions)) [
  | true ↦
      proceed ip (loop floats checks fuel ip) (run_next_instruction floats checks vm).0
        (run_next_instruction floats checks vm).1
  | false ↦ (some (ok tt), vm)
]

pub run : FloatUnit → Bool → ℕ → Interpreter → Run
run floats checks fuel vm = loop floats checks fuel (get_instruction_pointer vm) vm
