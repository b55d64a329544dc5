-- ===== src/Vm/Step/Arith.antt =====
-- The arithmetic instructions against arithmetic over the integers.
use hashc.Prelude.{◌<◌, ◌≢◌, Bool}
use hashc.Vm.Register.{Register, IsRegisterFile, Width, get_register}
use hashc.Vm.Alu.{ArithOp, SignedOp}
use hashc.Vm.Alu.Exact.{exact}
use hashc.Vm.Float.{FloatUnit}
use hashc.Vm.Interpreter.{Interpreter}
use hashc.Vm.Arms.Unsigned.{ArithOutcome, unsigned_arith-outcome}
use hashc.Vm.Arms.Signed.{SignedOutcome, exact_signed, signed_value, signed_arith-outcome}
use hashc.Vm.Step.{step}
use hashc.Vm.Step.Instructions.{
  arith_instruction, step-arith_instruction, signed_instruction, step-signed_instruction, performed,
}

-- `Add`, `Sub`, `Div`, `Mul` and `Mod` at 8 to 64 bits, on a register file of 256 words. If the
-- operation has a result over the integers, the instruction succeeds, the low word of `l1` is that
-- result modulo `2^N`, the overflow flag says whether it was out of range, and the stack and every
-- register `q` other than `l1` are as before. A zero divisor is a panic that changes nothing.
pub step-arith :
    (floats : FloatUnit) (checks : Bool) (w : Width) (op : ArithOp) (l1 l2 q : Register)
    (vm : Interpreter)
    → IsRegisterFile vm.registers
    → l1.index < 256
    → l1.index ≢ q.index
    → ArithOutcome w l1 q vm
        (exact op (get_register w vm.registers l1) (get_register w vm.registers l2))
        (step floats checks (arith_instruction w op l1 l2) vm)
step-arith floats checks w op l1 l2 q vm h hr ne =
    rw (step-arith_instruction floats checks w op l1 l2)
      (unsigned_arith-outcome w l1 q vm h hr ne op l2)

-- `IDiv` and `IMul` at 8 to 64 bits, on a register file of 256 words. The operation performed is the
-- one named, except that `IDiv16` multiplies. If it has a result over the integers, the instruction
-- succeeds, the signed low word of `l1` is that result if it fits and is wrapped to the width if not,
-- the overflow flag says which, and the stack and every register `q` other than `l1` are as before. A
-- zero divisor is a panic that changes nothing.
pub step-signed :
    (floats : FloatUnit) (checks : Bool) (w : Width) (op : SignedOp) (l1 l2 q : Register)
    (vm : Interpreter)
    → IsRegisterFile vm.registers
    → l1.index < 256
    → l1.index ≢ q.index
    → SignedOutcome w l1 q vm
        (exact_signed
          (performed w op)
          (signed_value w vm.registers l1)
          (signed_value w vm.registers l2))
        (step floats checks (signed_instruction w op l1 l2) vm)
step-signed floats checks w op l1 l2 q vm h hr ne =
    rw (step-signed_instruction floats checks w op l1 l2)
      (signed_arith-outcome w l1 q vm h hr ne (performed w op) l2)
