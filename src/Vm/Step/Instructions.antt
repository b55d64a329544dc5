-- ===== src/Vm/Step/Instructions.antt =====
-- The arithmetic instructions by their width and operation.
use hashc.Prelude.{◌≡◌, Bool, arith}
use hashc.Vm.Register.{Register, Width, w8, w16, w32, w64}
use hashc.Vm.Alu.{ArithOp, add, sub, div, mul, rem, SignedOp, idiv, imul}
use hashc.Vm.Bytecode.{Instruction}
use hashc.Vm.Float.{FloatUnit}
use hashc.Vm.Arms.{
  unsigned_arith, signed_arith, arith8, arith16, arith32, arith64, signed8, signed16, signed32,
  signed64,
}
use hashc.Vm.Step.{step}

abbrev pub arith_instruction : Width → ArithOp → Register → Register → Instruction
arith_instruction w8 add l1 l2 = Instruction.add8 l1 l2
arith_instruction w8 sub l1 l2 = Instruction.sub8 l1 l2
arith_instruction w8 div l1 l2 = Instruction.div8 l1 l2
arith_instruction w8 mul l1 l2 = Instruction.mul8 l1 l2
arith_instruction w8 rem l1 l2 = Instruction.mod8 l1 l2
arith_instruction w16 add l1 l2 = Instruction.add16 l1 l2
arith_instruction w16 sub l1 l2 = Instruction.sub16 l1 l2
arith_instruction w16 div l1 l2 = Instruction.div16 l1 l2
arith_instruction w16 mul l1 l2 = Instruction.mul16 l1 l2
arith_instruction w16 rem l1 l2 = Instruction.mod16 l1 l2
arith_instruction w32 add l1 l2 = Instruction.add32 l1 l2
arith_instruction w32 sub l1 l2 = Instruction.sub32 l1 l2
arith_instruction w32 div l1 l2 = Instruction.div32 l1 l2
arith_instruction w32 mul l1 l2 = Instruction.mul32 l1 l2
arith_instruction w32 rem l1 l2 = Instruction.mod32 l1 l2
arith_instruction w64 add l1 l2 = Instruction.add64 l1 l2
arith_instruction w64 sub l1 l2 = Instruction.sub64 l1 l2
arith_instruction w64 div l1 l2 = Instruction.div64 l1 l2
arith_instruction w64 mul l1 l2 = Instruction.mul64 l1 l2
arith_instruction w64 rem l1 l2 = Instruction.mod64 l1 l2

pub step-arith_instruction :
    (floats : FloatUnit) (checks : Bool) (w : Width) (op : ArithOp) (l1 l2 : Register)
    → step floats checks (arith_instruction w op l1 l2) ≡ unsigned_arith w op l1 l2
unfolding step arith8 arith16 arith32 arith64
step-arith_instruction floats checks w op l1 l2 = ground arith

abbrev pub signed_instruction : Width → SignedOp → Register → Register → Instruction
signed_instruction w8 idiv l1 l2 = Instruction.idiv8 l1 l2
signed_instruction w8 imul l1 l2 = Instruction.imul8 l1 l2
signed_instruction w16 idiv l1 l2 = Instruction.idiv16 l1 l2
signed_instruction w16 imul l1 l2 = Instruction.imul16 l1 l2
signed_instruction w32 idiv l1 l2 = Instruction.idiv32 l1 l2
signed_instruction w32 imul l1 l2 = Instruction.imul32 l1 l2
signed_instruction w64 idiv l1 l2 = Instruction.idiv64 l1 l2
signed_instruction w64 imul l1 l2 = Instruction.imul64 l1 l2

-- What each signed instruction runs: `IDiv16` multiplies.
abbrev pub performed : Width → SignedOp → SignedOp
performed w16 idiv = imul
performed _ op = op

pub step-signed_instruction :
    (floats : FloatUnit) (checks : Bool) (w : Width) (op : SignedOp) (l1 l2 : Register)
    → step floats checks (signed_instruction w op l1 l2) ≡ signed_arith w (performed w op) l1 l2
unfolding step signed8 signed16 signed32 signed64
step-signed_instruction floats checks w op l1 l2 = ground arith
