-- ===== src/Vm/Step.antt =====
-- `run_next_instruction` of compiler/hash-vm/src/vm.rs: the `match` on the instruction.
pub mod Valid
pub mod Instructions
pub mod Arith
pub mod Call
pub mod Branch
pub mod Tests
use hashc.Prelude.{Bool}
use hashc.Prelude.Int.{ℤ, is_positive, is_negative, is_zero}
use hashc.Vm.Register.{w8, w16, w32, w64}
use hashc.Vm.Alu.{ArithOp, SignedOp, BitOp, ShiftOp}
use hashc.Vm.Bytecode.{Instruction}
use hashc.Vm.Float.{FloatOp, FloatUnit}
use hashc.Vm.Interpreter.{Exec, panicked}
use hashc.Vm.Arms.{
  arith8, arith16, arith32, arith64, signed8, signed16, signed32, signed64, float32, float64,
  bitwise, negation, shift, move, jump, jump_if, compare_registers, pop_register, push_register,
  call_function, return_function,
}

-- The arm of an instruction. `Syscall` is a `todo!()`.
unfoldable pub step : FloatUnit → Bool → Instruction → Exec (Unit {0})
step floats checks (Instruction.add8 l1 l2) = arith8 ArithOp.add l1 l2
step floats checks (Instruction.sub8 l1 l2) = arith8 ArithOp.sub l1 l2
step floats checks (Instruction.div8 l1 l2) = arith8 ArithOp.div l1 l2
step floats checks (Instruction.mul8 l1 l2) = arith8 ArithOp.mul l1 l2
step floats checks (Instruction.mod8 l1 l2) = arith8 ArithOp.rem l1 l2
step floats checks (Instruction.add16 l1 l2) = arith16 ArithOp.add l1 l2
step floats checks (Instruction.sub16 l1 l2) = arith16 ArithOp.sub l1 l2
step floats checks (Instruction.div16 l1 l2) = arith16 ArithOp.div l1 l2
step floats checks (Instruction.mul16 l1 l2) = arith16 ArithOp.mul l1 l2
step floats checks (Instruction.mod16 l1 l2) = arith16 ArithOp.rem l1 l2
step floats checks (Instruction.add32 l1 l2) = arith32 ArithOp.add l1 l2
step floats checks (Instruction.sub32 l1 l2) = arith32 ArithOp.sub l1 l2
step floats checks (Instruction.div32 l1 l2) = arith32 ArithOp.div l1 l2
step floats checks (Instruction.mul32 l1 l2) = arith32 ArithOp.mul l1 l2
step floats checks (Instruction.mod32 l1 l2) = arith32 ArithOp.rem l1 l2
step floats checks (Instruction.add64 l1 l2) = arith64 ArithOp.add l1 l2
step floats checks (Instruction.sub64 l1 l2) = arith64 ArithOp.sub l1 l2
step floats checks (Instruction.div64 l1 l2) = arith64 ArithOp.div l1 l2
step floats checks (Instruction.mul64 l1 l2) = arith64 ArithOp.mul l1 l2
step floats checks (Instruction.mod64 l1 l2) = arith64 ArithOp.rem l1 l2
step floats checks (Instruction.idiv8 l1 l2) = signed8 SignedOp.idiv l1 l2
step floats checks (Instruction.imul8 l1 l2) = signed8 SignedOp.imul l1 l2
step floats checks (Instruction.idiv16 l1 l2) = signed16 SignedOp.idiv l1 l2
step floats checks (Instruction.imul16 l1 l2) = signed16 SignedOp.imul l1 l2
step floats checks (Instruction.idiv32 l1 l2) = signed32 SignedOp.idiv l1 l2
step floats checks (Instruction.imul32 l1 l2) = signed32 SignedOp.imul l1 l2
step floats checks (Instruction.idiv64 l1 l2) = signed64 SignedOp.idiv l1 l2
step floats checks (Instruction.imul64 l1 l2) = signed64 SignedOp.imul l1 l2
step floats checks (Instruction.add_f32 l1 l2) = float32 floats FloatOp.add l1 l2
step floats checks (Instruction.sub_f32 l1 l2) = float32 floats FloatOp.sub l1 l2
step floats checks (Instruction.div_f32 l1 l2) = float32 floats FloatOp.div l1 l2
step floats checks (Instruction.mul_f32 l1 l2) = float32 floats FloatOp.mul l1 l2
step floats checks (Instruction.mod_f32 l1 l2) = float32 floats FloatOp.rem l1 l2
step floats checks (Instruction.pow_f32 l1 l2) = float32 floats FloatOp.powf l1 l2
step floats checks (Instruction.add_f64 l1 l2) = float64 floats FloatOp.add l1 l2
step floats checks (Instruction.sub_f64 l1 l2) = float64 floats FloatOp.sub l1 l2
step floats checks (Instruction.div_f64 l1 l2) = float64 floats FloatOp.div l1 l2
step floats checks (Instruction.mul_f64 l1 l2) = float64 floats FloatOp.mul l1 l2
step floats checks (Instruction.mod_f64 l1 l2) = float64 floats FloatOp.rem l1 l2
step floats checks (Instruction.pow_f64 l1 l2) = float64 floats FloatOp.powf l1 l2
step floats checks (Instruction.xor8 l1 l2) = bitwise w8 BitOp.xor l1 l2
step floats checks (Instruction.xor16 l1 l2) = bitwise w16 BitOp.xor l1 l2
step floats checks (Instruction.xor32 l1 l2) = bitwise w32 BitOp.xor l1 l2
step floats checks (Instruction.xor64 l1 l2) = bitwise w64 BitOp.xor l1 l2
step floats checks (Instruction.or8 l1 l2) = bitwise w8 BitOp.or l1 l2
step floats checks (Instruction.or16 l1 l2) = bitwise w16 BitOp.or l1 l2
step floats checks (Instruction.or32 l1 l2) = bitwise w32 BitOp.or l1 l2
step floats checks (Instruction.or64 l1 l2) = bitwise w64 BitOp.or l1 l2
step floats checks (Instruction.and8 l1 l2) = bitwise w8 BitOp.and l1 l2
step floats checks (Instruction.and16 l1 l2) = bitwise w16 BitOp.and l1 l2
step floats checks (Instruction.and32 l1 l2) = bitwise w32 BitOp.and l1 l2
step floats checks (Instruction.and64 l1 l2) = bitwise w64 BitOp.and l1 l2
step floats checks (Instruction.not8 l1) = negation w8 l1
step floats checks (Instruction.not16 l1) = negation w16 l1
step floats checks (Instruction.not32 l1) = negation w32 l1
step floats checks (Instruction.not64 l1) = negation w64 l1
step floats checks (Instruction.shl8 l1 l2) = shift checks w8 ShiftOp.shl l1 l2
step floats checks (Instruction.shr8 l1 l2) = shift checks w8 ShiftOp.shr l1 l2
step floats checks (Instruction.shl16 l1 l2) = shift checks w16 ShiftOp.shl l1 l2
step floats checks (Instruction.shr16 l1 l2) = shift checks w16 ShiftOp.shr l1 l2
step floats checks (Instruction.shl32 l1 l2) = shift checks w32 ShiftOp.shl l1 l2
step floats checks (Instruction.shr32 l1 l2) = shift checks w32 ShiftOp.shr l1 l2
step floats checks (Instruction.shl64 l1 l2) = shift checks w64 ShiftOp.shl l1 l2
step floats checks (Instruction.shr64 l1 l2) = shift checks w64 ShiftOp.shr l1 l2
step floats checks (Instruction.mov src dest) = move src dest
step floats checks (Instruction.jmp location) = jump location
step floats checks (Instruction.jmp_pos l1 location) = jump_if is_positive l1 location
step floats checks (Instruction.jmp_neg l1 location) = jump_if is_negative l1 location
step floats checks (Instruction.jmp_zero l1 location) = jump_if is_zero l1 location
step floats checks (Instruction.cmp l1 l2) = compare_registers checks l1 l2
step floats checks (Instruction.pop8 l1) = pop_register w8 l1
step floats checks (Instruction.pop16 l1) = pop_register w16 l1
step floats checks (Instruction.pop32 l1) = pop_register w32 l1
step floats checks (Instruction.pop64 l1) = pop_register w64 l1
step floats checks (Instruction.push8 l1) = push_register w8 l1
step floats checks (Instruction.push16 l1) = push_register w16 l1
step floats checks (Instruction.push32 l1) = push_register w32 l1
step floats checks (Instruction.push64 l1) = push_register w64 l1
step floats checks (Instruction.call func) = call_function func
step floats checks Instruction.return = return_function
step floats checks (Instruction.syscall id) = panicked
