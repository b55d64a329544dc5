-- ===== src/Vm/Bytecode.antt =====
-- compiler/hash-vm/src/bytecode.rs: the instruction set, with the fields of each instruction in order.
use hashc.Vm.Register.{Register}

pub data Instruction : Type 0 where
  pop8 pop16 pop32 pop64 push8 push16 push32 push64 : Register → Instruction
  add8 add16 add32 add64 sub8 sub16 sub32 sub64 : Register → Register → Instruction
  div8 div16 div32 div64 mul8 mul16 mul32 mul64 : Register → Register → Instruction
  mod8 mod16 mod32 mod64 idiv8 idiv16 idiv32 idiv64 : Register → Register → Instruction
  imul8 imul16 imul32 imul64 add_f32 add_f64 sub_f32 sub_f64 : Register → Register → Instruction
  div_f32 div_f64 mul_f32 mul_f64 mod_f32 mod_f64 xor8 xor16 : Register → Register → Instruction
  xor32 xor64 or8 or16 or32 or64 and8 and16 : Register → Register → Instruction
  and32 and64 : Register → Register → Instruction
  not8 not16 not32 not64 : Register → Instruction
  pow_f32 pow_f64 shl8 shl16 shl32 shl64 shr8 shr16 : Register → Register → Instruction
  shr32 shr64 : Register → Register → Instruction
  call : Register → Instruction
  mov : Register → Register → Instruction
  syscall : Register → Instruction
  return : Instruction
  jmp : Register → Instruction
  jmp_pos jmp_neg jmp_zero cmp : Register → Register → Instruction
