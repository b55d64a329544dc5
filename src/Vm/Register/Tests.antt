-- ===== src/Vm/Register/Tests.antt =====
-- Registers at concrete inputs.
use hashc.Prelude.{◌/◌, ◌*◌, ◌+◌, ◌≡◌, refl, arith}
use hashc.Prelude.Bytes.{to_be_bytes, from_be_bytes}
use hashc.Vm.Register.{
  Register, RegisterSet, default_registers, IsRegisterFile, w16, w32, w64, modulus, set_register,
  get_register64, set_register64, set_register16, get_register_8b, write_register, copy_tail,
}
use hashc.Vm.Register.Words.{default_registers-IsRegisterFile}
use hashc.Vm.Register.RoundTrip.{
  get_register64-set_register, get_register_8b-set_register_ne, set_register-IsRegisterFile,
}

abbrev pub r0 : Register
r0 = record { index = 0 }

abbrev pub r1 : Register
r1 = record { index = 1 }

abbrev full : RegisterSet
full = set_register w64 default_registers r0 0x1122334455667788

full-IsRegisterFile : IsRegisterFile full
full-IsRegisterFile =
    set_register-IsRegisterFile default_registers r0 default_registers-IsRegisterFile w64
      0x1122334455667788 (omega arith)

-- The low bytes of a register are the last of its eight.
narrow_write : get_register64 (set_register w16 full r0 0xaabb) r0 ≡ 0x112233445566aabb
unfolding default_registers get_register64 get_register_8b set_register set_register64
    set_register16 write_register copy_tail to_be_bytes from_be_bytes
narrow_write = refl

get_register64-set_register_example :
    get_register64 (set_register w16 full r0 0xaabb) r0
    ≡ get_register64 full r0 / modulus w16 * modulus w16 + 0xaabb
get_register64-set_register_example =
    get_register64-set_register w16 full r0 0xaabb full-IsRegisterFile (omega arith) (omega arith)

get_register_8b-set_register_ne_example :
    get_register_8b (set_register w32 full r1 5) r0 ≡ get_register_8b full r0
get_register_8b-set_register_ne_example =
    get_register_8b-set_register_ne w32 full r1 r0 5 full-IsRegisterFile (omega arith) (omega arith)
