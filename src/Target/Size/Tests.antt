-- ===== src/Target/Size/Tests.antt =====
-- compiler/hash-target/src/size.rs: runs at small sizes.
use hashc.Prelude.{◌*◌, ◌%◌, ◌^◌, ◌≡◌, refl, some, ◌==◌, if◌then◌else◌, arith}
use hashc.Target.Size.{
  Size, bits, shift_of, shift_right_signed, sign_extend, truncate, unsigned_int_max, signed_int_max,
  signed_int_min, u128,
}
use hashc.Target.Size.Limits.{int_limits}
use hashc.Prelude.{◌-◌}
use hashc.Target.Size.Bits.{extended, truncate-mod, sign_extend-extended}

abbrev one_byte : Size
one_byte = record { value = 1 }

sign_extend_run : sign_extend one_byte 0x1fe ≡ some (2 ^ 128 - 2)
unfolding sign_extend bits shift_of shift_right_signed
sign_extend_run = refl

truncate-mod_example : truncate one_byte 0x1fe ≡ some (0x1fe % 2 ^ (1 * 8))
truncate-mod_example = truncate-mod one_byte 0x1fe (omega arith)

sign_extend-extended_example :
    sign_extend one_byte 0x1fe ≡ some (if 1 == 0 then 0 else extended (1 * 8) 0x1fe)
sign_extend-extended_example = sign_extend-extended one_byte 0x1fe (omega arith)

int_limits_example :
    (unsigned_int_max one_byte ≡ some (2 ^ (1 * 8) - 1))
    × (signed_int_max one_byte ≡ some (2 ^ (1 * 8 - 1) - 1))
    × (signed_int_min one_byte ≡ some (u128 - 2 ^ (1 * 8 - 1)))
int_limits_example = int_limits one_byte (omega arith) (omega arith)
