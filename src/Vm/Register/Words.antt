-- ===== src/Vm/Register/Words.antt =====
-- The accessors that the machine calls by their own names, rather than by a width.
use hashc.Prelude.{ℕ, ◌^◌, ◌<◌, ◌≡◌, ◌≢◌, refl, ap, List, arith, replicate}
use hashc.Prelude.Bytes.{IsByte, All-replicate, from_be_bytes, length-to_be_bytes, to_be_bytes-All}
use hashc.Vm.Register.{
  IsWord, default_registers, instruction_pointer, Register, RegisterSet, IsRegisterFile, w64,
  get_register, set_register, get_register64, set_register64, get_register_8b, set_register_8b,
  get_register_bytes, set_register_bytes, set_register_f32, set_register_f64,
}
use hashc.Vm.Register.Access.{
  IsWord-get_register_8b, write_register-IsRegisterFile, get_register_8b-write_ne, copy_tail-IsWord,
}
use hashc.Vm.Register.RoundTrip.{
  IsBytes, get_register-lt, get-set_register, get-set_register_bytes, get_register_8b-set_bytes_ne,
  set_register_bytes-IsRegisterFile,
}

module _ (rs : RegisterSet) (r : Register) (h : IsRegisterFile rs) where
  pub get_register64-lt : get_register64 rs r < 2 ^ 64
  get_register64-lt = unfold get_register in get_register-lt rs r h w64

  pub set_register64-IsRegisterFile : (v : ℕ) → IsRegisterFile (set_register64 rs r v)
  unfolding set_register64
  set_register64-IsRegisterFile v =
      write_register-IsRegisterFile rs r _ h (length-to_be_bytes 8 v, to_be_bytes-All 8 v)

  pub set_register_8b-IsRegisterFile :
      (bs : List ℕ) → IsBytes w64 bs → IsRegisterFile (set_register_8b rs r bs)
  set_register_8b-IsRegisterFile bs b =
      unfold set_register_bytes in set_register_bytes-IsRegisterFile rs r h w64 bs b

  pub set_register_f64-IsRegisterFile : (v : ℕ) → IsRegisterFile (set_register_f64 rs r v)
  unfolding set_register_f64
  set_register_f64-IsRegisterFile v =
      write_register-IsRegisterFile rs r _ h (length-to_be_bytes 8 v, to_be_bytes-All 8 v)

  pub set_register_f32-IsRegisterFile : (v : ℕ) → IsRegisterFile (set_register_f32 rs r v)
  unfolding set_register_f32
  set_register_f32-IsRegisterFile v = write_register-IsRegisterFile rs r _ h (
      copy_tail-IsWord (get_register_8b rs r) _ 4 (IsWord-get_register_8b rs r h) (omega arith)
        (length-to_be_bytes 4 v) (to_be_bytes-All 4 v))

-- Reading back a 64-bit write.
pub get-set_register64 :
    (rs : RegisterSet) (r : Register) (v : ℕ)
    → IsRegisterFile rs
    → r.index < 256
    → v < 2 ^ 64
    → get_register64 (set_register64 rs r v) r ≡ v
get-set_register64 rs r v h hr fits =
    unfold get_register set_register in get-set_register w64 rs r v h hr fits

-- A 64-bit write leaves the 64-bit value of another register.
pub get-set_register64_ne :
    (rs : RegisterSet) (r q : Register) (v : ℕ)
    → r.index ≢ q.index
    → get_register64 (set_register64 rs r v) q ≡ get_register64 rs q
unfolding get_register64 set_register64
get-set_register64_ne rs r q v ne = ap from_be_bytes (get_register_8b-write_ne rs r q _ ne)

module _ (rs : RegisterSet) (r : Register) (bs : List ℕ) (h : IsRegisterFile rs)
    (b : IsBytes w64 bs) where
  pub get-set_register_8b : r.index < 256 → get_register_8b (set_register_8b rs r bs) r ≡ bs
  get-set_register_8b hr =
      unfold get_register_bytes set_register_bytes in get-set_register_bytes rs r h w64 bs b hr

  pub get-set_register_8b_ne :
      (q : Register)
      → r.index ≢ q.index
      → get_register64 (set_register_8b rs r bs) q ≡ get_register64 rs q
  unfolding get_register64
  get-set_register_8b_ne q ne =
      ap from_be_bytes
        (unfold set_register_bytes in get_register_8b-set_bytes_ne rs r h w64 bs b q ne)

-- The registers of a new machine are all zero.
pub default_registers-IsRegisterFile : IsRegisterFile default_registers
unfolding default_registers
default_registers-IsRegisterFile = record {
  count = refl;
  words = All-replicate IsWord 256 (replicate 8 0) (refl, All-replicate IsByte 8 0 (omega arith));
}

pub default_instruction_pointer : get_register64 default_registers instruction_pointer ≡ 0
unfolding default_registers get_register64 get_register_8b from_be_bytes
default_instruction_pointer = refl
