-- ===== src/Vm/Register.antt =====
-- compiler/hash-vm/src/register.rs: the 256 registers of eight bytes. A float is its bit pattern, so
-- the `f32` and `f64` accessors move the same bytes as those of `u32` and `u64`.
pub mod Access
pub mod RoundTrip
pub mod Words
pub mod Tests
use hashc.Prelude.{ℕ, ◌^◌, ◌≡◌, List, ◌++◌, take, drop, set, get_or, replicate, length}
use hashc.Prelude.Bytes.{All, IsByte, to_be_bytes, from_be_bytes}

pub record Register : Type 0 where
  pub index : ℕ

abbrev pub base_pointer : Register
base_pointer = record { index = 253 }

abbrev pub stack_pointer : Register
stack_pointer = record { index = 254 }

abbrev pub instruction_pointer : Register
instruction_pointer = record { index = 255 }

pub record RegisterSet : Type 0 where
  pub registers : List (List ℕ)

unfoldable pub default_registers : RegisterSet
default_registers = record { registers = replicate 256 (replicate 8 0) }

-- An index is a `u8` and there are 256 registers, so the fallback is never read.
pub get_register_8b : RegisterSet → Register → List ℕ
get_register_8b rs r = get_or rs.registers r.index (replicate 8 0)

pub get_register_4b : RegisterSet → Register → List ℕ
get_register_4b rs r = drop 4 (get_register_8b rs r)

pub get_register_2b : RegisterSet → Register → List ℕ
get_register_2b rs r = drop 6 (get_register_8b rs r)

pub get_register_b : RegisterSet → Register → List ℕ
get_register_b rs r = drop 7 (get_register_8b rs r)

-- The write through the reference of `get_register_mut`: the register becomes `reg`.
pub write_register : RegisterSet → Register → List ℕ → RegisterSet
write_register rs r reg = record { registers = set rs.registers r.index reg }

-- `reg[k..].copy_from_slice(value)`; the lengths agree wherever it is called.
pub copy_tail : ℕ → List ℕ → List ℕ → List ℕ
copy_tail k reg value = take k reg ++ value

pub set_register_8b : RegisterSet → Register → List ℕ → RegisterSet
set_register_8b rs r value = write_register rs r value

pub set_register_4b : RegisterSet → Register → List ℕ → RegisterSet
set_register_4b rs r value = write_register rs r (copy_tail 4 (get_register_8b rs r) value)

pub set_register_2b : RegisterSet → Register → List ℕ → RegisterSet
set_register_2b rs r value = write_register rs r (copy_tail 6 (get_register_8b rs r) value)

pub set_register_b : RegisterSet → Register → List ℕ → RegisterSet
set_register_b rs r value = write_register rs r (set (get_register_8b rs r) 7 (get_or value 0 0))

pub set_register64 : RegisterSet → Register → ℕ → RegisterSet
set_register64 rs r value = write_register rs r (to_be_bytes 8 value)

pub set_register_f64 : RegisterSet → Register → ℕ → RegisterSet
set_register_f64 rs r value = write_register rs r (to_be_bytes 8 value)

pub set_register_f32 : RegisterSet → Register → ℕ → RegisterSet
set_register_f32 rs r value =
    write_register rs r (copy_tail 4 (get_register_8b rs r) (to_be_bytes 4 value))

pub set_register32 : RegisterSet → Register → ℕ → RegisterSet
set_register32 rs r value =
    write_register rs r (copy_tail 4 (get_register_8b rs r) (to_be_bytes 4 value))

pub set_register16 : RegisterSet → Register → ℕ → RegisterSet
set_register16 rs r value =
    write_register rs r (copy_tail 6 (get_register_8b rs r) (to_be_bytes 2 value))

pub set_register8 : RegisterSet → Register → ℕ → RegisterSet
set_register8 rs r value = write_register rs r (set (get_register_8b rs r) 7 value)

pub get_register_f64 : RegisterSet → Register → ℕ
get_register_f64 rs r = from_be_bytes (get_register_8b rs r)

pub get_register_f32 : RegisterSet → Register → ℕ
get_register_f32 rs r = from_be_bytes (drop 4 (get_register_8b rs r))

pub get_register64 : RegisterSet → Register → ℕ
get_register64 rs r = from_be_bytes (get_register_8b rs r)

pub get_register32 : RegisterSet → Register → ℕ
get_register32 rs r = from_be_bytes (drop 4 (get_register_8b rs r))

pub get_register16 : RegisterSet → Register → ℕ
get_register16 rs r = from_be_bytes (drop 6 (get_register_8b rs r))

pub get_register8 : RegisterSet → Register → ℕ
get_register8 rs r = get_or (get_register_8b rs r) 7 0

abbrev pub IsWord : List ℕ → Type 0
IsWord bs = (length bs ≡ 8) × All IsByte bs

-- 256 registers of eight bytes each.
pub record IsRegisterFile (rs : RegisterSet) : Type 0 where
  pub count : length rs.registers ≡ 256
  pub words : All IsWord rs.registers

-- The four sizes that the instructions come in, with the accessors of each.
pub data Width : Type 0 where
  w8 w16 w32 w64 : Width

abbrev pub byte_count : Width → ℕ
byte_count w8 = 1
byte_count w16 = 2
byte_count w32 = 4
byte_count w64 = 8

-- The number of values of a word, `2^8` to `2^64`.
abbrev pub modulus : Width → ℕ
modulus w8 = 2 ^ 8
modulus w16 = 2 ^ 16
modulus w32 = 2 ^ 32
modulus w64 = 2 ^ 64

pub get_register : Width → RegisterSet → Register → ℕ
get_register w8 = get_register8
get_register w16 = get_register16
get_register w32 = get_register32
get_register w64 = get_register64

pub set_register : Width → RegisterSet → Register → ℕ → RegisterSet
set_register w8 = set_register8
set_register w16 = set_register16
set_register w32 = set_register32
set_register w64 = set_register64

pub get_register_bytes : Width → RegisterSet → Register → List ℕ
get_register_bytes w8 = get_register_b
get_register_bytes w16 = get_register_2b
get_register_bytes w32 = get_register_4b
get_register_bytes w64 = get_register_8b

pub set_register_bytes : Width → RegisterSet → Register → List ℕ → RegisterSet
set_register_bytes w8 = set_register_b
set_register_bytes w16 = set_register_2b
set_register_bytes w32 = set_register_4b
set_register_bytes w64 = set_register_8b
