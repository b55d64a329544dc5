-- ===== src/Target/DataLayout.antt =====
-- compiler/hash-target/src/data_layout.rs: the data layout of a target, with the integers of abi.rs that it
-- names. `none` is a panic.
pub mod Parse
use hashc.Prelude.{ℕ, ◌^◌, Option, none, some, List, ◌==◌, if◌then◌else◌}
use hashc.Target.Size.{Size, bits}
use hashc.Target.Alignment.{Alignments}

pub data Endian : Type 0 where
  little_endian big_endian : Endian

pub data Integer : Type 0 where
  int8 int16 int32 int64 int128 : Integer

abbrev pub AddressSpace : Type 0
AddressSpace = ℕ

abbrev pub data_space : AddressSpace
data_space = 0

pub record TargetDataLayout : Type 0 where
  pub endian : Endian
  pub i1_align : Alignments
  pub i8_align : Alignments
  pub i16_align : Alignments
  pub i32_align : Alignments
  pub i64_align : Alignments
  pub i128_align : Alignments
  pub pointer_size : Size
  pub pointer_align : Alignments
  pub f32_align : Alignments
  pub f64_align : Alignments
  pub aggregate_align : Alignments
  pub vector_align : List (Size × Alignments)
  pub instruction_address_space : AddressSpace
  pub c_style_enum_min_size : Integer

abbrev for_bits {ℓ} : {A : Type ℓ} → A → A → A → Option ℕ → Option A
for_bits a b c none = none
for_bits a b c (some n) =
    if n == 16 then some a else if n == 32 then some b else if n == 64 then some c else none

unfoldable pub ptr_sized_integer : TargetDataLayout → Option Integer
ptr_sized_integer self = for_bits int16 int32 int64 (bits self.pointer_size)

unfoldable pub obj_size_bound : TargetDataLayout → Option ℕ
obj_size_bound self = for_bits (2 ^ 15) (2 ^ 31) (2 ^ 47) (bits self.pointer_size)
