-- ===== src/Target/Abi.antt =====
-- compiler/hash-target/src/abi.rs: how values are passed, and the sizes and alignments of scalars. `none` is a
-- panic.
pub mod Fits
use Prim.Native.Nat.{bit_and}
use hashc.Prelude.{
  ℕ, ◌+◌, ◌%◌, ◌^◌, ◌≤◌, Bool, true, false, ◌&&◌, ◌||◌, Option, none, some, List, [], ◌∷◌, leb, ltb,
  ◌==◌, if◌then◌else◌,
}
use hashc.Target.Size.{Size, unsigned_int_max}
use hashc.Target.Alignment.{Alignment, Alignments}
use hashc.Target.Alignment as Alignment
use hashc.Target.Primitives.{
  SIntTy, UIntTy, FloatTy, i8, i16, i32, i64, i128, isize, u8, u16, u32, u64, u128, usize, f32, f64,
}
use hashc.Target.DataLayout.{
  Integer, AddressSpace, TargetDataLayout, int8, int16, int32, int64, int128, ptr_sized_integer,
}

unfoldable pub int_size : Integer → Size
int_size int8 = record { value = 1 }
int_size int16 = record { value = 2 }
int_size int32 = record { value = 4 }
int_size int64 = record { value = 8 }
int_size int128 = record { value = 16 }

unfoldable pub int_align : Integer → TargetDataLayout → Alignments
int_align int8 dl = dl.i8_align
int_align int16 dl = dl.i16_align
int_align int32 dl = dl.i32_align
int_align int64 dl = dl.i64_align
int_align int128 dl = dl.i128_align

-- The place in the derived order.
abbrev pub int_rank : Integer → ℕ
int_rank int8 = 0
int_rank int16 = 1
int_rank int32 = 2
int_rank int64 = 3
int_rank int128 = 4

abbrev matches_alignment : TargetDataLayout → Alignment → Integer → Bool
matches_alignment dl alignment candidate =
    alignment.value == (int_align candidate dl).abi.value
    && leb (int_size candidate).value (Alignment.bytes alignment)

abbrev find_integer : (Integer → Bool) → List Integer → Option Integer
find_integer p [] = none
find_integer p (i ∷ is) = if p i then some i else find_integer p is

-- The first integer of that alignment that is not wider than it.
unfoldable pub for_alignment : TargetDataLayout → Alignment → Option Integer
for_alignment dl alignment =
    find_integer (matches_alignment dl alignment) (int8 ∷ int16 ∷ int32 ∷ int64 ∷ int128 ∷ [])

unfoldable pub from_unsigned_int_ty : UIntTy → TargetDataLayout → Option Integer
from_unsigned_int_ty u8 dl = some int8
from_unsigned_int_ty u16 dl = some int16
from_unsigned_int_ty u32 dl = some int32
from_unsigned_int_ty u64 dl = some int64
from_unsigned_int_ty u128 dl = some int128
from_unsigned_int_ty usize dl = ptr_sized_integer dl

unfoldable pub from_signed_int_ty : SIntTy → TargetDataLayout → Option Integer
from_signed_int_ty i8 dl = some int8
from_signed_int_ty i16 dl = some int16
from_signed_int_ty i32 dl = some int32
from_signed_int_ty i64 dl = some int64
from_signed_int_ty i128 dl = some int128
from_signed_int_ty isize dl = ptr_sized_integer dl

unfoldable pub float_size : FloatTy → Size
float_size f32 = record { value = 4 }
float_size f64 = record { value = 8 }

unfoldable pub float_align : FloatTy → TargetDataLayout → Alignments
float_align f32 dl = dl.f32_align
float_align f64 dl = dl.f64_align

pub data ScalarKind : Type 0 where
  int_kind : Integer → Bool → ScalarKind
  float_kind : FloatTy → ScalarKind
  pointer : AddressSpace → ScalarKind

unfoldable pub kind_align : ScalarKind → TargetDataLayout → Alignments
kind_align (int_kind kind signed) dl = int_align kind dl
kind_align (float_kind kind) dl = float_align kind dl
kind_align (pointer space) dl = dl.pointer_align

unfoldable pub kind_size : ScalarKind → TargetDataLayout → Size
kind_size (int_kind kind signed) dl = int_size kind
kind_size (float_kind kind) dl = float_size kind
kind_size (pointer space) dl = dl.pointer_size

pub record ValidScalarRange : Type 0 where
  pub start : ℕ
  pub end : ℕ

abbrev full_to : Option ℕ → Option ValidScalarRange
full_to none = none
full_to (some n) = some (record { start = 0; end = n })

unfoldable pub full : Size → Option ValidScalarRange
full size = full_to (unsigned_int_max size)

-- `wrapping_add` on a `u128`, and the debug assertion.
abbrev is_full_to : ValidScalarRange → Option ℕ → Option Bool
is_full_to self none = none
is_full_to self (some max_value) =
    if leb self.start max_value && leb self.end max_value
    then some (self.start == bit_and ((self.end + 1) % 2 ^ 128) max_value)
    else none

unfoldable pub is_full_for : ValidScalarRange → Size → Option Bool
is_full_for self size = is_full_to self (unsigned_int_max size)

-- A range whose start is above its end wraps around.
unfoldable pub contains : ValidScalarRange → ℕ → Bool
contains self value =
    if ltb self.end self.start
    then leb self.start value || leb value self.end
    else leb self.start value && leb value self.end

pub data Scalar : Type 0 where
  initialised : ScalarKind → ValidScalarRange → Scalar
  union_scalar : ScalarKind → Scalar

unfoldable pub scalar_kind : Scalar → ScalarKind
scalar_kind (initialised kind valid_range) = kind
scalar_kind (union_scalar kind) = kind

unfoldable pub to_union : Scalar → Scalar
unfolding scalar_kind
to_union self = union_scalar (scalar_kind self)

unfoldable pub scalar_align : Scalar → TargetDataLayout → Alignments
unfolding scalar_kind kind_align
scalar_align self dl = kind_align (scalar_kind self) dl

unfoldable pub scalar_size : Scalar → TargetDataLayout → Size
unfolding scalar_kind kind_size
scalar_size self dl = kind_size (scalar_kind self) dl

pub data AbiRepresentation : Type 0 where
  uninhabited : AbiRepresentation
  scalar_abi : Scalar → AbiRepresentation
  pair_abi : Scalar → Scalar → AbiRepresentation
  vector_abi : ℕ → Scalar → AbiRepresentation
  aggregate_abi : AbiRepresentation

unfoldable pub is_uninhabited : AbiRepresentation → Bool
is_uninhabited uninhabited = true
is_uninhabited _ = false
