-- ===== src/Repr/Discriminant.antt =====
-- compiler/hash-repr/src/compute.rs and ty.rs: the discriminants of an enum and the integer that holds them.
-- An `i128` is given as its bit pattern.
pub mod Holds
pub mod Tag
pub mod Tests
use hashc.Prelude.{
  ℕ, zero, suc, ◌+◌, ◌-◌, ◌*◌, ◌/◌, ◌%◌, ◌^◌, Bool, true, false, ◌&&◌, ◌||◌, max, Option, none,
  some, List, [], ◌∷◌, ltb, leb, ◌==◌, if◌then◌else◌, length,
}
use hashc.Target.Size.{Size, from_bits, shift_left, shift_right_signed}
use hashc.Target.DataLayout.{TargetDataLayout, Integer, int8, int16, int32, int64, int128}
use hashc.Target.Primitives.{
  SIntTy, UIntTy, IntTy, i8, i16, i32, i64, i128, isize, u8, u16, u32, u64, u128, usize, int, uint,
  big,
}
use hashc.Target.Abi.{int_rank, from_unsigned_int_ty, from_signed_int_ty, is_uninhabited}
use hashc.Repr.Layout.{Laid, done, panicked, ◌>>=◌, or_panic, Layout}
use hashc.Repr.Placement.{AdtRepresentation, is_c_like}

unfoldable pub fit_unsigned : ℕ → Integer
fit_unsigned value =
    if ltb value (2 ^ 8)
    then int8
    else if ltb value (2 ^ 16)
    then int16
    else if ltb value (2 ^ 32)
    then int32
    else if ltb value (2 ^ 64)
    then int64
    else int128

-- Whether the signed number lies in the range of that many bits.
abbrev pub fits_signed : ℕ → ℕ → Bool
fits_signed bits value = ltb value (2 ^ (bits - 1)) || leb (2 ^ 128 - 2 ^ (bits - 1)) value

unfoldable pub fit_signed : ℕ → Integer
fit_signed value =
    if fits_signed 8 value
    then int8
    else if fits_signed 16 value
    then int16
    else if fits_signed 32 value
    then int32
    else if fits_signed 64 value
    then int64
    else int128

abbrev pub int_max : Integer → Integer → Integer
int_max a b = if ltb (int_rank b) (int_rank a) then a else b

unfoldable pub from_int_ty : IntTy → TargetDataLayout → Option Integer
from_int_ty (uint ty) dl = from_unsigned_int_ty ty dl
from_int_ty (int ty) dl = from_signed_int_ty ty dl
from_int_ty (big ty) dl = none

unfoldable pub uint_size : UIntTy → Size → Size
uint_size u8 ptr_size = record { value = 1 }
uint_size u16 ptr_size = record { value = 2 }
uint_size u32 ptr_size = record { value = 4 }
uint_size u64 ptr_size = record { value = 8 }
uint_size usize ptr_size = ptr_size
uint_size u128 ptr_size = record { value = 16 }

unfoldable pub sint_size : SIntTy → Size → Size
sint_size i8 ptr_size = record { value = 1 }
sint_size i16 ptr_size = record { value = 2 }
sint_size i32 ptr_size = record { value = 4 }
sint_size i64 ptr_size = record { value = 8 }
sint_size isize ptr_size = ptr_size
sint_size i128 ptr_size = record { value = 16 }

unfoldable pub int_ty_size : IntTy → Size → Option Size
unfolding uint_size sint_size
int_ty_size (int ty) ptr_width = some (sint_size ty ptr_width)
int_ty_size (uint ty) ptr_width = some (uint_size ty ptr_width)
int_ty_size (big ty) ptr_width = none

abbrev pub is_signed : IntTy → Bool
is_signed (int ty) = true
is_signed _ = false

unfoldable pub from_size : Size → Option UIntTy
from_size size =
    if leb size.value 1
    then some u8
    else if size.value == 2
    then some u16
    else if leb size.value 4
    then some u32
    else if leb size.value 8
    then some u64
    else if leb size.value 16
    then some u128
    else none

-- The number of bits, `64 - leading_zeros` on a `u64`; the first argument bounds the rounds.
unfoldable pub bit_width : ℕ → ℕ → ℕ
bit_width zero n = 0
bit_width (suc fuel) n = let rest = bit_width fuel (n / 2) in if n == 0 then 0 else suc rest

-- The parts of an ADT that its layout reads.
pub record Adt : Type 0 where
  pub discriminants : List ℕ
  pub is_struct : Bool
  pub is_tuple : Bool
  pub is_union : Bool
  pub is_enum : Bool
  pub metadata : AdtRepresentation

abbrev uint_of : Option UIntTy → Laid IntTy
uint_of none = panicked
uint_of (some ty) = done (uint ty)

abbrev discriminant_ty_of : Adt → Option IntTy → Laid IntTy
discriminant_ty_of adt (some ty) = done ty
discriminant_ty_of adt none =
    uint_of (from_size (from_bits (max 1 (bit_width 64 (length adt.discriminants)))))

unfoldable pub discriminant_ty : Adt → Laid IntTy
unfolding from_size bit_width
discriminant_ty self = discriminant_ty_of self self.metadata.discriminant

-- The order of `i128`s.
abbrev pub signed_lt : ℕ → ℕ → Bool
signed_lt a b = ltb ((a + 2 ^ 127) % 2 ^ 128) ((b + 2 ^ 127) % 2 ^ 128)

abbrev pub i128_max : ℕ
i128_max = 2 ^ 127 - 1

abbrev pub i128_min : ℕ
i128_min = 2 ^ 127

unfoldable pub any_uninhabited : List Layout → Bool
unfolding is_uninhabited
any_uninhabited [] = false
any_uninhabited (field ∷ fields) = is_uninhabited field.abi || any_uninhabited fields

-- `(value << (128 - bits)) >> (128 - bits)` where the type is signed.
abbrev clamp_discriminant : Bool → ℕ → ℕ → ℕ
clamp_discriminant signed bits value =
    if signed then shift_right_signed (shift_left value (128 - bits)) (128 - bits) else value

-- A discriminant and the fields of its variant are at one place in their lists.
unfoldable pub range_of_variants : Bool → ℕ → List ℕ → List (List Layout) → ℕ × ℕ → ℕ × ℕ
unfolding any_uninhabited
range_of_variants signed bits (value ∷ values) (fields ∷ table) (lo, hi) =
    let v = clamp_discriminant signed bits value in
    let next : ℕ × ℕ = (if signed_lt v lo then v else lo, if signed_lt hi v then v else hi) in
    range_of_variants signed bits values table (if any_uninhabited fields then (lo, hi) else next)
range_of_variants signed bits _ _ range = range

abbrev pretend_one : ℕ × ℕ → ℕ × ℕ
pretend_one (lo, hi) = if lo == i128_max && hi == i128_min then (0, 0) else (lo, hi)

abbrev assert_ordered : ℕ × ℕ → Laid (ℕ × ℕ)
assert_ordered (lo, hi) = if signed_lt hi lo then panicked else done (lo, hi)

unfoldable pub compute_discriminant_range :
    TargetDataLayout → Adt → List (List Layout) → Laid (ℕ × ℕ)
unfolding discriminant_ty int_ty_size range_of_variants
compute_discriminant_range dl adt variant_layouts = do
  discr_ty ← discriminant_ty adt
  size ← or_panic (int_ty_size discr_ty dl.pointer_size)
  assert_ordered (
      pretend_one (
        range_of_variants (is_signed discr_ty) (size.value * 8) adt.discriminants variant_layouts
          (i128_max, i128_min)))

abbrev specified_representation :
    TargetDataLayout → Integer → Integer → IntTy → Laid (Integer × Bool)
specified_representation dl unsigned_fit signed_fit discr_ty = do
  discr ← or_panic (from_int_ty discr_ty dl)
  let fit = if is_signed discr_ty then signed_fit else unsigned_fit
  if ltb (int_rank discr) (int_rank fit) then panicked else done (discr, is_signed discr_ty)

abbrev smallest_representation : Integer → Integer → Integer → ℕ → Laid (Integer × Bool)
smallest_representation minimum unsigned_fit signed_fit min = done (
    if ltb min (2 ^ 127)
    then (int_max unsigned_fit minimum, false)
    else (int_max signed_fit minimum, true))

abbrev representation_for :
    TargetDataLayout
    → AdtRepresentation
    → Option IntTy
    → Integer
    → Integer
    → ℕ
    → Laid (Integer × Bool)
representation_for dl metadata (some discr_ty) unsigned_fit signed_fit min =
    specified_representation dl unsigned_fit signed_fit discr_ty
representation_for dl metadata none unsigned_fit signed_fit min =
    smallest_representation (if is_c_like metadata then dl.c_style_enum_min_size else int8)
      unsigned_fit signed_fit min

unfoldable pub discriminant_representation : Adt → TargetDataLayout → ℕ → ℕ → Laid (Integer × Bool)
unfolding fit_unsigned fit_signed from_int_ty
discriminant_representation self dl min max_value =
    representation_for dl self.metadata self.metadata.discriminant
      (fit_unsigned (max min max_value)) (int_max (fit_signed min) (fit_signed max_value)) min
