-- ===== src/Target/Size.antt =====
-- compiler/hash-target/src/size.rs: sizes in bytes, and numbers cut to a size. `none` is a panic, or
-- the `None` of the checked operations; an overflow is a panic, as in a build that checks for it.
pub mod Bits
pub mod Limits
pub mod Tests
use hashc.Prelude.{
  ℕ, ◌+◌, ◌-◌, ◌*◌, ◌/◌, ◌%◌, ◌^◌, Bool, Option, none, some, ltb, leb, ◌==◌, if◌then◌else◌,
}

pub record Size : Type 0 where
  pub value : ℕ

abbrev u64 : ℕ
u64 = 2 ^ 64

abbrev pub u128 : ℕ
u128 = 2 ^ 128

unfoldable pub from_bits : ℕ → Size
from_bits bits = record { value = bits / 8 + (bits % 8 + 7) / 8 }

abbrev pub bytes : Size → ℕ
bytes self = self.value

unfoldable pub bits : Size → Option ℕ
bits self = if ltb (self.value * 8) u64 then some (self.value * 8) else none

-- The distance `128 - size` of the two shifts, which a `u128` takes up to 127.
unfoldable pub shift_of : ℕ → Option ℕ
shift_of size = if size == 0 then none else if leb size 128 then some (128 - size) else none

abbrev pub shift_left : ℕ → ℕ → ℕ
shift_left value shift = (value * 2 ^ shift) % u128

-- `>>` on an `i128`, given and taken as a bit pattern: the quotient of a negative number rounds down.
pub shift_right_signed : ℕ → ℕ → ℕ
shift_right_signed value shift =
    if ltb value (2 ^ 127)
    then value / 2 ^ shift
    else u128 - (u128 - value + (2 ^ shift - 1)) / 2 ^ shift

abbrev apply_shift : (ℕ → ℕ) → Option ℕ → Option ℕ
apply_shift f none = none
apply_shift f (some shift) = some (f shift)

abbrev sign_extend_bits : ℕ → Option ℕ → Option ℕ
sign_extend_bits value none = none
sign_extend_bits value (some size) =
    if size == 0
    then some 0
    else apply_shift (λ shift. shift_right_signed (shift_left value shift) shift) (shift_of size)

unfoldable pub sign_extend : Size → ℕ → Option ℕ
sign_extend self value = sign_extend_bits value (bits self)

abbrev truncate_bits : ℕ → Option ℕ → Option ℕ
truncate_bits value none = none
truncate_bits value (some size) =
    if size == 0
    then some 0
    else apply_shift (λ shift. shift_left value shift / 2 ^ shift) (shift_of size)

unfoldable pub truncate : Size → ℕ → Option ℕ
truncate self value = truncate_bits value (bits self)

abbrev max_bits : ℕ → Option ℕ → Option ℕ
max_bits max none = none
max_bits max (some size) = apply_shift (λ shift. max / 2 ^ shift) (shift_of size)

unfoldable pub signed_int_max : Size → Option ℕ
signed_int_max self = max_bits (2 ^ 127 - 1) (bits self)

unfoldable pub unsigned_int_max : Size → Option ℕ
unsigned_int_max self = max_bits (2 ^ 128 - 1) (bits self)

abbrev min_bits : Size → Option ℕ → Option ℕ
min_bits self none = none
min_bits self (some size) =
    if size == 0 then none else if leb size 128 then sign_extend self (2 ^ (size - 1)) else none

-- As a bit pattern of 128 bits.
unfoldable pub signed_int_min : Size → Option ℕ
signed_int_min self = min_bits self (bits self)

abbrev size_below : ℕ → ℕ → Option Size
size_below bound bytes = if ltb bytes bound then some (record { value = bytes }) else none

-- The bound is the target's `obj_size_bound`.
unfoldable pub checked_mul : ℕ → Size → ℕ → Option Size
checked_mul obj_size_bound self count =
    let bytes = self.value * count in
    if ltb bytes u64 then size_below obj_size_bound bytes else none

unfoldable pub checked_add : ℕ → Size → Size → Option Size
checked_add obj_size_bound self other =
    let bytes = self.value + other.value in
    if ltb bytes u64 then size_below obj_size_bound bytes else none

unfoldable pub add : Size → Size → Option Size
add self other = size_below u64 (self.value + other.value)

unfoldable pub sub : Size → Size → Option Size
sub self other =
    if leb other.value self.value then some (record { value = self.value - other.value }) else none

unfoldable pub mul : Size → ℕ → Option Size
mul self count = size_below u64 (self.value * count)
