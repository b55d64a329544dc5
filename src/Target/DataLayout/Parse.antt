-- ===== src/Target/DataLayout/Parse.antt =====
-- compiler/hash-target/src/data_layout.rs: reading the data layout string of LLVM. The reason that the
-- standard library gives for a number that it cannot read is left out of the errors.
pub mod Accepted
pub mod Bounds
pub mod Tests
use hashc.Prelude.{
  ℕ, ◌^◌, Bool, true, false, ◌&&◌, ◌||◌, Option, none, some, List, [], ◌∷◌, leb, ltb, ◌==◌,
  if◌then◌else◌,
}
use hashc.Lexer.Text.{Text, text_eq, digits_value}
use hashc.Target.Size.{Size, from_bits}
use hashc.Target.Alignment.{Alignment, Alignments, AlignmentResult, alignment_from_bits, new}
use hashc.Target.Alignment as Alignment
use hashc.Target.DataLayout.{
  TargetDataLayout, AddressSpace, data_space, little_endian, big_endian, int32,
}

pub data TargetDataLayoutParseError : Type 0 where
  malformed : Text → TargetDataLayoutParseError
  invalid_address_space invalid_alignment missing_alignment : Text → TargetDataLayoutParseError
  -- The bits and their cause; of a size or else of an alignment.
  invalid_bits : Bool → Text → Text → TargetDataLayoutParseError

pub data Parsed {ℓ} (A : Type ℓ) : Type ℓ where
  ok : A → Parsed A
  err : TargetDataLayoutParseError → Parsed A

infixl 5 ◌>>=◌
abbrev pub ◌>>=◌ {ℓ κ} : {A : Type ℓ} {B : Type κ} → Parsed A → (A → Parsed B) → Parsed B
ok a >>= f = f a
err e >>= f = err e

abbrev align_of : ℕ → Alignment
align_of exponent = record { value = exponent }

-- The bits of an alignment are 8 times its bytes.
unfoldable pub default_layout : TargetDataLayout
unfolding new
default_layout = record {
  endian = little_endian;
  i1_align = new (align_of 0);
  i8_align = new (align_of 0);
  i16_align = new (align_of 1);
  i32_align = new (align_of 2);
  i64_align = record { abi = align_of 2; preferred = align_of 3 };
  i128_align = record { abi = align_of 2; preferred = align_of 3 };
  pointer_size = record { value = 8 };
  pointer_align = new (align_of 3);
  f32_align = new (align_of 2);
  f64_align = new (align_of 3);
  aggregate_align = record { abi = align_of 0; preferred = align_of 3 };
  vector_align =
      (record { value = 8 }, new (align_of 3)) ∷ (record { value = 16 }, new (align_of 4)) ∷ [];
  instruction_address_space = data_space;
  c_style_enum_min_size = int32;
}

abbrev add_to_first : ℕ → List Text → List Text
add_to_first c [] = (c ∷ []) ∷ []
add_to_first c (part ∷ parts) = (c ∷ part) ∷ parts

-- `s.split(separator)`
unfoldable pub split_on : ℕ → Text → List Text
split_on separator [] = [] ∷ []
split_on separator (c ∷ cs) =
    let rest = split_on separator cs in if c == separator then [] ∷ rest else add_to_first c rest

abbrev below : ℕ → Option ℕ → Option ℕ
below bound none = none
below bound (some n) = if ltb n bound then some n else none

abbrev digits_below : ℕ → Text → Option ℕ
digits_below bound [] = none
digits_below bound (c ∷ cs) = below bound (digits_value 10 (some 0) (c ∷ cs))

-- `s.parse()` to an unsigned integer below the bound.
unfoldable pub parse_unsigned : ℕ → Text → Option ℕ
unfolding digits_value
parse_unsigned bound [] = none
parse_unsigned bound (c ∷ cs) =
    if c == b'+' then digits_below bound cs else digits_below bound (c ∷ cs)

abbrev or_error {ℓ} : {A : Type ℓ} → TargetDataLayoutParseError → Option A → Parsed A
or_error e none = err e
or_error e (some a) = ok a

abbrev alignment_or_error : Text → AlignmentResult → Parsed Alignment
alignment_or_error cause (Alignment.ok alignment) = ok alignment
alignment_or_error cause (Alignment.err e) = err (invalid_alignment cause)

unfoldable pub parse_alignment : Text → Text → Parsed Alignment
unfolding parse_unsigned
parse_alignment cause item = do
  bits ← or_error (invalid_bits false item cause) (parse_unsigned (2 ^ 64) item)
  alignment_or_error cause (alignment_from_bits bits)

abbrev parse_preferred : Text → Alignment → List Text → Parsed Alignment
parse_preferred cause abi [] = ok abi
parse_preferred cause abi (item ∷ items) = parse_alignment cause item

unfoldable pub parse_alignment_specification : List Text → Text → Parsed Alignments
unfolding parse_alignment
parse_alignment_specification [] cause = err (missing_alignment cause)
parse_alignment_specification (item ∷ items) cause = do
  abi ← parse_alignment cause item
  preferred ← parse_preferred cause abi items
  ok (record { abi = abi; preferred = preferred })

-- The layout so far, and the size whose alignment the one of 128 bits was taken from.
pub record Reading : Type 0 where
  pub layout : TargetDataLayout
  pub i128_align_src : ℕ

abbrev with_layout : Reading → TargetDataLayout → Reading
with_layout self layout = record self { layout = layout }

abbrev set_int_align : ℕ → Alignments → TargetDataLayout → TargetDataLayout
set_int_align bits a layout =
    if bits == 1
    then record layout { i1_align = a }
    else if bits == 8
    then record layout { i8_align = a }
    else if bits == 16
    then record layout { i16_align = a }
    else if bits == 32
    then record layout { i32_align = a }
    else if bits == 64
    then record layout { i64_align = a }
    else layout

abbrev set_i128_align : ℕ → Alignments → Reading → Reading
set_i128_align bits a self =
    if leb self.i128_align_src bits && leb bits 128
    then record { layout = record self.layout { i128_align = a }; i128_align_src = bits }
    else self

-- The part behind the letter.
abbrev behind_letter : Text → Text
behind_letter [] = []
behind_letter (c ∷ cs) = cs

unfoldable pub read_integer : Reading → Text → List Text → Parsed Reading
unfolding parse_alignment_specification
read_integer self s values = do
  bits ← or_error (invalid_bits true s s) (parse_unsigned (2 ^ 64) (behind_letter s))
  alignments ← parse_alignment_specification values s
  ok (set_i128_align bits alignments (with_layout self (set_int_align bits alignments self.layout)))

unfoldable pub read_pointer : Reading → Text → Text → List Text → Parsed Reading
unfolding parse_alignment_specification
read_pointer self p s values = do
  alignments ← parse_alignment_specification values p
  bits ← or_error (invalid_bits true s p) (parse_unsigned (2 ^ 64) s)
  ok (
      with_layout self
        (record self.layout { pointer_align = alignments; pointer_size = from_bits bits }))

abbrev starts_with : ℕ → Text → Bool
starts_with letter [] = false
starts_with letter (c ∷ cs) = c == letter

-- A part alone: an endianness, an address space or one that needs an alignment.
unfoldable pub read_alone : Reading → Text → Parsed Reading → Parsed Reading
unfolding parse_unsigned
read_alone self p others =
    let space = or_error (invalid_address_space p) (parse_unsigned (2 ^ 32) (behind_letter p)) in
    let with_space =
      space >>= λ n. ok (with_layout self (record self.layout { instruction_address_space = n })) in
    if text_eq p (b'e' ∷ [])
    then ok (with_layout self (record self.layout { endian = little_endian }))
    else if text_eq p (b'E' ∷ [])
    then ok (with_layout self (record self.layout { endian = big_endian }))
    else if starts_with b'P' p
    then with_space
    else others

abbrev with_alignments : List Text → Text → (Alignments → Reading) → Parsed Reading
with_alignments values cause f = parse_alignment_specification values cause >>= λ a. ok (f a)

abbrev pointer_or : Reading → Text → List Text → Parsed Reading → Parsed Reading
pointer_or self p [] others = others
pointer_or self p (s ∷ values) others =
    let pointer = read_pointer self p s values in
    if text_eq p (b'p' ∷ []) || text_eq p (b'p' ∷ b'0' ∷ []) then pointer else others

unfoldable pub read_type : Reading → Text → List Text → Parsed Reading
unfolding parse_alignment_specification read_integer read_pointer
read_type self s values =
    let aggregate =
      with_alignments values (b'a' ∷ [])
        (λ a. with_layout self (record self.layout { aggregate_align = a })) in
    let float32 =
      with_alignments values (b'f' ∷ b'3' ∷ b'2' ∷ [])
        (λ a. with_layout self (record self.layout { f32_align = a })) in
    let float64 =
      with_alignments values (b'f' ∷ b'6' ∷ b'4' ∷ [])
        (λ a. with_layout self (record self.layout { f64_align = a })) in
    let integer = read_integer self s values in
    let others = pointer_or self s values (if starts_with b'i' s then integer else ok self) in
    if text_eq s (b'a' ∷ [])
    then aggregate
    else if text_eq s (b'f' ∷ b'3' ∷ b'2' ∷ [])
    then float32
    else if text_eq s (b'f' ∷ b'6' ∷ b'4' ∷ [])
    then float64
    else others

abbrev read_parts : Reading → List Text → Parsed Reading
read_parts self [] = ok self
read_parts self (p ∷ []) = read_alone self p (read_type self p [])
read_parts self (s ∷ value ∷ values) = read_type self s (value ∷ values)

unfoldable pub read_components : Reading → List Text → Parsed Reading
unfolding read_alone read_type split_on
read_components self [] = ok self
read_components self (component ∷ components) = do
  next ← read_parts self (split_on b':' component)
  read_components next components

unfoldable pub parse_from_llvm_data_layout_string : Text → Parsed TargetDataLayout
unfolding read_components default_layout split_on
parse_from_llvm_data_layout_string [] = err (malformed [])
parse_from_llvm_data_layout_string (c ∷ cs) = do
  read ←
      read_components (record { layout = default_layout; i128_align_src = 64 })
        (split_on b'-' (c ∷ cs))
  ok read.layout
