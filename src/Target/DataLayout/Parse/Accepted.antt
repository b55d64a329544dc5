-- ===== src/Target/DataLayout/Parse/Accepted.antt =====
-- compiler/hash-target/src/data_layout.rs: the alignments that the reading of a data layout accepts.
use hashc.Prelude.{
  ℕ, ◌^◌, ◌≤◌, Bool, true, false, Option, none, some, List, [], ◌∷◌, if◌then◌else◌, arith,
}
use hashc.Lexer.Text.{Text}
use hashc.Target.Size.{from_bits}
use hashc.Target.Alignment.{Alignment, Alignments, AlignmentResult, alignment_from_bits}
use hashc.Target.Alignment.Powers.{
  Parsed as ParsedAlignment, is_zero, is_power, is_large, is_other, from_bytes-Parsed,
}
use hashc.Target.DataLayout.{TargetDataLayout}
use hashc.Target.DataLayout.Parse.{
  Parsed, ok, err, ◌>>=◌, or_error, alignment_or_error, parse_unsigned, parse_alignment,
  parse_preferred, parse_alignment_specification,
}

-- The alignment and the preferred one are at most the largest alignment.
pub record AreBounded (a : Alignments) : Type 0 where
  pub abi : a.abi.value ≤ 32
  pub preferred : a.preferred.value ≤ 32

pub record HasAlignments (layout : TargetDataLayout) : Type 0 where
  pub i1 : AreBounded layout.i1_align
  pub i8 : AreBounded layout.i8_align
  pub i16 : AreBounded layout.i16_align
  pub i32 : AreBounded layout.i32_align
  pub i64 : AreBounded layout.i64_align
  pub i128 : AreBounded layout.i128_align
  pub pointers : AreBounded layout.pointer_align
  pub f32 : AreBounded layout.f32_align
  pub f64 : AreBounded layout.f64_align
  pub aggregates : AreBounded layout.aggregate_align

-- What is read has the property, if the string is not refused.
pub data Reads {ℓ} {A : Type ℓ} (P : A → Type 0) : Parsed A → Type ℓ where
  reads : (a : A) → P a → Reads P (ok a)
  refuses : {e : _} → Reads P (err e)

pub Reads-bind {ℓ} :
    {A B : Type ℓ} {P : A → Type 0} {Q : B → Type 0} (m : Parsed A) (f : A → Parsed B)
    → Reads P m
    → ((a : A) → P a → Reads Q (f a))
    → Reads Q (m >>= f)
Reads-bind _ f (reads a p) k = k a p
Reads-bind _ f refuses k = refuses

pub if_Reads {ℓ} :
    {A : Type ℓ} {P : A → Type 0} (b : Bool) (m m' : Parsed A)
    → Reads P m
    → Reads P m'
    → Reads P (if b then m else m')
if_Reads true m m' r r' = r
if_Reads false m m' r r' = r'

abbrev pub Any {ℓ} : {A : Type ℓ} → A → Type 0
Any a = Unit

pub or_error-Reads : (e : _) (o : Option ℕ) → Reads Any (or_error e o)
or_error-Reads e none = refuses
or_error-Reads e (some n) = reads n tt

abbrev IsBounded : Alignment → Type 0
IsBounded a = a.value ≤ 32

from_bytes-Reads :
    (cause : Text) (size : ℕ) (r : AlignmentResult)
    → ParsedAlignment size r
    → Reads IsBounded (alignment_or_error cause r)
from_bytes-Reads cause size r (is_zero e h) = rw h (reads _ (omega arith))
from_bytes-Reads cause size r (is_power a le e h) = rw h (reads a le)
from_bytes-Reads cause size r (is_large k lt e h) = rw h refuses
from_bytes-Reads cause size r (is_other ne h) = rw h refuses

parse_alignment-Reads : (cause item : Text) → Reads IsBounded (parse_alignment cause item)
unfolding parse_alignment alignment_from_bits
parse_alignment-Reads cause item =
    Reads-bind (or_error _ (parse_unsigned (2 ^ 64) item)) _
      (or_error-Reads _ (parse_unsigned (2 ^ 64) item))
      (λ bits u.
        from_bytes-Reads cause (from_bits bits).value _ (from_bytes-Parsed (from_bits bits).value))

parse_preferred-Reads :
    (cause : Text) (abi : Alignment) (items : List Text)
    → abi.value ≤ 32
    → Reads IsBounded (parse_preferred cause abi items)
parse_preferred-Reads cause abi [] h = reads abi h
parse_preferred-Reads cause abi (item ∷ items) h = parse_alignment-Reads cause item

pub parse_alignment_specification-Reads :
    (items : List Text) (cause : Text)
    → Reads AreBounded (parse_alignment_specification items cause)
unfolding parse_alignment_specification
parse_alignment_specification-Reads [] cause = refuses
parse_alignment_specification-Reads (item ∷ items) cause =
    Reads-bind (parse_alignment cause item) _ (parse_alignment-Reads cause item) (λ abi h.
      Reads-bind (parse_preferred cause abi items) _ (parse_preferred-Reads cause abi items h)
        (λ preferred k. reads _ (record { abi = h; preferred = k })))
