-- ===== src/Target/Alignment.antt =====
-- compiler/hash-target/src/alignment.rs: alignments, which are powers of two.
pub mod Powers
pub mod Tests
use hashc.Prelude.{
  ℕ, zero, suc, ◌+◌, ◌-◌, ◌*◌, ◌/◌, ◌%◌, ◌^◌, ◌≤◌, Bool, Option, none, some, min, max, ltb, leb,
  ◌==◌, if◌then◌else◌,
}
use hashc.Target.Size.{Size, from_bits}

pub data AlignmentError : Type 0 where
  not_power_of_two too_large : AlignmentError

-- The exponent of the alignment.
pub record Alignment : Type 0 where
  pub value : ℕ

pub data AlignmentResult : Type 0 where
  ok : Alignment → AlignmentResult
  err : AlignmentError → AlignmentResult

abbrev pub one : Alignment
one = record { value = 0 }

abbrev pub max_alignment : Alignment
max_alignment = record { value = 32 }

-- The loop that halves an even number and counts the halvings; the first argument bounds the rounds.
unfoldable pub halve : ℕ → ℕ → ℕ → ℕ × ℕ
halve zero bytes value = (bytes, value)
halve (suc fuel) bytes value =
    if bytes % 2 == 0 then halve fuel (bytes / 2) (suc value) else (bytes, value)

-- A number is halved fewer times than it counts.
unfoldable pub from_bytes : ℕ → AlignmentResult
from_bytes size =
    let (bytes, value) = halve size size 0 in
    if size == 0
    then ok one
    else if bytes == 1
    then (if leb value max_alignment.value then ok (record { value = value }) else err too_large)
    else err not_power_of_two

unfoldable pub alignment_from_bits : ℕ → AlignmentResult
unfolding from_bits
alignment_from_bits size = from_bytes (from_bits size).value

-- `1 << self.value`, for an exponent below 64.
unfoldable pub bytes : Alignment → ℕ
bytes self = 2 ^ self.value

unfoldable pub bits : Alignment → ℕ
unfolding bytes
bits self = bytes self * 8

-- `trailing_zeros` of a `u64`.
unfoldable pub trailing_zeros : ℕ → ℕ
unfolding halve
trailing_zeros n = if n == 0 then 64 else (halve n n 0).1

unfoldable pub restrict_to : Alignment → Size → Alignment
unfolding trailing_zeros
restrict_to self offset = record { value = min self.value (trailing_zeros offset.value) }

-- The ABI's alignment and the preferred one.
pub record Alignments : Type 0 where
  pub abi : Alignment
  pub preferred : Alignment

unfoldable pub new : Alignment → Alignments
new align = record { abi = align; preferred = align }

abbrev min_alignment : Alignment → Alignment → Alignment
min_alignment a b = record { value = min a.value b.value }

abbrev max_of_two : Alignment → Alignment → Alignment
max_of_two a b = record { value = max a.value b.value }

unfoldable pub min_alignments : Alignments → Alignments → Alignments
min_alignments self other = record {
  abi = min_alignment self.abi other.abi;
  preferred = min_alignment self.preferred other.preferred;
}

unfoldable pub max_alignments : Alignments → Alignments → Alignments
max_alignments self other = record {
  abi = max_of_two self.abi other.abi;
  preferred = max_of_two self.preferred other.preferred;
}
