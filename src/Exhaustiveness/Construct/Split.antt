-- ===== src/Exhaustiveness/Construct/Split.antt =====
-- compiler/hash-exhaustiveness/src/construct.rs: `split_ctor` against a column of patterns.
use hashc.Prelude.{◌≡◌, refl, Bool-cases, some, List, inl, inr}
use hashc.Exhaustiveness.Array.{fixed, var}
use hashc.Exhaustiveness.Array.Growth.{IsShort}
use hashc.Exhaustiveness.Array.Lengths.{Agrees, fixed-Agrees}
use hashc.Exhaustiveness.Range.{IntRange, IsRange, is_singleton, is_subrange, intersection, is_some}
use hashc.Exhaustiveness.Range as Range
use hashc.Exhaustiveness.Construct.{DeconstructedCtor, split_array, split_ctor}
use hashc.Exhaustiveness.Construct.Cover.{
  Value, holds, Column, singles, variants, int_ranges, arrays, IsColumn, to_split, used, All-impl,
  All-every, is_covered_by-singleton, int_range-Decides, array-Decides, variant-Decides,
  single-Decides,
}
use hashc.Exhaustiveness.Construct.Parts.{
  AreParts, one_part, range_parts, column-HasValue, array-HasValue,
}
use hashc.Exhaustiveness.Construct.ArrayParts.{array_parts}

-- A single constructor, a variant, an integer range or an array that is split against those of a column
-- of its type, without wildcards, never makes a panic, where the range is in order or all array lengths
-- are below 2^62. The parts have the values of the constructor, and for any value of a part
-- `is_ctor_covered_by_any` tells whether one of the column's constructors has that value. Strings are not
-- among these constructors: `is_ctor_covered_by_any` does not take them.
pub split_ctor-AreParts :
    (col : Column) (v : Value)
    → IsColumn col
    → (parts : List DeconstructedCtor) × AreParts col v parts
unfolding split_ctor split_array to_split used
split_ctor-AreParts (singles n) v h =
    one_part (singles n) v refl (column-HasValue (singles n) h) (single-Decides n v)
split_ctor-AreParts (variants i is) v h =
    one_part (variants i is) v refl (column-HasValue (variants i is) h) (variant-Decides i is v)
split_ctor-AreParts (int_ranges r rs) v h = elim (Bool-cases (is_singleton r)) [
  | inl e ↦ one_part (int_ranges r rs) v (rw e refl) (column-HasValue (int_ranges r rs) h) (
      int_range-Decides r rs v (λ n o.
        All-every (λ k. Range.is_covered_by r k ≡ some (holds k n)) rs
          (λ k. is_covered_by-singleton r k n e o)))
  | inr e ↦ range_parts r rs v h e
]
split_ctor-AreParts (arrays (var prefix suffix) ks) v ((a, b), hs) =
    array_parts prefix suffix ks v a b hs
split_ctor-AreParts (arrays (fixed m) ks) v (h, hs) =
    one_part (arrays (fixed m) ks) v refl (array-HasValue (record { kind = fixed m })) (
      array-Decides (record { kind = fixed m }) ks v
        (λ n. All-impl IsShort (Agrees n (record { kind = fixed m })) ks (fixed-Agrees m n) hs))
