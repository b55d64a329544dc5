-- ===== src/Exhaustiveness/Construct/Tests.antt =====
-- compiler/hash-exhaustiveness/src/construct.rs: splitting against small columns.
use hashc.Prelude.{ℕ, ◌≡◌, none, some, List, [], ◌∷◌, map, ◌==◌, arith}
use hashc.Exhaustiveness.Range.{IntRange}
use hashc.Exhaustiveness.Construct.{
  DeconstructedCtor, str, any, is_ctor_covered_by, is_ctor_covered_by_any,
}
use hashc.Exhaustiveness.Construct.Cover.{
  integer, Column, int_ranges, to_split, used, IsColumn, any_of,
}
use hashc.Exhaustiveness.Construct.Parts.{AreParts}
use hashc.Exhaustiveness.Construct.Split.{split_ctor-AreParts}
use hashc.Exhaustiveness.Construct.Any.{is_ctor_covered_by_any-any}

abbrev range_of : ℕ → ℕ → IntRange
range_of a b = record { start = a; end = b }

-- `0..=255` where `10..=20` and `15..=30` were seen.
abbrev bytes : Column
bytes = int_ranges (range_of 0 255) (range_of 10 20 ∷ range_of 15 30 ∷ [])

bytes-IsColumn : IsColumn bytes
bytes-IsColumn = record { ordered = omega arith; fits = omega arith }

split_ctor-AreParts_example : (parts : List DeconstructedCtor) × AreParts bytes (integer 17) parts
split_ctor-AreParts_example = split_ctor-AreParts bytes (integer 17) bytes-IsColumn

is_ctor_covered_by_any-any_example :
    (is_ctor_covered_by_any (to_split bytes) (used bytes)
      ≡ any (is_ctor_covered_by (to_split bytes)) (used bytes))
    × (is_ctor_covered_by_any (str 3) (map str (4 ∷ 3 ∷ [])) ≡ none)
    × (any (is_ctor_covered_by (str 3)) (map str (4 ∷ 3 ∷ []))
        ≡ some (any_of (λ k. 3 == k) (4 ∷ 3 ∷ [])))
is_ctor_covered_by_any-any_example = is_ctor_covered_by_any-any bytes 3 4 (3 ∷ [])
