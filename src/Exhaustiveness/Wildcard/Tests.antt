-- ===== src/Exhaustiveness/Wildcard/Tests.antt =====
-- compiler/hash-exhaustiveness/src/wildcard.rs: the bytes that `10..=20` misses.
use hashc.Prelude.{ℕ, ◌≡◌, refl, true, false, ◌&&◌, not, some, List, [], ◌∷◌, ◌++◌, map, arith}
use hashc.Prelude.Bytes.{All}
use hashc.Exhaustiveness.Array.{◌>>=◌}
use hashc.Exhaustiveness.Range.{IntRange}
use hashc.Exhaustiveness.Construct.{
  DeconstructedCtor, split_ctor, is_ctor_covered_by_any, str, wildcard, non_exhaustive,
}
use hashc.Exhaustiveness.Construct.Cover.{integer, Column, int_ranges, to_split, used, any_matches}
use hashc.Exhaustiveness.Wildcard.{
  not_wildcards, is_wildcard, split_all, filter_missing, split_wildcard, iter_missing_ctors,
}
use hashc.Exhaustiveness.Wildcard.Parts.{SplitsOn}
use hashc.Exhaustiveness.Wildcard.Unlisted.{unlisted}
use hashc.Exhaustiveness.Wildcard.Missing.{iter_missing_ctors-any_matches}

abbrev range_of : ℕ → ℕ → IntRange
range_of a b = record { start = a; end = b }

abbrev bytes : Column
bytes = int_ranges (range_of 0 255) (range_of 10 20 ∷ [])

-- A column that has `10..=20` and a wildcard.
abbrev column : List DeconstructedCtor
column = used bytes ++ wildcard ∷ []

bytes-SplitsOn : All (SplitsOn (not_wildcards column)) (bytes ∷ [])
unfolding not_wildcards is_wildcard used
bytes-SplitsOn = ((record { ordered = omega arith; fits = omega arith }, refl), tt)

iter_missing_ctors-any_matches_example :
    (left : List DeconstructedCtor) × ((split_wildcard
          (record { matrix_ctors = []; all_ctors = map to_split (bytes ∷ []) ++ unlisted false })
          column
        >>= iter_missing_ctors)
      ≡ some (left ++ unlisted false))
    × (any_matches left (integer 30) ≡ (
        any_matches (map to_split (bytes ∷ [])) (integer 30)
        && not (any_matches (not_wildcards column) (integer 30))))
iter_missing_ctors-any_matches_example =
    iter_missing_ctors-any_matches (bytes ∷ []) false column (integer 30) bytes-SplitsOn

-- Strings are never all listed.
strings_run :
    (split_wildcard
        (record { matrix_ctors = []; all_ctors = unlisted true })
        (str 4 ∷ wildcard ∷ str 5 ∷ [])
      >>= iter_missing_ctors)
    ≡ some (non_exhaustive ∷ [])
unfolding split_wildcard split_ctor iter_missing_ctors filter_missing is_ctor_covered_by_any
    not_wildcards is_wildcard split_all
strings_run = refl
