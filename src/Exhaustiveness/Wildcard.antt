-- ===== src/Exhaustiveness/Wildcard.antt =====
-- compiler/hash-exhaustiveness/src/wildcard.rs: the constructors of a type that a column of patterns misses.
-- The constructors of the type are given. `none` is a panic.
pub mod Parts
pub mod Unlisted
pub mod Missing
pub mod Tests
use hashc.Prelude.{Bool, true, false, Option, some, List, [], ◌∷◌, ◌++◌, if◌then◌else◌}
use hashc.Exhaustiveness.Array.{bind, ◌>>=◌}
use hashc.Exhaustiveness.Construct.{DeconstructedCtor, wildcard, split_ctor, is_ctor_covered_by_any}

pub record SplitWildcard : Type 0 where
  pub matrix_ctors : List DeconstructedCtor
  pub all_ctors : List DeconstructedCtor

unfoldable pub is_wildcard : DeconstructedCtor → Bool
is_wildcard wildcard = true
is_wildcard _ = false

unfoldable pub not_wildcards : List DeconstructedCtor → List DeconstructedCtor
not_wildcards [] = []
not_wildcards (c ∷ cs) = if is_wildcard c then not_wildcards cs else c ∷ not_wildcards cs

unfoldable pub split_all :
    List DeconstructedCtor → List DeconstructedCtor → Option (List DeconstructedCtor)
split_all ctors [] = some []
split_all ctors (c ∷ cs) =
    split_ctor c ctors >>= λ parts. split_all ctors cs >>= λ rest. some (parts ++ rest)

unfoldable pub split_wildcard : SplitWildcard → List DeconstructedCtor → Option SplitWildcard
split_wildcard ctor ctors = split_all ctors ctor.all_ctors >>= λ all.
    some (record { matrix_ctors = not_wildcards ctors; all_ctors = all })

unfoldable pub filter_missing :
    List DeconstructedCtor → List DeconstructedCtor → Option (List DeconstructedCtor)
filter_missing matrix_ctors [] = some []
filter_missing matrix_ctors (c ∷ cs) = is_ctor_covered_by_any c matrix_ctors >>= λ covered.
    filter_missing matrix_ctors cs >>= λ rest. some (if covered then rest else c ∷ rest)

unfoldable pub iter_missing_ctors : SplitWildcard → Option (List DeconstructedCtor)
iter_missing_ctors w = filter_missing w.matrix_ctors w.all_ctors
