-- ===== src/Exhaustiveness/Construct.antt =====
-- compiler/hash-exhaustiveness/src/construct.rs: the constructors of patterns, the splitting of one against
-- those seen, and whether one is covered by others. `none` is a panic. A string is the identifier that
-- it is interned under.
pub mod Cover
pub mod Parts
pub mod ArrayParts
pub mod Split
pub mod Any
pub mod Tests
use hashc.Prelude.{
  ℕ, Bool, true, false, not, Option, none, some, List, [], ◌∷◌, map, ◌==◌, if◌then◌else◌,
}
use hashc.Exhaustiveness.Array.{Array, ArrayKind, fixed, var, split_arrays, bind, ◌>>=◌}
use hashc.Exhaustiveness.Array as Arrays
use hashc.Exhaustiveness.Range.{IntRange, is_singleton}
use hashc.Exhaustiveness.Range as Range

pub data DeconstructedCtor : Type 0 where
  single : DeconstructedCtor
  variant : ℕ → DeconstructedCtor
  int_range : IntRange → DeconstructedCtor
  str : ℕ → DeconstructedCtor
  array : Array → DeconstructedCtor
  wildcard or_ctor missing non_exhaustive : DeconstructedCtor

unfoldable pub as_int_range : DeconstructedCtor → Option IntRange
as_int_range (int_range range) = some range
as_int_range _ = none

unfoldable pub as_array : DeconstructedCtor → Option Array
as_array (array list) = some list
as_array _ = none

abbrev pub cons_some {ℓ} : {A : Type ℓ} → Option A → List A → List A
cons_some none xs = xs
cons_some (some x) xs = x ∷ xs

unfoldable pub filter_map {ℓ κ} : {A : Type ℓ} → {B : Type κ} → (A → Option B) → List A → List B
filter_map f [] = []
filter_map f (x ∷ xs) = cons_some (f x) (filter_map f xs)

-- `Iterator::any` of a test that may panic: it stops at the first that holds.
unfoldable pub any {ℓ} : {A : Type ℓ} → (A → Option Bool) → List A → Option Bool
any f [] = some false
any f (x ∷ xs) = let rest = any f xs in f x >>= λ b. if b then some true else rest

-- `range.split(ranges)` and then `range.iter()`.
unfoldable pub split_ranges : IntRange → List IntRange → Option (List IntRange)
split_ranges range ranges = Range.iter (Range.split (Range.new range) ranges)

unfoldable pub split_array : Array → List Array → Option (List Array)
split_array list lists = elim list.kind [
  | fixed len ↦ some (list ∷ [])
  | var prefix suffix ↦ split_arrays prefix suffix (map (λ (a : Array). a.kind) lists)
]

-- The branches other than that of a wildcard, which needs the type's constructors.
unfoldable pub split_ctor :
    DeconstructedCtor → List DeconstructedCtor → Option (List DeconstructedCtor)
split_ctor (int_range range) ctors =
    if is_singleton range
    then some (int_range range ∷ [])
    else (split_ranges range (filter_map as_int_range ctors) >>= λ rs. some (map int_range rs))
split_ctor (array list) ctors =
    split_array list (filter_map as_array ctors) >>= λ ls. some (map array ls)
split_ctor ctor ctors = some (ctor ∷ [])

unfoldable pub is_ctor_covered_by : DeconstructedCtor → DeconstructedCtor → Option Bool
is_ctor_covered_by ctor wildcard = some true
is_ctor_covered_by missing other = some false
is_ctor_covered_by wildcard other = some false
is_ctor_covered_by single single = some true
is_ctor_covered_by (variant self_id) (variant other_id) = some (self_id == other_id)
is_ctor_covered_by (int_range self_range) (int_range other_range) =
    Range.is_covered_by self_range other_range
is_ctor_covered_by (str self_str) (str other_str) = some (self_str == other_str)
is_ctor_covered_by (array self_slice) (array other_slice) =
    Arrays.is_covered_by self_slice other_slice
is_ctor_covered_by non_exhaustive other = some false
is_ctor_covered_by ctor other = none

abbrev is_variant : ℕ → DeconstructedCtor → Option Bool
is_variant i (variant k) = some (k == i)
is_variant i _ = some false

abbrev is_empty : List DeconstructedCtor → Bool
is_empty [] = true
is_empty (c ∷ cs) = false

abbrev covered_by_any : DeconstructedCtor → List DeconstructedCtor → Option Bool
covered_by_any single used_ctors = some (not (is_empty used_ctors))
covered_by_any (variant i) used_ctors = any (is_variant i) used_ctors
covered_by_any (int_range range) used_ctors =
    any (Range.is_covered_by range) (filter_map as_int_range used_ctors)
covered_by_any (array list) used_ctors =
    any (Arrays.is_covered_by list) (filter_map as_array used_ctors)
covered_by_any non_exhaustive used_ctors = some false
covered_by_any _ used_ctors = none

unfoldable pub is_ctor_covered_by_any : DeconstructedCtor → List DeconstructedCtor → Option Bool
is_ctor_covered_by_any pat used_ctors =
    if is_empty used_ctors then some false else covered_by_any pat used_ctors
