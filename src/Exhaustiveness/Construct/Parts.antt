-- ===== src/Exhaustiveness/Construct/Parts.antt =====
-- compiler/hash-exhaustiveness/src/construct.rs: the parts of a constructor, and those of a range.
use hashc.Prelude.{◌+◌}
use hashc.Prelude.{
  ℕ, ◌≤◌, ◌≡◌, refl, sym, ◌∙◌, Bool, true, false, ◌&&◌, ◌||◌, some, List, [], ◌∷◌, map, leb, ltb,
  arith, suc,
}
use hashc.Prelude.Bytes.{All}
use hashc.Exhaustiveness.Array.{Array, ArrayKind, fixed, var}
use hashc.Exhaustiveness.Array.Lengths.{has_length}
use hashc.Exhaustiveness.Range.{IntRange, IsRange, is_singleton, is_subrange, intersection, is_some}
use hashc.Exhaustiveness.Range as Range
use hashc.Exhaustiveness.Range.Split.{new-IsSplit}
use hashc.Exhaustiveness.Range.Cover.{split-is_covered_by}
use hashc.Exhaustiveness.Construct.{DeconstructedCtor, int_range, array, split_ranges, split_ctor}
use hashc.Exhaustiveness.Range.Partition.{Partitions}
use hashc.Exhaustiveness.Range.Split.{split-IsSplit}
use hashc.Exhaustiveness.Range.Cover.{iter-Partitions}
use hashc.Prelude.{some_injective, subst}
use hashc.Exhaustiveness.Construct.Cover.{
  Value, only, of_variant, integer, of_length, holds, matches, Column, singles, variants,
  int_ranges, arrays, IsColumn, array_of, to_split, used, any_matches, Decides, any_of, All-impl,
  is_covered_by-holds, int_range-Decides, any_matches-integer, filter_map-int_range,
}

abbrev pub HasValue : DeconstructedCtor → Type 0
HasValue p = (v : Value) × (matches p v ≡ true)

fixed-has_length : (m : ℕ) → matches (array_of (fixed m)) (of_length m) ≡ true
unfolding matches has_length
fixed-has_length m = ground arith

var-has_length : (p q : ℕ) → matches (array_of (var p q)) (of_length (p + q)) ≡ true
unfolding matches has_length
var-has_length p q = ground arith

pub array-HasValue : (a : Array) → HasValue (array a)
array-HasValue a = go a.kind
  where
    go : (k : ArrayKind) → HasValue (array_of k)
    go (fixed m) = (of_length m, fixed-has_length m)
    go (var p q) = (of_length (p + q), var-has_length p q)

range-HasValue : (r : IntRange) → r.start ≤ r.end → HasValue (int_range r)
unfolding matches
range-HasValue r h = (integer r.start, ground (arith, h))

pub column-HasValue : (col : Column) → IsColumn col → HasValue (to_split col)
unfolding to_split matches
column-HasValue (singles n) h = (only, refl)
column-HasValue (variants i is) h = (of_variant i, ground arith)
column-HasValue (int_ranges r rs) h = range-HasValue r h.ordered
column-HasValue (arrays k ks) h = array-HasValue (record { kind = k })

-- The parts that a constructor of a column is split into.
pub record AreParts (col : Column) (v : Value) (parts : List DeconstructedCtor) : Type 0 where
  pub result : split_ctor (to_split col) (used col) ≡ some parts
  pub covers : any_matches parts v ≡ matches (to_split col) v
  pub inhabited : All HasValue parts
  pub decides : All (Decides v (used col)) parts

pub one_part :
    (col : Column) (v : Value)
    → split_ctor (to_split col) (used col) ≡ some (to_split col ∷ [])
    → HasValue (to_split col)
    → Decides v (used col) (to_split col)
    → (parts : List DeconstructedCtor) × AreParts col v parts
unfolding any_matches
one_part col v e w d = (
  to_split col ∷ [],
  record {
    result = e;
    covers = or_false (matches (to_split col) v);
    inhabited = (w, tt);
    decides = (d, tt);
  },
)
  where
    or_false : (b : Bool) → (b || false) ≡ b
    or_false true = refl
    or_false false = refl

Partitions-le : (lo hi : ℕ) (rs : List IntRange) → Partitions lo hi rs → lo ≤ hi
Partitions-le lo hi [] h = omega (arith, h)
Partitions-le lo hi (r ∷ rs) (a, b, h) = omega (arith, a, b, Partitions-le (suc r.end) hi rs h)

Partitions-holds :
    (lo hi n : ℕ) (rs : List IntRange)
    → Partitions lo hi rs
    → any_of (λ r. holds r n) rs ≡ (leb lo n && ltb n hi)
Partitions-holds lo hi n [] h = ground (arith, h)
Partitions-holds lo hi n (r ∷ rs) (a, b, h) =
    ground (arith, a, b, Partitions-le (suc r.end) hi rs h, Partitions-holds (suc r.end) hi n rs h)

-- A split of a range: what it gives divides the range, and no seen range straddles it.
range_split :
    (r : IntRange) (rs : List IntRange)
    → IsRange r
    → (outs : List IntRange) × (split_ranges r rs ≡ some outs)
      × Partitions r.start (suc r.end) outs
      × All (λ o. All (λ k. Range.is_covered_by o k ≡ some (is_subrange o k)) rs) outs
unfolding split_ranges Range.split Range.new
range_split r rs h =
    let start = new-IsSplit r h in
    let (outs, made, parts) =
      iter-Partitions (Range.split (Range.new r) rs) (split-IsSplit (Range.new r) rs start) in
    let (others, same, covered) = split-is_covered_by (Range.new r) rs start in
    (
      outs,
      made,
      parts,
      subst (All (λ o. All (λ k. Range.is_covered_by o k ≡ some (is_subrange o k)) rs))
          (some_injective (sym same ∙ made)) covered,
    )

map-Decides :
    (rs outs : List IntRange) (v : Value)
    → All (λ o. All (λ k. Range.is_covered_by o k ≡ some (is_subrange o k)) rs) outs
    → All (Decides v (map int_range rs)) (map int_range outs)
map-Decides rs [] v h = tt
map-Decides rs (o ∷ outs) v (h, hs) = (
  int_range-Decides o rs v (λ n e.
      All-impl (λ k. Range.is_covered_by o k ≡ some (is_subrange o k))
        (λ k. Range.is_covered_by o k ≡ some (holds k n)) rs
        (λ k. is_covered_by-holds o k n (is_subrange o k) e) h),
  map-Decides rs outs v hs,
)

abbrev IsOther : Value → Type 0
IsOther (integer n) = ⊥
IsOther _ = Unit {0}

none_match :
    (outs : List IntRange) (v : Value) → IsOther v → any_matches (map int_range outs) v ≡ false
unfolding any_matches matches
none_match [] v h = refl
none_match (o ∷ outs) only h = none_match outs only h
none_match (o ∷ outs) (of_variant k) h = none_match outs (of_variant k) h
none_match (o ∷ outs) (of_length n) h = none_match outs (of_length n) h
none_match (o ∷ outs) (integer n) h = absurd h

map-HasValue :
    (lo hi : ℕ) (outs : List IntRange) → Partitions lo hi outs → All HasValue (map int_range outs)
map-HasValue lo hi [] h = tt
map-HasValue lo hi (o ∷ outs) (a, b, h) = (range-HasValue o b, map-HasValue (suc o.end) hi outs h)

range_covers :
    (r : IntRange) (outs : List IntRange) (v : Value)
    → Partitions r.start (suc r.end) outs
    → any_matches (map int_range outs) v ≡ matches (int_range r) v
unfolding matches
range_covers r outs (integer n) h =
    any_matches-integer outs n ∙ Partitions-holds r.start (suc r.end) n outs h ∙ ground arith
range_covers r outs only h = none_match outs only tt
range_covers r outs (of_variant k) h = none_match outs (of_variant k) tt
range_covers r outs (of_length n) h = none_match outs (of_length n) tt

pub range_parts :
    (r : IntRange) (rs : List IntRange) (v : Value)
    → IsRange r
    → is_singleton r ≡ false
    → (parts : List DeconstructedCtor) × AreParts (int_ranges r rs) v parts
unfolding split_ctor to_split used
range_parts r rs v h e =
    let (outs, made, divides, covered) = range_split r rs h in
    (
      map int_range outs,
      record {
        result = rw (e, filter_map-int_range rs, made) refl;
        covers = range_covers r outs v divides;
        inhabited = map-HasValue r.start (suc r.end) outs divides;
        decides = map-Decides rs outs v covered;
      },
    )
