-- ===== src/Exhaustiveness/Construct/ArrayParts.antt =====
-- compiler/hash-exhaustiveness/src/construct.rs: the parts of an array pattern of variable length.
use hashc.Prelude.{
  ℕ, ◌<◌, ◌≡◌, ◌≢◌, refl, sym, ap, ◌∙◌, Bool, true, false, ◌||◌, some, List, [], ◌∷◌, map, ltb,
  if◌then◌else◌, arith, suc,
}
use hashc.Prelude.Bytes.{All}
use hashc.Exhaustiveness.Array.{Array, ArrayKind, var, split_arrays, bind}
use hashc.Exhaustiveness.Array.Growth.{bound, IsShort}
use hashc.Exhaustiveness.Array.Lengths.{
  has_length, count, split_arrays-count, Agrees, split_arrays-Agrees, split_arrays-some,
}
use hashc.Exhaustiveness.Construct.{DeconstructedCtor, array, split_array, split_ctor}
use hashc.Prelude.{some_injective, subst}
use hashc.Exhaustiveness.Construct.Cover.{
  Value, only, of_variant, integer, of_length, matches, arrays, array_of, to_split, used,
  any_matches, Decides, array-Decides, filter_map-array, arrays_of,
}
use hashc.Exhaustiveness.Construct.Parts.{HasValue, AreParts, array-HasValue}

map-kind : (ks : List ArrayKind) → map (λ (a : Array). a.kind) (arrays_of ks) ≡ ks
map-kind [] = refl
map-kind (k ∷ ks) = ap (λ t. k ∷ t) (map-kind ks)

or-count : (b : Bool) (rest : ℕ) → (b || ltb 0 rest) ≡ ltb 0 (if b then suc rest else rest)
or-count true rest = ground arith
or-count false rest = refl

array-count :
    (outs : List Array) (n : ℕ) → any_matches (map array outs) (of_length n) ≡ ltb 0 (count outs n)
unfolding any_matches matches count
array-count [] n = refl
array-count (a ∷ outs) n =
    ap (λ b. has_length a.kind n || b) (array-count outs n)
    ∙ or-count (has_length a.kind n) (count outs n)

array_none :
    (outs : List Array) (v : Value)
    → ((n : ℕ) → v ≢ of_length n)
    → any_matches (map array outs) v ≡ false
unfolding any_matches matches
array_none [] v h = refl
array_none (a ∷ outs) only h = array_none outs only h
array_none (a ∷ outs) (of_variant k) h = array_none outs (of_variant k) h
array_none (a ∷ outs) (integer n) h = array_none outs (integer n) h
array_none (a ∷ outs) (of_length n) h = absurd (h n refl)

abbrev IsLength : Value → Type 0
IsLength (of_length n) = Unit {0}
IsLength _ = ⊥

not_length : (v : Value) → (IsLength v → ⊥) → (n : ℕ) → v ≢ of_length n
not_length v h n e = h (subst IsLength (sym e) tt)

array_covers :
    (prefix suffix : ℕ) (ks : List ArrayKind) (outs : List Array) (v : Value)
    → prefix < bound
    → suffix < bound
    → All IsShort ks
    → split_arrays prefix suffix ks ≡ some outs
    → any_matches (map array outs) v ≡ matches (array_of (var prefix suffix)) v
unfolding matches
array_covers prefix suffix ks outs (of_length n) h i hs made =
    array-count outs n
    ∙ ap (ltb 0) (
        some_injective (
          sym (ap (λ r. bind r (λ arrays. some (count arrays n))) made)
          ∙ split_arrays-count prefix suffix ks n h i hs))
    ∙ positive (has_length (var prefix suffix) n)
  where
    positive : (b : Bool) → ltb 0 (if b then 1 else 0) ≡ b
    positive true = refl
    positive false = refl
array_covers prefix suffix ks outs only h i hs made =
    array_none outs only (not_length only (λ x. x))
array_covers prefix suffix ks outs (of_variant k) h i hs made =
    array_none outs (of_variant k) (not_length (of_variant k) (λ x. x))
array_covers prefix suffix ks outs (integer n) h i hs made =
    array_none outs (integer n) (not_length (integer n) (λ x. x))

All-pull :
    {A : Type 0} (P : ℕ → A → Type 0) (xs : List A)
    → ((n : ℕ) → All (P n) xs)
    → All (λ x. (n : ℕ) → P n x) xs
All-pull P [] f = tt
All-pull P (x ∷ xs) f = ((λ n. (f n).0), All-pull P xs (λ n. (f n).1))

map_array-Decides :
    (ks : List ArrayKind) (outs : List Array) (v : Value)
    → All (λ a. (n : ℕ) → All (Agrees n a) ks) outs
    → All (Decides v (map array_of ks)) (map array outs)
map_array-Decides ks [] v h = tt
map_array-Decides ks (a ∷ outs) v (h, hs) = (array-Decides a ks v h, map_array-Decides ks outs v hs)

map_array-HasValue : (outs : List Array) → All HasValue (map array outs)
map_array-HasValue [] = tt
map_array-HasValue (a ∷ outs) = (array-HasValue a, map_array-HasValue outs)

pub array_parts :
    (prefix suffix : ℕ) (ks : List ArrayKind) (v : Value)
    → prefix < bound
    → suffix < bound
    → All IsShort ks
    → (parts : List DeconstructedCtor) × AreParts (arrays (var prefix suffix) ks) v parts
unfolding split_ctor split_array to_split used
array_parts prefix suffix ks v h i hs =
    let (outs, made) = split_arrays-some prefix suffix ks h i hs in
    (
      map array outs,
      record {
        result = rw (filter_map-array ks, map-kind ks, made) refl;
        covers = array_covers prefix suffix ks outs v h i hs made;
        inhabited = map_array-HasValue outs;
        decides = map_array-Decides ks outs v (
            All-pull (λ n a. All (Agrees n a) ks) outs
              (λ n. split_arrays-Agrees prefix suffix ks n outs h i hs made));
      },
    )
