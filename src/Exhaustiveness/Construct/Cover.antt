-- ===== src/Exhaustiveness/Construct/Cover.antt =====
-- compiler/hash-exhaustiveness/src/construct.rs: a constructor that was split against a column of patterns is
-- covered by one of them exactly where the pattern matches the constructor's values.
use hashc.Prelude.{
  ℕ, ◌≡◌, zero, refl, sym, ap, ◌∙◌, Bool, true, false, Bool-cases, ◌&&◌, ◌||◌, Option, some, List,
  [], ◌∷◌, map, replicate, leb, ◌==◌, if◌then◌else◌, inl, inr, arith, suc,
}
use hashc.Prelude.Bytes.{All}
use hashc.Exhaustiveness.Array.{Array, ArrayKind, fixed, var, split_arrays, bind, ◌>>=◌}
use hashc.Exhaustiveness.Array.Growth.{IsShort}
use hashc.Exhaustiveness.Array.Lengths.{has_length, Agrees}
use hashc.Exhaustiveness.Range.{IntRange, IsRange, is_singleton, is_subrange, intersection, is_some}
use hashc.Exhaustiveness.Range as Range
use hashc.Exhaustiveness.Array as Arrays
use hashc.Exhaustiveness.Construct.{
  DeconstructedCtor, single, variant, int_range, array, is_variant, as_int_range, as_array,
  filter_map, any, is_ctor_covered_by_any,
}

-- What a pattern's head sees of a value.
pub data Value : Type 0 where
  only : Value
  of_variant : ℕ → Value
  integer : ℕ → Value
  of_length : ℕ → Value

abbrev pub holds : IntRange → ℕ → Bool
holds r n = leb r.start n && leb n r.end

-- Whether a constructor is that of a value.
unfoldable pub matches : DeconstructedCtor → Value → Bool
matches single only = true
matches (variant i) (of_variant k) = i == k
matches (int_range r) (integer n) = holds r n
matches (array a) (of_length n) = has_length a.kind n
matches _ _ = false

-- A constructor to be split and those that a column of patterns has, all of one type, without strings, which
-- `is_ctor_covered_by_any` does not take.
pub data Column : Type 0 where
  singles : ℕ → Column
  variants : ℕ → List ℕ → Column
  int_ranges : IntRange → List IntRange → Column
  arrays : ArrayKind → List ArrayKind → Column

abbrev pub IsColumn : Column → Type 0
IsColumn (singles n) = Unit
IsColumn (variants i is) = Unit
IsColumn (int_ranges r rs) = IsRange r
IsColumn (arrays k ks) = IsShort k × All IsShort ks

abbrev pub array_of : ArrayKind → DeconstructedCtor
array_of k = array (record { kind = k })

unfoldable pub to_split : Column → DeconstructedCtor
to_split (singles n) = single
to_split (variants i is) = variant i
to_split (int_ranges r rs) = int_range r
to_split (arrays k ks) = array_of k

unfoldable pub used : Column → List DeconstructedCtor
used (singles n) = replicate n single
used (variants i is) = map variant is
used (int_ranges r rs) = map int_range rs
used (arrays k ks) = map array_of ks

unfoldable pub any_matches : List DeconstructedCtor → Value → Bool
any_matches [] v = false
any_matches (c ∷ cs) v = matches c v || any_matches cs v

-- `is_ctor_covered_by_any` answers as the patterns match the value, if it is one of the constructor's.
abbrev pub Decides : Value → List DeconstructedCtor → DeconstructedCtor → Type 0
Decides v cs p =
    (if matches p v then is_ctor_covered_by_any p cs else some (any_matches cs v))
    ≡ some (any_matches cs v)

abbrev pub any_of {ℓ} : {A : Type ℓ} → (A → Bool) → List A → Bool
any_of f [] = false
any_of f (x ∷ xs) = f x || any_of f xs

pub or_lem : (b c : Bool) → (if b then some true else some c) ≡ some (b || c)
or_lem true c = refl
or_lem false c = refl

any-any_of :
    {A : Type 0} (f : A → Option Bool) (g : A → Bool) (xs : List A)
    → All (λ x. f x ≡ some (g x)) xs
    → any f xs ≡ some (any_of g xs)
unfolding any
any-any_of f g [] h = refl
any-any_of f g (x ∷ xs) (h, hs) = rw (h, any-any_of f g xs hs) (or_lem (g x) (any_of g xs))

pub filter_map-int_range : (rs : List IntRange) → filter_map as_int_range (map int_range rs) ≡ rs
unfolding filter_map as_int_range
filter_map-int_range [] = refl
filter_map-int_range (r ∷ rs) = ap (λ t. r ∷ t) (filter_map-int_range rs)

abbrev pub arrays_of : List ArrayKind → List Array
arrays_of ks = map (λ (k : ArrayKind). record { kind = k }) ks

pub filter_map-array : (ks : List ArrayKind) → filter_map as_array (map array_of ks) ≡ arrays_of ks
unfolding filter_map as_array
filter_map-array [] = refl
filter_map-array (k ∷ ks) = ap (λ t. (record { kind = k }) ∷ t) (filter_map-array ks)

pub any_matches-integer :
    (rs : List IntRange) (n : ℕ)
    → any_matches (map int_range rs) (integer n) ≡ any_of (λ r. holds r n) rs
unfolding any_matches matches
any_matches-integer [] n = refl
any_matches-integer (r ∷ rs) n = ap (λ b. holds r n || b) (any_matches-integer rs n)

pub any_matches-of_length :
    (ks : List ArrayKind) (n : ℕ)
    → any_matches (map array_of ks) (of_length n)
      ≡ any_of (λ (a : Array). has_length a.kind n) (arrays_of ks)
unfolding any_matches matches
any_matches-of_length [] n = refl
any_matches-of_length (k ∷ ks) n = ap (λ b. has_length k n || b) (any_matches-of_length ks n)

-- Where `is_covered_by` does not fail it tells whether a number of the range is in the other one.
pub is_covered_by-holds :
    (o r : IntRange) (n : ℕ) (b : Bool)
    → holds o n ≡ true
    → Range.is_covered_by o r ≡ some b
    → Range.is_covered_by o r ≡ some (holds r n)
unfolding Range.is_covered_by intersection is_subrange
is_covered_by-holds o r n b h e = ground (arith, h, e)

pub is_covered_by-singleton :
    (o r : IntRange) (n : ℕ)
    → is_singleton o ≡ true
    → holds o n ≡ true
    → Range.is_covered_by o r ≡ some (holds r n)
unfolding Range.is_covered_by intersection is_subrange is_singleton
is_covered_by-singleton o r n s h = ground (arith, h, s)

pub any-int_range :
    (o : IntRange) (rs : List IntRange)
    → is_ctor_covered_by_any (int_range o) (map int_range rs) ≡ any (Range.is_covered_by o) rs
unfolding is_ctor_covered_by_any any
any-int_range o [] = refl
any-int_range o (r ∷ rs) = ap (any (Range.is_covered_by o)) (filter_map-int_range (r ∷ rs))

pub any-array :
    (a : Array) (ks : List ArrayKind)
    → is_ctor_covered_by_any (array a) (map array_of ks)
      ≡ any (Arrays.is_covered_by a) (arrays_of ks)
unfolding is_ctor_covered_by_any any
any-array a [] = refl
any-array a (k ∷ ks) = ap (any (Arrays.is_covered_by a)) (filter_map-array (k ∷ ks))

pub All-impl :
    {A : Type 0} (P Q : A → Type 0) (xs : List A) → ((x : A) → P x → Q x) → All P xs → All Q xs
All-impl P Q [] f h = tt
All-impl P Q (x ∷ xs) f (h, hs) = (f x h, All-impl P Q xs f hs)

pub All-every : {A : Type 0} (P : A → Type 0) (xs : List A) → ((x : A) → P x) → All P xs
All-every P [] f = tt
All-every P (x ∷ xs) f = (f x, All-every P xs f)

-- The test of each range answers for the number: so does the test of all.
pub int_range-Decides :
    (o : IntRange) (rs : List IntRange) (v : Value)
    → ((n : ℕ) → holds o n ≡ true → All (λ r. Range.is_covered_by o r ≡ some (holds r n)) rs)
    → Decides v (map int_range rs) (int_range o)
unfolding matches
int_range-Decides o rs (integer n) f = elim (Bool-cases (holds o n)) [
  | inl e ↦ rw e (
      any-int_range o rs
      ∙ any-any_of (Range.is_covered_by o) (λ r. holds r n) rs (f n e)
      ∙ ap some (sym (any_matches-integer rs n)))
  | inr e ↦ rw e refl
]
int_range-Decides o rs only f = refl
int_range-Decides o rs (of_variant k) f = refl
int_range-Decides o rs (of_length n) f = refl

Agrees-covered :
    (a : Array) (ks : List ArrayKind) (n : ℕ)
    → has_length a.kind n ≡ true
    → All (Agrees n a) ks
    → All (λ (k : Array). Arrays.is_covered_by a k ≡ some (has_length k.kind n)) (arrays_of ks)
Agrees-covered a [] n e h = tt
Agrees-covered a (k ∷ ks) n e (h, hs) = (rw e at h, Agrees-covered a ks n e hs)

pub array-Decides :
    (a : Array) (ks : List ArrayKind) (v : Value)
    → ((n : ℕ) → All (Agrees n a) ks)
    → Decides v (map array_of ks) (array a)
unfolding matches
array-Decides a ks (of_length n) f = elim (Bool-cases (has_length a.kind n)) [
  | inl e ↦ rw e (
      any-array a ks
      ∙ any-any_of (Arrays.is_covered_by a) (λ (k : Array). has_length k.kind n) (arrays_of ks)
          (Agrees-covered a ks n e (f n))
      ∙ ap some (sym (any_matches-of_length ks n)))
  | inr e ↦ rw e refl
]
array-Decides a ks only f = refl
array-Decides a ks (of_variant k) f = refl
array-Decides a ks (integer n) f = refl

any-variant :
    (i : ℕ) (is : List ℕ)
    → any (is_variant i) (map variant is) ≡ some (any_matches (map variant is) (of_variant i))
unfolding any any_matches matches
any-variant i [] = refl
any-variant i (k ∷ is) =
    rw (any-variant i is) (or_lem (k == i) (any_matches (map variant is) (of_variant i)))

pub covered-variant :
    (i : ℕ) (is : List ℕ)
    → is_ctor_covered_by_any (variant i) (map variant is) ≡ any (is_variant i) (map variant is)
unfolding is_ctor_covered_by_any any
covered-variant i [] = refl
covered-variant i (k ∷ is) = refl

pub variant-Decides : (i : ℕ) (is : List ℕ) (v : Value) → Decides v (map variant is) (variant i)
unfolding matches
variant-Decides i is (of_variant n) = elim (Bool-cases (i == n)) [
  | inl e ↦ rw e (
      covered-variant i is
      ∙ any-variant i is
      ∙ ap (λ k. some (any_matches (map variant is) (of_variant k))) (ground (arith, e)))
  | inr e ↦ rw e refl
]
variant-Decides i is only = refl
variant-Decides i is (integer n) = refl
variant-Decides i is (of_length n) = refl

pub single-Decides : (n : ℕ) (v : Value) → Decides v (replicate n single) single
unfolding matches any_matches is_ctor_covered_by_any
single-Decides zero only = refl
single-Decides (suc n) only = refl
single-Decides n (of_variant k) = refl
single-Decides n (integer k) = refl
single-Decides n (of_length k) = refl
