-- ===== src/Exhaustiveness/Wildcard/Unlisted.antt =====
-- compiler/hash-exhaustiveness/src/wildcard.rs: wildcards in the column of patterns, and the constructor that
-- stands for the values of a type that cannot be listed.
use hashc.Prelude.{
  ◌≡◌, refl, sym, ap, ◌∙◌, Bool, true, false, Bool-cases, inl, inr, Option, none, some, List, [],
  ◌∷◌, ◌++◌, map, if◌then◌else◌, arith,
}
use mathlib.Core.List.{append_assoc}
use hashc.Exhaustiveness.Array.{◌>>=◌}
use hashc.Exhaustiveness.Construct.{
  DeconstructedCtor, single, variant, int_range, str, array, wildcard, or_ctor, missing,
  non_exhaustive, as_int_range, as_array, cons_some, filter_map, split_ctor, is_ctor_covered_by_any,
}
use hashc.Exhaustiveness.Construct.Cover.{Column, singles, variants, int_ranges, arrays, to_split}
use hashc.Exhaustiveness.Wildcard.{split_all, filter_missing, not_wildcards, is_wildcard}

-- A wildcard among the constructors that another is split against changes nothing.
filter_map-not_wildcards :
    {A : Type 0} (f : DeconstructedCtor → Option A) (cs : List DeconstructedCtor)
    → ((c : DeconstructedCtor) → is_wildcard c ≡ true → f c ≡ none)
    → filter_map f (not_wildcards cs) ≡ filter_map f cs
unfolding filter_map not_wildcards
filter_map-not_wildcards f [] h = refl
filter_map-not_wildcards f (c ∷ cs) h = elim (Bool-cases (is_wildcard c)) [
  | inl e ↦ rw (e, h c e) (filter_map-not_wildcards f cs h)
  | inr e ↦ rw e (ap (cons_some (f c)) (filter_map-not_wildcards f cs h))
]

wildcard_lem : (c : DeconstructedCtor) → is_wildcard c ≡ true → c ≡ wildcard
unfolding is_wildcard
wildcard_lem wildcard e = refl
wildcard_lem single e = absurd (ground (arith, e))
wildcard_lem (variant i) e = absurd (ground (arith, e))
wildcard_lem (int_range r) e = absurd (ground (arith, e))
wildcard_lem (str s) e = absurd (ground (arith, e))
wildcard_lem (array a) e = absurd (ground (arith, e))
wildcard_lem or_ctor e = absurd (ground (arith, e))
wildcard_lem missing e = absurd (ground (arith, e))
wildcard_lem non_exhaustive e = absurd (ground (arith, e))

split_ctor-not_wildcards :
    (col : Column) (cs : List DeconstructedCtor)
    → split_ctor (to_split col) (not_wildcards cs) ≡ split_ctor (to_split col) cs
unfolding split_ctor to_split as_int_range as_array
split_ctor-not_wildcards (singles n) cs = refl
split_ctor-not_wildcards (variants i is) cs = refl
split_ctor-not_wildcards (int_ranges r rs) cs =
    let same =
      filter_map-not_wildcards as_int_range cs
        (λ c e. ap as_int_range (wildcard_lem c e) ∙ range) in
    rw same refl
  where
    range : as_int_range wildcard ≡ none
    range = refl
split_ctor-not_wildcards (arrays k ks) cs =
    let same =
      filter_map-not_wildcards as_array cs (λ c e. ap as_array (wildcard_lem c e) ∙ list) in
    rw same refl
  where
    list : as_array wildcard ≡ none
    list = refl

pub split_all-not_wildcards :
    (cols : List Column) (cs : List DeconstructedCtor)
    → split_all (not_wildcards cs) (map to_split cols) ≡ split_all cs (map to_split cols)
unfolding split_all
split_all-not_wildcards [] cs = refl
split_all-not_wildcards (col ∷ cols) cs =
    rw (split_ctor-not_wildcards col cs, split_all-not_wildcards cols cs) refl

-- What the type has besides the constructors that can be listed.
abbrev pub unlisted : Bool → List DeconstructedCtor
unlisted true = non_exhaustive ∷ []
unlisted false = []

bind_append :
    {A : Type 0} (f : A → List DeconstructedCtor → List DeconstructedCtor)
    (u : List DeconstructedCtor) (first : Option A) (rest more : Option (List DeconstructedCtor))
    → ((a : A) (xs : List DeconstructedCtor) → f a (xs ++ u) ≡ f a xs ++ u)
    → more ≡ (rest >>= λ xs. some (xs ++ u))
    → (first >>= λ a. more >>= λ xs. some (f a xs))
      ≡ ((first >>= λ a. rest >>= λ xs. some (f a xs)) >>= λ xs. some (xs ++ u))
bind_append f u none rest more h e = refl
bind_append f u (some a) none more h e = rw e refl
bind_append f u (some a) (some xs) more h e = rw e (ap some (h a xs))

pub split_all-append :
    (cs xs : List DeconstructedCtor) (is_open : Bool)
    → split_all cs (xs ++ unlisted is_open)
      ≡ (split_all cs xs >>= λ outs. some (outs ++ unlisted is_open))
unfolding split_all split_ctor
split_all-append cs [] true = refl
split_all-append cs [] false = refl
split_all-append cs (x ∷ xs) is_open =
    bind_append (λ parts rest. parts ++ rest) (unlisted is_open) (split_ctor x cs) (split_all cs xs)
      (split_all cs (xs ++ unlisted is_open))
      (λ parts rest. sym (append_assoc parts rest (unlisted is_open)))
      (split_all-append cs xs is_open)

non_exhaustive_lem :
    (seen : List DeconstructedCtor) → is_ctor_covered_by_any non_exhaustive seen ≡ some false
unfolding is_ctor_covered_by_any
non_exhaustive_lem [] = refl
non_exhaustive_lem (c ∷ seen) = refl

pub filter_missing-append :
    (seen xs : List DeconstructedCtor) (is_open : Bool)
    → filter_missing seen (xs ++ unlisted is_open)
      ≡ (filter_missing seen xs >>= λ left. some (left ++ unlisted is_open))
unfolding filter_missing
filter_missing-append seen [] true = rw (non_exhaustive_lem seen) refl
filter_missing-append seen [] false = refl
filter_missing-append seen (x ∷ xs) is_open =
    bind_append (λ covered rest. if covered then rest else x ∷ rest) (unlisted is_open)
      (is_ctor_covered_by_any x seen) (filter_missing seen xs)
      (filter_missing seen (xs ++ unlisted is_open)) keep (filter_missing-append seen xs is_open)
  where
    keep :
        (b : Bool) (rest : List DeconstructedCtor)
        → (if b then rest ++ unlisted is_open else x ∷ rest ++ unlisted is_open)
          ≡ (if b then rest else x ∷ rest) ++ unlisted is_open
    keep true rest = refl
    keep false rest = refl
