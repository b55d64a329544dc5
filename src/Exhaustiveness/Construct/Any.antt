-- ===== src/Exhaustiveness/Construct/Any.antt =====
-- compiler/hash-exhaustiveness/src/construct.rs: `is_ctor_covered_by_any`, the faster test against many
-- constructors, is that of `is_ctor_covered_by` against one after the other.
use hashc.Prelude.{
  ℕ, zero, suc, ◌≡◌, refl, sym, ◌∙◌, Bool, Option, none, some, List, [], ◌∷◌, map, ◌==◌, arith,
}
use hashc.Exhaustiveness.Array.{Array, ArrayKind, bind}
use hashc.Exhaustiveness.Array as Arrays
use hashc.Exhaustiveness.Range.{IntRange}
use hashc.Exhaustiveness.Range as Range
use hashc.Exhaustiveness.Construct.{
  variant, int_range, str, is_variant, any, is_ctor_covered_by, is_ctor_covered_by_any,
}
use hashc.Exhaustiveness.Construct.Cover.{
  Column, singles, variants, int_ranges, arrays, array_of, to_split, used, any-int_range, any-array,
  covered-variant, any_of, or_lem,
}

-- The test of a mapped list.
any-map :
    {A B : Type 0} (f : A → Option Bool) (g : B → Option Bool) (h : A → B) (xs : List A)
    → ((x : A) → f x ≡ g (h x))
    → any f xs ≡ any g (map h xs)
unfolding any
any-map f g h [] e = refl
any-map f g h (x ∷ xs) e = rw (e x, any-map f g h xs e) refl

eq_comm : (i k : ℕ) → (k == i) ≡ (i == k)
eq_comm i k = ground arith

any-variants :
    (i : ℕ) (is : List ℕ)
    → any (is_variant i) (map variant is) ≡ any (is_ctor_covered_by (variant i)) (map variant is)
unfolding any is_ctor_covered_by
any-variants i [] = refl
any-variants i (k ∷ is) = rw (eq_comm i k, any-variants i is) refl

column-any :
    (col : Column)
    → is_ctor_covered_by_any (to_split col) (used col)
      ≡ any (is_ctor_covered_by (to_split col)) (used col)
unfolding to_split used is_ctor_covered_by_any is_ctor_covered_by any
column-any (singles zero) = refl
column-any (singles (suc n)) = refl
column-any (variants i is) = covered-variant i is ∙ any-variants i is
column-any (int_ranges r rs) =
    any-int_range r rs
    ∙ any-map (Range.is_covered_by r) (is_ctor_covered_by (int_range r)) int_range rs (λ k. refl)
column-any (arrays k ks) =
    let test : ArrayKind → Option Bool =
      λ o. Arrays.is_covered_by (record { kind = k }) (record { kind = o }) in
    any-array (record { kind = k }) ks
    ∙ sym (
        any-map test (Arrays.is_covered_by (record { kind = k })) (λ o. record { kind = o }) ks
          (λ o. refl))
    ∙ any-map test (is_ctor_covered_by (array_of k)) array_of ks (λ o. refl)

any-str :
    (id : ℕ) (ids : List ℕ)
    → any (is_ctor_covered_by (str id)) (map str ids) ≡ some (any_of (λ k. id == k) ids)
unfolding any is_ctor_covered_by
any-str id [] = refl
any-str id (k ∷ ids) = rw (any-str id ids) (or_lem (id == k) (any_of (λ j. id == j) ids))

-- For a constructor that is single, a variant, an integer range or an array, and those of a column of
-- its type without wildcards, `is_ctor_covered_by_any` gives what `is_ctor_covered_by` gives for one
-- after the other up to the first that covers it, with the same panics. For a string, which no wildcard
-- is split into, and a column of one string or more, it panics, where `is_ctor_covered_by` for one
-- after the other tells whether the string is among them.
pub is_ctor_covered_by_any-any :
    (col : Column) (id first : ℕ) (ids : List ℕ)
    → (is_ctor_covered_by_any (to_split col) (used col)
        ≡ any (is_ctor_covered_by (to_split col)) (used col))
      × (is_ctor_covered_by_any (str id) (map str (first ∷ ids)) ≡ none)
      × (any (is_ctor_covered_by (str id)) (map str (first ∷ ids))
          ≡ some (any_of (λ k. id == k) (first ∷ ids)))
unfolding is_ctor_covered_by_any
is_ctor_covered_by_any-any col id first ids = (column-any col, refl, any-str id (first ∷ ids))
