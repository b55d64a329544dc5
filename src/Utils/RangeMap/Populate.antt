-- ===== src/Utils/RangeMap/Populate.antt =====
-- compiler/hash-utils/src/range_map.rs: what `populated` gives and when it panics, and `append`.
use hashc.Prelude.{
  some_injective, none-some, ℕ, ◌≤◌, ◌<◌, ◌≡◌, refl, sym, subst, true, false, Bool-cases, some, [],
  ◌∷◌, ◌++◌, inl, inr, leb, lt→ltb, arith,
}
use hashc.Prelude.Bytes.{All}
use hashc.Utils.RangeMap.{
  Range, RangeMap, contains, verify, sorted_by_start, populated, insert, overlaps, append, last,
}
use hashc.Utils.RangeMap.Sorted.{Above, IsRangeMap, lookup, contains-apart, contains-bounds}
use hashc.Utils.RangeMap.Build.{
  IsOrdered, AreDisjoint, sorted_by_start-All, All-sorted_by_start, sorted_by_start-IsSorted,
  sorted_by_start-AreDisjoint, verify-true, verify-IsRangeMap,
}

overlaps-after :
    (a b : Range) → a.start ≤ a.end → b.start ≤ b.end → a.end < b.start → overlaps a b ≡ false
unfolding overlaps contains
overlaps-after a b h k lt = ground arith

module _ {ℓ} {V : Type ℓ} where
  -- Every key of the entry is looked up to the entry's value.
  abbrev pub IsFound : RangeMap V → Range × V → Type ℓ
  IsFound m x = (k : ℕ) → contains x.0 k ≡ true → lookup m k ≡ some x.1

  IsFound-cons :
      (x : Range × V) (xs ys : RangeMap V)
      → Above x.0.end ys
      → All (IsFound xs) ys
      → All (IsFound (x ∷ xs)) ys
  unfolding lookup
  IsFound-cons x xs [] a h = tt
  IsFound-cons x xs (y ∷ ys) a h = (
    (λ k c.
        rw (contains-apart x.0 k (inr (omega (arith, a.0, contains-bounds y.0 k c)))) (h.0 k c)),
    IsFound-cons x xs ys a.1 h.1,
  )

  IsRangeMap-IsFound : (m : RangeMap V) → IsRangeMap m → All (IsFound m) m
  unfolding lookup
  IsRangeMap-IsFound [] h = tt
  IsRangeMap-IsFound (x ∷ xs) h =
      ((λ k c. rw c refl), IsFound-cons x xs xs h.1 (IsRangeMap-IsFound xs h.2))

  populated-verify :
      (items m : RangeMap V)
      → populated items ≡ some m
      → (verify (sorted_by_start items) ≡ true) × (m ≡ sorted_by_start items)
  unfolding populated
  populated-verify items m e = ground arith

  -- If `populated` does not panic on entries whose ranges are in order, the map it gives has its
  -- ranges in order and apart, and every key of every entry is looked up to that entry's value.
  pub populated-IsRangeMap :
      (items m : RangeMap V)
      → All IsOrdered items
      → populated items ≡ some m
      → IsRangeMap m × All (IsFound m) items
  populated-IsRangeMap items m o e =
      let (ok, same) = populated-verify items m e in
      let map = sorted_by_start items in
      let valid = verify-IsRangeMap map ok (sorted_by_start-All IsOrdered items o) in
      subst (λ n. IsRangeMap n × All (IsFound n) items) (sym same)
        (valid, All-sorted_by_start (IsFound map) items (IsRangeMap-IsFound map valid))

  -- `populated` does not panic on entries in any order whose ranges are in order and share no key.
  pub populated-AreDisjoint :
      (items : RangeMap V)
      → All IsOrdered items
      → AreDisjoint items
      → populated items ≡ some (sorted_by_start items)
  unfolding populated
  populated-AreDisjoint items o d =
      rw
        (verify-true (sorted_by_start items) (sorted_by_start-IsSorted items)
          (sorted_by_start-AreDisjoint items d) (sorted_by_start-All IsOrdered items o))
        refl

  insert-after :
      (x : Range × V) (xs ys : RangeMap V) (key : Range) (v : V)
      → x.0.start ≤ x.0.end
      → key.start ≤ key.end
      → x.0.end < key.start
      → insert xs key v ≡ some ys
      → insert (x ∷ xs) key v ≡ some (x ∷ ys)
  unfolding insert
  insert-after x xs ys key v h o lt e =
      rw (overlaps-after x.0 key h o lt, lt→ltb x.0.end key.start lt, e) refl

  insert-nil : (key : Range) (v : V) → insert [] key v ≡ some ((key, v) ∷ [])
  unfolding insert
  insert-nil key v = refl

  last-Above :
      (n : ℕ) (x : Range × V) (xs : RangeMap V) (f : Range × V)
      → Above n (x ∷ xs)
      → last (x ∷ xs) ≡ some f
      → n < f.0.start
  last-Above n x [] f a e = subst (λ f. n < f.0.start) (some_injective e) a.0
  last-Above n x (y ∷ ys) f a e = last-Above n y ys f a.1 e

  last-IsOrdered :
      (x : Range × V) (xs : RangeMap V) (f : Range × V)
      → IsRangeMap (x ∷ xs)
      → last (x ∷ xs) ≡ some f
      → f.0.start ≤ f.0.end
  last-IsOrdered x [] f h e = subst (λ f. f.0.start ≤ f.0.end) (some_injective e) h.0
  last-IsOrdered x (y ∷ ys) f h e = last-IsOrdered y ys f h.2 e

  insert-last :
      (x : Range × V) (xs : RangeMap V) (f : Range × V) (key : Range) (v : V)
      → IsRangeMap (x ∷ xs)
      → key.start ≤ key.end
      → last (x ∷ xs) ≡ some f
      → f.0.end < key.start
      → insert (x ∷ xs) key v ≡ some (x ∷ xs ++ (key, v) ∷ [])
  insert-last x [] f key v h o e lt =
      insert-after x [] _ key v h.0 o (subst (λ f. f.0.end < key.start) (sym (some_injective e)) lt)
        (insert-nil key v)
  insert-last x (y ∷ ys) f key v h o e lt =
      insert-after x (y ∷ ys) _ key v h.0 o
        (omega (arith, last-Above x.0.end y ys f h.1 e, last-IsOrdered y ys f h.2 e, lt))
        (insert-last y ys f key v h.2 o e lt)

  append-cases :
      (self m : RangeMap V) (f : Range × V) (key : Range) (v : V)
      → last self ≡ some f
      → append self key v ≡ some m
      → (f.0.end < key.start) × (m ≡ self ++ (key, v) ∷ [])
  unfolding append
  append-cases self m f key v l e = elim (Bool-cases (leb key.start f.0.end)) [
    | inl t ↦ absurd (none-some (rw (append, l, t) at e))
    | inr t ↦ (ground arith, sym (some_injective (rw (append, l, t) at e)))
  ]

  append-nil_lem :
      (m : RangeMap V) (key : Range) (v : V) → append [] key v ≡ some m → m ≡ (key, v) ∷ []
  unfolding append
  append-nil_lem m key v e = sym (some_injective e)

  last-some : (x : Range × V) (xs : RangeMap V) → (f : Range × V) × (last (x ∷ xs) ≡ some f)
  last-some x [] = (x, refl)
  last-some x (y ∷ ys) = last-some y ys

  -- On a map whose ranges are in order and apart, where `append` does not panic on a range in order it
  -- does what `insert` does.
  pub insert-append :
      (self m : RangeMap V) (key : Range) (v : V)
      → IsRangeMap self
      → key.start ≤ key.end
      → append self key v ≡ some m
      → insert self key v ≡ some m
  insert-append [] m key v h o e = rw (append-nil_lem m key v e) (insert-nil key v)
  insert-append (x ∷ xs) m key v h o e =
      let (f, l) = last-some x xs in
      let (lt, same) = append-cases (x ∷ xs) m f key v l e in
      rw same (insert-last x xs f key v h o l lt)
