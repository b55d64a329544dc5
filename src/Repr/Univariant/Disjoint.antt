-- ===== src/Repr/Univariant/Disjoint.antt =====
-- compiler/hash-repr/src/compute.rs: the fields of a laid out variant do not overlap, and are listed by
-- increasing offsets.
use hashc.Prelude.{
  ℕ, zero, suc, ◌+◌, ◌*◌, ◌≤◌, ◌<◌, ◌≡◌, ◌≢◌, refl, sym, ap, ◌∙◌, subst, Bool-cases, ◌⊎◌, inl, inr,
  Option, some, some_injective, none-some, List, [], ◌∷◌, ltb, ◌==◌, length, get_elem?, arith,
}
use hashc.Target.Size.{Size}
use hashc.Target.Alignment.{Alignment}
use hashc.Target.Alignment as Alignment
use hashc.Repr.Layout.{FieldLayout, Layout, aggregate, offset}
use hashc.Repr.Placement.Order.{EachOnce}
use hashc.Repr.Placement.Loop.{InMemory, IsField}
use hashc.Repr.Univariant.Inverse.{find, get_elem?_lt}
use hashc.Repr.Univariant.LaidOut.{IsLaidOut}

-- A field between the two places.
pub record IsWithin (fields : List Layout) (offsets : List FieldLayout) (i : ℕ) (from to : Size)
    : Type 0 where
  pub start : Size
  pub stop : Size
  pub is_field : IsField fields offsets i start stop
  pub after : from.value ≤ start.value
  pub before : stop.value ≤ to.value

module _ (fields : List Layout) (offsets : List FieldLayout) where
  IsField-le : {i : ℕ} {a b : Size} → IsField fields offsets i a b → a.value ≤ b.value
  IsField-le f = omega (arith, f.aligned.above, f.end)

  pub InMemory-le :
      (is : List ℕ) (from to : Size) → InMemory fields offsets from is to → from.value ≤ to.value
  InMemory-le [] from to m = omega (arith, ap (λ s. s.value) m)
  InMemory-le (i ∷ is) from to (mid, f, m) = omega (arith, IsField-le f, InMemory-le is mid to m)

  pub InMemory-IsWithin :
      (is : List ℕ) (from to : Size) (k i : ℕ)
      → InMemory fields offsets from is to
      → get_elem? is k ≡ some i
      → IsWithin fields offsets i from to
  InMemory-IsWithin [] from to k i m e = absurd (none-some e)
  InMemory-IsWithin (j ∷ is) from to zero i (mid, f, m) e = record {
    start = from;
    stop = mid;
    is_field = subst (λ n. IsField fields offsets n from mid) (some_injective e) f;
    after = omega arith;
    before = InMemory-le is mid to m;
  }
  InMemory-IsWithin (j ∷ is) from to (suc k) i (mid, f, m) e =
      let w = InMemory-IsWithin is mid to k i m e in
      record {
        start = w.start;
        stop = w.stop;
        is_field = w.is_field;
        after = omega (arith, w.after, IsField-le f);
        before = w.before;
      }

  -- The one field ends before the other starts.
  abbrev Precedes : ℕ → ℕ → Type 0
  Precedes i j =
      (x y : FieldLayout)
      → get_elem? offsets i ≡ some x
      → get_elem? offsets j ≡ some y
      → x.offset.value + x.size.value ≤ y.offset.value

  IsField-stop :
      {i : ℕ} {a b : Size} (f : IsField fields offsets i a b) (x : FieldLayout)
      → get_elem? offsets i ≡ some x
      → (x.offset.value + x.size.value ≡ b.value) × (x.offset.value ≡ f.field.offset.value)
  IsField-stop f x e =
      let same : f.field ≡ x = some_injective (sym f.is_field ∙ e) in
      (
        omega (
          arith,
          f.end,
          ap (λ s. s.value) f.size,
          ap (λ y. y.offset.value) same,
          ap (λ y. y.size.value) same,
        ),
        omega (arith, ap (λ y. y.offset.value) same),
      )

  InMemory-Precedes :
      (is : List ℕ) (from to : Size) (k k' i j : ℕ)
      → InMemory fields offsets from is to
      → get_elem? is k ≡ some i
      → get_elem? is k' ≡ some j
      → k < k'
      → Precedes i j
  InMemory-Precedes [] from to k k' i j m e f h x y p q = absurd (none-some e)
  InMemory-Precedes (n ∷ is) from to k zero i j m e f h x y p q = absurd (omega (arith, h))
  InMemory-Precedes (n ∷ is) from to (suc k) (suc k') i j (mid, g, m) e f h x y p q =
      InMemory-Precedes is mid to k k' i j m e f (omega (arith, h)) x y p q
  InMemory-Precedes (n ∷ is) from to zero (suc k') i j (mid, g, m) e f h x y p q =
      let w = InMemory-IsWithin is mid to k' j m f in
      let g' = subst (λ n. IsField fields offsets n from mid) (some_injective e) g in
      omega (
        arith,
        (IsField-stop g' x p).0,
        w.after,
        w.is_field.aligned.above,
        (IsField-stop w.is_field y q).1,
      )

-- Two fields lie apart, within the layout, and each at a multiple of its alignment.
pub record AreApart (layout : Layout) (i j : ℕ) (a b : Layout) : Type 0 where
  pub first : Size
  pub second : Size
  pub is_first : offset layout.shape i ≡ some first
  pub is_second : offset layout.shape j ≡ some second
  pub apart :
      (first.value + a.size.value ≤ second.value) ⊎ (second.value + b.size.value ≤ first.value)
  pub first_within : first.value + a.size.value ≤ layout.size.value
  pub second_within : second.value + b.size.value ≤ layout.size.value
  pub quotient : ℕ
  pub first_aligned : first.value ≡ quotient * Alignment.bytes a.alignment.abi

-- Where a field of a laid out variant is.
pub record IsAt (layout : Layout) (offsets : List FieldLayout) (i : ℕ) (a : Layout) : Type 0 where
  pub field : FieldLayout
  pub is_field : get_elem? offsets i ≡ some field
  pub is_offset : offset layout.shape i ≡ some field.offset
  pub size : field.size.value ≡ a.size.value
  pub within : field.offset.value + a.size.value ≤ layout.size.value
  pub quotient : ℕ
  pub aligned : field.offset.value ≡ quotient * Alignment.bytes a.alignment.abi

pub offset-aggregate :
    (layout : Layout) {offsets : List FieldLayout} {memory_map : List ℕ} {x : FieldLayout} (i : ℕ)
    → layout.shape ≡ aggregate offsets memory_map
    → get_elem? offsets i ≡ some x
    → offset layout.shape i ≡ some x.offset
unfolding offset
offset-aggregate layout i e f = rw (e, f) refl

pub place_of :
    (n : ℕ) (order : List ℕ) (i : ℕ)
    → EachOnce n order
    → i < n
    → (k : ℕ) × (get_elem? order k ≡ some i)
place_of n order i once lt = find order i (ground (arith, once i))

module _ {tag : Option (Size × Alignment)} {fields : List Layout} {order : List ℕ} {layout : Layout}
    (l : IsLaidOut tag fields order layout) where
  pub IsLaidOut-IsAt :
      (i : ℕ) (a : Layout) → get_elem? fields i ≡ some a → IsAt layout l.offsets i a
  IsLaidOut-IsAt i a e =
      let (k, f) = place_of (length fields) order i l.each_once (get_elem?_lt fields i e) in
      let w = InMemory-IsWithin fields l.offsets order l.start l.stop k i l.in_memory f in
      let same : w.is_field.layout ≡ a = some_injective (sym w.is_field.is_layout ∙ e) in
      record {
        field = w.is_field.field;
        is_field = w.is_field.is_field;
        is_offset = offset-aggregate layout i l.shape w.is_field.is_field;
        size = ap (λ s. s.value) w.is_field.size ∙ ap (λ x. x.size.value) same;
        within = omega (arith, w.is_field.end, w.before, l.size.above, ap (λ x. x.size.value) same);
        quotient = w.is_field.aligned.quotient;
        aligned =
            w.is_field.aligned.multiple
            ∙ ap (λ x. w.is_field.aligned.quotient * Alignment.bytes x.alignment.abi) same;
      }

  IsLaidOut-apart :
      (i j : ℕ)
      → i ≢ j
      → i < length fields
      → j < length fields
      → Precedes fields l.offsets i j ⊎ Precedes fields l.offsets j i
  IsLaidOut-apart i j ne lt lt' =
      let (k, f) = place_of (length fields) order i l.each_once lt in
      let (k', f') = place_of (length fields) order j l.each_once lt' in
      elim (Bool-cases (ltb k k')) [
        | inl h ↦ inl (
            InMemory-Precedes fields l.offsets order l.start l.stop k k' i j l.in_memory f f'
              (ground arith))
        | inr h ↦ elim (Bool-cases (k == k')) [
          | inl same ↦ absurd (
              ne
                (some_injective (sym f ∙ ap (λ n. get_elem? order n) {y = k'} (ground arith) ∙ f')))
          | inr other ↦ inr (
              InMemory-Precedes fields l.offsets order l.start l.stop k' k j i l.in_memory f' f
                (ground arith))
        ]
      ]

  pub IsLaidOut-AreApart :
      (i j : ℕ) (a b : Layout)
      → i ≢ j
      → get_elem? fields i ≡ some a
      → get_elem? fields j ≡ some b
      → AreApart layout i j a b
  IsLaidOut-AreApart i j a b ne e f =
      let p = IsLaidOut-IsAt i a e in
      let q = IsLaidOut-IsAt j b f in
      record {
        first = p.field.offset;
        second = q.field.offset;
        is_first = p.is_offset;
        is_second = q.is_offset;
        apart = elim (IsLaidOut-apart i j ne (get_elem?_lt fields i e) (get_elem?_lt fields j f)) [
          | inl h ↦ inl (omega (arith, h p.field q.field p.is_field q.is_field, p.size))
          | inr h ↦ inr (omega (arith, h q.field p.field q.is_field p.is_field, q.size))
        ];
        first_within = p.within;
        second_within = q.within;
        quotient = p.quotient;
        first_aligned = p.aligned;
      }
