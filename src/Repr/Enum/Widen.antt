-- ===== src/Repr/Enum/Widen.antt =====
-- compiler/hash-repr/src/compute.rs: the wider tag of an enum.
use hashc.Prelude.{
  ℕ, ◌≤◌, ◌<◌, ◌≡◌, refl, sym, ap, ◌∙◌, Bool, true, false, ◌||◌, Bool-cases, ◌⊎◌, inl, inr, some,
  Option-cases, List, [], ◌∷◌, ltb, leb, if◌then◌else◌, get_elem?, arith,
}
use hashc.Target.Size.{Size}
use hashc.Target.Alignment.{Alignment}
use hashc.Target.Alignment as Alignment
use hashc.Target.DataLayout.{TargetDataLayout, Integer}
use hashc.Target.Abi.{int_size, int_align, int_rank, for_alignment}
use hashc.Target.Abi.Fits.{int_size_lt, for_alignment-IsMatch}
use hashc.Repr.Layout.{done, FieldLayout, Layout, is_zst}
use hashc.Repr.Placement.{AdtRepresentation, is_c_like}
use hashc.Repr.Enum.{
  expand_fields, expand_variant, expand_variants, wider_prefix, expand_tag, or_else, is_some,
}
use hashc.Repr.Enum.Gather.{AllRows, IsRow}
use hashc.Repr.Enum.Expand.{
  IsPast, IsTagged, row_field, IsRow-IsTagged, get_elem?-expand_fields, length-expand_fields,
  expand_field_kept, expanded_size-le,
}

if_value : (b : Bool) (x y : Size) → (if b then x else y).value ≡ (if b then x.value else y.value)
if_value true x y = refl
if_value false x y = refl

-- Expanding makes no variant smaller, but one that the wider tag is as large as.
resized_le :
    (old new variant : ℕ) → (variant ≤ old) ⊎ ((if leb variant old then new else variant) ≡ variant)
resized_le old new variant = elim (Bool-cases (leb variant old)) [
  | inl e ↦ inl (ground arith)
  | inr e ↦ inr (rw e refl)
]

module _ (metadata : AdtRepresentation) (prefix : Size × Alignment) (starting_alignment : Alignment)
    (size whole : Size) (le : size.value ≤ whole.value) where
  AllRows-IsTagged :
      (rows : List (List Layout)) (variants : List Layout)
      → AllRows (IsRow metadata prefix starting_alignment size) rows variants
      → AllRows (IsTagged prefix.0.value whole) rows variants
  AllRows-IsTagged [] [] r = tt
  AllRows-IsTagged [] (variant ∷ variants) r = absurd r
  AllRows-IsTagged (row ∷ rows) [] r = absurd r
  AllRows-IsTagged (row ∷ rows) (variant ∷ variants) r =
      (IsRow-IsTagged r.0 whole le, AllRows-IsTagged rows variants r.1)

  module _ (new : Size) (wider : prefix.0.value < new.value)
      (narrow : new.value ≤ Alignment.bytes starting_alignment)
      (fits : new.value ≤ whole.value) where
    moved_field :
        {row : List Layout} {variant : Layout}
        (r : IsRow metadata prefix starting_alignment size row variant) (result : Layout) (i : ℕ)
        (a : Layout) (x : FieldLayout)
        → result.size.value
          ≡ (if leb variant.size.value prefix.0.value then new.value else variant.size.value)
        → get_elem? row i ≡ some a
        → is_zst a ≡ false
        → get_elem? (expand_fields prefix.0 new r.laid.offsets) i ≡ some x
        → IsPast new.value result a x
    moved_field {variant = variant} r result i a x resized e z f =
        let (y, g, moved) = get_elem?-expand_fields prefix.0 new r.laid.offsets i x f in
        let (behind, p) = row_field r i a y e z g in
        let kept = expand_field_kept prefix.0 new y (omega (arith, behind, wider, narrow)) in
        let same : x.offset.value ≡ y.offset.value = ap (λ n. n.offset.value) (sym moved ∙ kept) in
        record {
          past = omega (arith, same, behind, narrow);
          within = elim (resized_le prefix.0.value new.value variant.size.value) [
            | inl small ↦ absurd (omega (arith, small, p.within, behind, narrow, wider))
            | inr large ↦ omega (arith, resized, large, same, p.within)
          ];
          quotient = p.quotient;
          aligned = same ∙ p.aligned;
        }

    expand_variant-IsTagged :
        (row : List Layout) (variant : Layout)
        → IsRow metadata prefix starting_alignment size row variant
        → (result : Layout) × (expand_variant prefix.0 new variant ≡ done result)
          × IsTagged new.value whole row result
    unfolding expand_variant
    expand_variant-IsTagged row variant r =
        let resized = if_value (leb variant.size.value prefix.0.value) new variant.size in
        rw r.laid.shape (
          _,
          refl,
          record {
            offsets = expand_fields prefix.0 new r.laid.offsets;
            memory_map = r.laid.memory_map;
            shape = refl;
            length_offsets =
                length-expand_fields prefix.0 new r.laid.offsets ∙ r.laid.length_offsets;
            size_le = omega (
              arith,
              resized,
              expanded_size-le prefix.0 new variant.size.value whole.value
                  (omega (arith, r.size_le, le)) fits,
            );
            fields = λ i a x e z f. moved_field r _ i a x resized e z f;
          },
        )

    expand_variants-IsTagged :
        (rows : List (List Layout)) (variants : List Layout)
        → AllRows (IsRow metadata prefix starting_alignment size) rows variants
        → (results : List Layout) × (expand_variants prefix.0 new variants ≡ done results)
          × AllRows (IsTagged new.value whole) rows results
    unfolding expand_variants
    expand_variants-IsTagged [] [] r = ([], refl, tt)
    expand_variants-IsTagged [] (variant ∷ variants) r = absurd r
    expand_variants-IsTagged (row ∷ rows) [] r = absurd r
    expand_variants-IsTagged (row ∷ rows) (variant ∷ variants) r =
        let (result, e, t) = expand_variant-IsTagged row variant r.0 in
        let (results, f, ts) = expand_variants-IsTagged rows variants r.1 in
        rw (e, f) (result ∷ results, refl, (t, ts))

wider_prefix-cases :
    (dl : TargetDataLayout) (metadata : AdtRepresentation) (prefix_ty : Integer)
    (alignment : Alignment)
    → (wider_prefix dl metadata prefix_ty alignment ≡ prefix_ty)
      ⊎ (for_alignment dl alignment ≡ some (wider_prefix dl metadata prefix_ty alignment))
unfolding wider_prefix
wider_prefix-cases dl metadata prefix_ty alignment =
    elim (Bool-cases (is_c_like metadata || is_some metadata.discriminant)) [
      | inl e ↦
          inl (ap (λ b. if b then prefix_ty else or_else (for_alignment dl alignment) prefix_ty) e)
      | inr e ↦
          let same =
            ap (λ b. if b then prefix_ty else or_else (for_alignment dl alignment) prefix_ty) e in
          elim (Option-cases (for_alignment dl alignment)) [
            | inl f ↦ inl (same ∙ ap (λ o. or_else o prefix_ty) f)
            | inr (i, f) ↦ inr (f ∙ ap some (sym (same ∙ ap (λ o. or_else o prefix_ty) f)))
          ]
    ]

-- The integers are aligned to less than 256 bytes, at which the search for an alignment starts.
abbrev pub IntegersAligned : TargetDataLayout → Type 0
IntegersAligned dl = (i : Integer) → (int_align i dl).abi.value < 8

module _ (dl : TargetDataLayout) (integers : IntegersAligned dl) (metadata : AdtRepresentation)
    (prefix_ty : Integer) (alignment starting_alignment : Alignment) (size whole : Size)
    (le : size.value ≤ whole.value)
    (found : (starting_alignment.value ≡ 8)
      ⊎ (Alignment.bytes starting_alignment ≤ whole.value)) where
  pub expand_tag-IsTagged :
      (rows : List (List Layout)) (variants : List Layout)
      → AllRows
          (IsRow metadata (int_size prefix_ty, alignment) starting_alignment size)
          rows
          variants
      → (tag_ty : Integer) × (results : List Layout) × (expand_tag dl metadata prefix_ty
            starting_alignment variants
          ≡ done (tag_ty, results))
        × ((int_size prefix_ty).value ≤ (int_size tag_ty).value)
        × AllRows (IsTagged (int_size tag_ty).value whole) rows results
  unfolding expand_tag
  expand_tag-IsTagged rows variants r =
      let new = wider_prefix dl metadata prefix_ty starting_alignment in
      elim (Bool-cases (ltb (int_rank prefix_ty) (int_rank new))) [
        | inr e ↦ rw e (
          prefix_ty,
          variants,
          refl,
          omega arith,
          AllRows-IsTagged metadata (int_size prefix_ty, alignment) starting_alignment size whole le
              rows variants r,
        )
        | inl e ↦ elim (wider_prefix-cases dl metadata prefix_ty starting_alignment) [
          | inl f ↦ absurd (ground (arith, ap int_rank f))
          | inr f ↦
              let m = for_alignment-IsMatch dl starting_alignment new f in
              let fits : (int_size new).value ≤ whole.value = elim found [
                | inl eight ↦ absurd (omega (arith, eight, m.same, integers new))
                | inr bytes ↦ omega (arith, bytes, m.narrow)
              ] in
              let wider = int_size_lt prefix_ty new (ground arith) in
              let (results, g, t) =
                expand_variants-IsTagged metadata (int_size prefix_ty, alignment) starting_alignment
                  size whole le (int_size new) wider m.narrow fits rows variants r in
              rw (e, g) (new, results, refl, omega (arith, wider), t)
        ]
      ]
