-- ===== src/Repr/Enum/Gather.antt =====
-- compiler/hash-repr/src/compute.rs: the loop over the variants of an enum.
use hashc.Prelude.{
  ℕ, suc, ◌+◌, ◌^◌, ◌≤◌, ◌<◌, ◌≡◌, refl, sym, ap, ◌∙◌, subst, ◌⊎◌, inl, inr, max, some, List, [],
  ◌∷◌, length, arith,
}
use hashc.Prelude.Bytes.{All}
use hashc.Target.Size.{Size}
use hashc.Target.Alignment.{Alignment, Alignments, max_alignments}
use hashc.Target.Alignment as Alignment
use hashc.Target.Align.Fits.{bytes_bounds}
use hashc.Target.DataLayout.{TargetDataLayout}
use hashc.Repr.Layout.{VariantIdx, Layout}
use hashc.Repr.Placement.{AdtRepresentation, field_order}
use hashc.Repr.Placement.Outcome.{Outcome, fits, Outcome-bind}
use hashc.Repr.Placement.Loop.{HasAlignment, room, max_alignments-abi}
use hashc.Repr.ScalarLike.Done.{IsDataLayout}
use hashc.Repr.Univariant.{compute_layout_of_univariant}
use hashc.Repr.Univariant.Inverse.{length-field_order}
use hashc.Repr.Univariant.LaidOut.{
  IsTag, IsLaidOut, tag_room, compute_layout_of_univariant-IsLaidOut,
}
use hashc.Repr.Univariant.Disjoint.{InMemory-le}
use hashc.Repr.Univariant.Offsets.{iter_increasing_offsets-IsLaidOut}
use hashc.Repr.Enum.{Gathered, gather_variants}
use hashc.Repr.Enum.Narrow.{StartBehind, IsNarrowed, narrow-IsNarrowed, bytes_le}

-- The rows of the fields and the layouts of the variants, each beside its own.
abbrev pub AllRows : (List Layout → Layout → Type 0) → List (List Layout) → List Layout → Type 0
AllRows P [] [] = Unit
AllRows P [] (variant ∷ variants) = ⊥
AllRows P (row ∷ rows) [] = ⊥
AllRows P (row ∷ rows) (variant ∷ variants) = P row variant × AllRows P rows variants

-- The fields of a variant have alignments, and a `u32` counts them.
pub record IsRowOfFields (row : List Layout) : Type 0 where
  pub aligned : All HasAlignment row
  pub few : length row < 2 ^ 32

module _ (metadata : AdtRepresentation) (prefix : Size × Alignment) where
  abbrev pub row_order : List Layout → List ℕ
  row_order row = field_order (some prefix) row metadata

  -- The most that a variant takes, but for the padding at its end.
  abbrev pub rooms : List (List Layout) → ℕ
  rooms [] = 0
  rooms (row ∷ rows) = max (tag_room (some prefix) + room row (row_order row)) (rooms rows)

  pub record IsRow (starting_alignment : Alignment) (size : Size) (row : List Layout)
      (variant : Layout) : Type 0 where
    pub laid : IsLaidOut (some prefix) row (row_order row) variant
    pub behind : StartBehind row laid.offsets (row_order row) (Alignment.bytes starting_alignment)
    pub size_le : variant.size.value ≤ size.value

  pub record IsGathered (self : Gathered) (table : List (List Layout)) (result : Gathered)
      : Type 0 where
    pub narrower : result.starting_alignment.value ≤ self.starting_alignment.value
    pub found :
        (result.starting_alignment.value ≡ self.starting_alignment.value)
        ⊎ ((result.starting_alignment.value ≤ result.alignment.abi.value) × (0 < result.size.value))
    pub grows : self.size.value ≤ result.size.value
    pub widens : self.alignment.abi.value ≤ result.alignment.abi.value
    pub bounded : result.alignment.abi.value ≤ 32
    pub small : result.size.value < 2 ^ 63
    pub within : result.size.value ≤ max self.size.value (rooms table + 2 ^ 32)
    pub rows : AllRows (IsRow result.starting_alignment result.size) table result.variants

  module _ (is_tag : IsTag (some prefix)) (positive : 0 < prefix.0.value) where
    variant_size :
        {row : List Layout} {variant : Layout}
        → IsLaidOut (some prefix) row (row_order row) variant
        → (0 < variant.size.value)
          × (variant.size.value ≤ tag_room (some prefix) + room row (row_order row) + 2 ^ 32)
          × (variant.size.value < 2 ^ 63)
    variant_size {row = row} l =
        let ends = InMemory-le row l.offsets (row_order row) l.start l.stop l.in_memory in
        let padding = (bytes_bounds _ l.bounded).1 in
        (
          omega (arith, positive, l.starts_after.0.above, ends, l.size.above),
          omega (arith, l.size.close, l.within, padding),
          omega (arith, l.size.close, l.small, padding),
        )

    IsGathered-next :
        (self next rest : Gathered) (row : List Layout) (rows : List (List Layout))
        (variant : Layout) (l : IsLaidOut (some prefix) row (row_order row) variant)
        (n : IsNarrowed row l.offsets (row_order row) variant.alignment.abi self.starting_alignment)
        → next.starting_alignment.value ≡ n.result.value
        → next.size.value ≡ max self.size.value variant.size.value
        → next.alignment ≡ max_alignments self.alignment variant.alignment
        → IsGathered next rows rest
        → IsGathered self (row ∷ rows) (record rest { variants = variant ∷ rest.variants })
    IsGathered-next self next rest row rows variant l n starting size alignment r =
        let whole =
          ap (λ a. a.abi.value) alignment ∙ max_alignments-abi self.alignment variant.alignment in
        let (positive_size, within, small) = variant_size l in
        record {
          narrower = omega (arith, r.narrower, starting, n.le);
          found = elim r.found [
            | inr f ↦ inr f
            | inl e ↦ elim n.kept [
              | inl f ↦ inl (omega (arith, e, starting, f))
              | inr f ↦ inr (
                omega (arith, e, starting, f, whole, r.widens),
                omega (arith, positive_size, size, r.grows),
              )
            ]
          ];
          grows = omega (arith, size, r.grows);
          widens = omega (arith, whole, r.widens);
          bounded = r.bounded;
          small = r.small;
          within = omega (arith, r.within, size, within);
          rows = (
            record {
              laid = l;
              behind = λ k i a x e f z h. omega (
                arith,
                n.behind k i a x e f z h,
                bytes_le rest.starting_alignment n.result (omega (arith, r.narrower, starting)),
              );
              size_le = omega (arith, size, r.grows);
            },
            r.rows,
          );
        }

    module _ (dl : TargetDataLayout) (v : IsDataLayout dl) where
      -- The variants are laid out behind the tag, or one of them is too large.
      pub gather_variants-Outcome :
          (index : VariantIdx) (table : List (List Layout)) (self : Gathered)
          → All IsRowOfFields table
          → self.alignment.abi.value ≤ 32
          → self.size.value < 2 ^ 63
          → self.variants ≡ []
          → Outcome
              (IsGathered self table)
              (v.bound ≤ rooms table)
              (gather_variants dl prefix metadata index table self)
      unfolding gather_variants
      gather_variants-Outcome index [] self h b small empty = fits self (record {
        narrower = omega arith;
        found = inl refl;
        grows = omega arith;
        widens = omega arith;
        bounded = b;
        small = small;
        within = omega arith;
        rows = subst (AllRows (IsRow self.starting_alignment self.size) []) (sym empty) tt;
      })
      gather_variants-Outcome index (row ∷ rows) self h b small empty =
          Outcome-bind (compute_layout_of_univariant dl index (some prefix) row metadata) _
            (compute_layout_of_univariant-IsLaidOut dl v index (some prefix) row metadata is_tag
              h.0.aligned h.0.few)
            (λ q. omega (arith, q))
            (λ variant l.
              let order =
                iter_increasing_offsets-IsLaidOut l
                  (length-field_order (some prefix) row metadata h.0.few) in
              let n =
                narrow-IsNarrowed row l.offsets (row_order row) l.start l.stop variant.alignment.abi
                  self.starting_alignment l.in_memory
                  (omega (arith, positive, l.starts_after.0.above)) l.largest in
              let next : Gathered = record {
                starting_alignment = n.result;
                size = record { value = max self.size.value variant.size.value };
                alignment = max_alignments self.alignment variant.alignment;
                variants = self.variants;
              } in
              let whole = max_alignments-abi self.alignment variant.alignment in
              rw (order, n.returns)
                (Outcome-bind (gather_variants dl prefix metadata (suc index) rows next) _
                  (gather_variants-Outcome (suc index) rows next h.1
                    (omega (arith, whole, b, l.bounded)) (omega (arith, small, (variant_size l).2))
                    empty)
                  (λ q. omega (arith, q))
                  (λ rest r.
                    fits _ (IsGathered-next self next rest row rows variant l n refl refl refl r))))
