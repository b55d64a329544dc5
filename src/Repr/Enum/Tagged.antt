-- ===== src/Repr/Enum/Tagged.antt =====
-- compiler/hash-repr/src/compute.rs: the fields of an enum lie behind its tag.
use hashc.Prelude.{
  ℕ, ◌+◌, ◌*◌, ◌^◌, ◌≤◌, ◌<◌, ◌≡◌, refl, Bool, true, false, Bool-cases, ◌⊎◌, inl, inr, List, [],
  ◌∷◌, leb, if◌then◌else◌, arith,
}
use hashc.Prelude.Bytes.{All}
use hashc.Target.Size.{Size}
use hashc.Target.Alignment.{Alignment, Alignments}
use hashc.Target.Alignment as Alignment
use hashc.Target.Align.Fits.{IsAligned, align_to-IsAligned, bytes_bounds}
use hashc.Target.DataLayout.{TargetDataLayout, Integer}
use hashc.Target.Abi.{int_size, int_align}
use hashc.Target.Abi.Fits.{int_size-pos}
use hashc.Repr.Layout.{Layout}
use hashc.Repr.Placement.{AdtRepresentation, is_c_like}
use hashc.Repr.Placement.Loop.{HasAlignment}
use hashc.Repr.Placement.Outcome.{Outcome, fits, large, Outcome-bind}
use hashc.Repr.ScalarLike.Done.{IsDataLayout}
use hashc.Repr.Enum.{
  Gathered, Draft, gather_variants, prefix_alignment_of, widen_by_fields, widen_by_rows,
  max_alignment, draft_enum, finish_enum, start_gathering,
}
use hashc.Repr.Enum.Narrow.{bytes_le, multiple_ge}
use hashc.Repr.Enum.Gather.{AllRows, IsRowOfFields, IsGathered, rooms, gather_variants-Outcome}
use hashc.Repr.Enum.Expand.{IsTagged}
use hashc.Repr.Enum.Widen.{IntegersAligned, expand_tag-IsTagged}

widen_by_fields-le :
    (alignment : Alignment) (fields : List Layout)
    → alignment.value ≤ 32
    → All HasAlignment fields
    → (widen_by_fields alignment fields).value ≤ 32
widen_by_fields-le alignment [] h a = h
widen_by_fields-le alignment (field ∷ fields) h a =
    widen_by_fields-le (max_alignment alignment field.alignment.abi) fields (omega (arith, h, a.0))
      a.1

widen_by_rows-le :
    (alignment : Alignment) (rows : List (List Layout))
    → alignment.value ≤ 32
    → All IsRowOfFields rows
    → (widen_by_rows alignment rows).value ≤ 32
widen_by_rows-le alignment [] h a = h
widen_by_rows-le alignment (row ∷ rows) h a =
    widen_by_rows-le (widen_by_fields alignment row) rows
      (widen_by_fields-le alignment row h a.0.aligned) a.1

if_le : (b : Bool) (x y : Alignment) → x.value ≤ 32 → y.value ≤ 32 → (if b then x else y).value ≤ 32
if_le true x y h k = h
if_le false x y h k = k

-- The variants lie behind the tag, which is as wide as was asked or wider, within the size, which is below the bound and a multiple of the
-- alignment.
pub record IsDraft (prefix_ty : Integer) (bound : ℕ) (table : List (List Layout)) (draft : Draft)
    : Type 0 where
  pub rows : AllRows (IsTagged (int_size draft.tag_ty).value draft.size) table draft.variants
  pub wide : (int_size prefix_ty).value ≤ (int_size draft.tag_ty).value
  pub bounded : draft.alignment.abi.value ≤ 32
  pub quotient : ℕ
  pub aligned : draft.size.value ≡ quotient * Alignment.bytes draft.alignment.abi
  pub below : draft.size.value < bound

-- The size and the alignment of the tag.
abbrev pub prefix_of :
    TargetDataLayout → AdtRepresentation → Integer → List (List Layout) → Size × Alignment
prefix_of dl metadata prefix_ty table =
    (int_size prefix_ty, prefix_alignment_of dl prefix_ty metadata table)

module _ (dl : TargetDataLayout) (v : IsDataLayout dl) (integers : IntegersAligned dl)
    (metadata : AdtRepresentation) (prefix_ty : Integer) (table : List (List Layout))
    (rows : All IsRowOfFields table) where
  abbrev prefix : Size × Alignment
  prefix = prefix_of dl metadata prefix_ty table

  prefix_alignment_of-le : (prefix_alignment_of dl prefix_ty metadata table).value ≤ 32
  unfolding prefix_alignment_of
  prefix_alignment_of-le =
      let h : (int_align prefix_ty dl).abi.value ≤ 32 = omega (arith, integers prefix_ty) in
      if_le (is_c_like metadata) _ _ (widen_by_rows-le (int_align prefix_ty dl).abi table h rows) h

  -- The tag expands only to what the whole is aligned to.
  found_fits :
      (g : Gathered) (size : Size)
      → IsGathered metadata prefix (start_gathering dl) table g
      → IsAligned g.size g.alignment.abi size
      → (g.starting_alignment.value ≡ 8) ⊎ (Alignment.bytes g.starting_alignment ≤ size.value)
  found_fits g size r a = elim r.found [
    | inl e ↦ inl e
    | inr (le, pos) ↦ inr (
        omega (
          arith,
          bytes_le g.starting_alignment g.alignment.abi le,
          multiple_ge size.value a.quotient (Alignment.bytes g.alignment.abi) a.multiple
              (omega (arith, pos, a.above)),
        ))
  ]

  finish_enum-IsDraft :
      (g : Gathered)
      → IsGathered metadata prefix (start_gathering dl) table g
      → Outcome
          (IsDraft prefix_ty v.bound table)
          (v.bound ≤ rooms metadata prefix table + 2 ^ 33)
          (finish_enum dl metadata prefix_ty g)
  unfolding finish_enum
  finish_enum-IsDraft g r =
      let (size, e, a) = align_to-IsAligned g.size g.alignment.abi r.bounded r.small in
      let padding = (bytes_bounds g.alignment.abi r.bounded).1 in
      let (tag_ty, results, f, wide, tagged) =
        expand_tag-IsTagged dl integers metadata prefix_ty prefix.1 g.starting_alignment g.size size
          a.above (found_fits g size r a) table g.variants r.rows in
      elim (Bool-cases (leb v.bound size.value)) [
        | inl t ↦ rw (e, v.is_bound, t) (large (ground (arith, r.within, a.close, padding)))
        | inr t ↦
            rw (e, v.is_bound, t, f)
              (fits _ (record {
                rows = tagged;
                wide = wide;
                bounded = r.bounded;
                quotient = a.quotient;
                aligned = a.multiple;
                below = ground arith;
              }))
      ]

  -- The draft of an enum has every variant behind its tag, or the enum is too large.
  pub draft_enum-Outcome :
      Outcome
        (IsDraft prefix_ty v.bound table)
        (v.bound ≤ rooms metadata prefix table + 2 ^ 33)
        (draft_enum dl metadata prefix_ty table)
  unfolding draft_enum
  draft_enum-Outcome =
      Outcome-bind (gather_variants dl prefix metadata 0 table (start_gathering dl)) _
        (gather_variants-Outcome metadata prefix
          ((int_size-pos prefix_ty).1, prefix_alignment_of-le) (int_size-pos prefix_ty).0 dl v 0
          table (start_gathering dl) rows v.aggregates (omega arith) refl)
        (λ q. omega (arith, q)) (λ g r. finish_enum-IsDraft g r)
