-- ===== src/Repr/Enum/Behind.antt =====
-- compiler/hash-repr/src/compute.rs: the layout of an enum has one for each variant, with its fields behind
-- the tag.
use Prim.Native.Nat.{bit_and}
use hashc.Prelude.{
  ℕ, suc, ◌+◌, ◌*◌, ◌^◌, ◌≤◌, ◌<◌, ◌≡◌, refl, sym, ap, subst, Bool, some, List, [], ◌∷◌, ◌++◌,
  length,
}
use hashc.Prelude.Bytes.{All}
use hashc.Target.Size.{Size, unsigned_int_max}
use hashc.Target.Alignment.{Alignment, Alignments}
use hashc.Target.Alignment as Alignment
use hashc.Target.DataLayout.{TargetDataLayout, Integer}
use hashc.Target.Abi.{Scalar, initialised, int_kind, int_size, scalar_size, kind_size}
use hashc.Target.Abi.Fits.{int_size-pos}
use hashc.Repr.Layout.{done, Layout, multiple, range_from, no_size, aggregate}
use hashc.Repr.Placement.Outcome.{Outcome, fits, Outcome-bind}
use hashc.Repr.ScalarLike.Done.{IsDataLayout}
use hashc.Repr.Discriminant.{Adt, compute_discriminant_range, discriminant_representation}
use hashc.Repr.EnumAbi.Done.{IsAggregate, unsigned_int_max-some, compute_enum_abi-IsDone}
use hashc.Repr.Enum.{draft_enum, compute_layout_of_enum}
use hashc.Repr.Enum.Gather.{AllRows, IsRowOfFields, rooms}
use hashc.Repr.Enum.Expand.{IsTagged}
use hashc.Repr.Enum.Widen.{IntegersAligned}
use hashc.Repr.Enum.Tagged.{prefix_of, draft_enum-Outcome}

-- The layout of an enum whose variants have these fields: after those that were in the store, it has one
-- for each variant, which the enum names in order. The tag is an integer at least as wide as the one chosen
-- for the discriminants, and its values are theirs, cut to its bits. In each the fields that have a size lie behind
-- the tag, at a multiple of their alignment and within the variant, and the variant is no larger than
-- the enum.
pub record IsEnumLayout (dl : TargetDataLayout) (bound lo hi : ℕ) (prefix_ty : Integer)
    (signed : Bool) (store : List Layout) (table : List (List Layout))
    (result : Layout × List Layout) : Type 0 where
  pub tag : Scalar
  pub tag_ty : Integer
  pub wide : (int_size prefix_ty).value ≤ (int_size tag_ty).value
  pub mask : ℕ
  pub is_mask : unsigned_int_max (int_size tag_ty) ≡ some mask
  pub is_tag :
      tag
      ≡ initialised
          (int_kind tag_ty signed)
          (record { start = bit_and lo mask; end = bit_and hi mask })
  pub variants : List Layout
  pub is_multiple : result.0.variants ≡ multiple tag 0 (range_from (length store) (length table))
  pub stored : result.1 ≡ store ++ variants
  pub length_variants : length variants ≡ length table
  pub rows : AllRows (IsTagged (scalar_size tag dl).value result.0.size) table variants
  pub is_aggregate :
      result.0.shape ≡ aggregate (record { offset = no_size; size = result.0.size } ∷ []) (0 ∷ [])
  pub quotient : ℕ
  pub aligned : result.0.size.value ≡ quotient * Alignment.bytes result.0.alignment.abi
  pub below : result.0.size.value < bound

AllRows-length :
    (P : List Layout → Layout → Type 0) (rows : List (List Layout)) (variants : List Layout)
    → AllRows P rows variants
    → length variants ≡ length rows
AllRows-length P [] [] r = refl
AllRows-length P [] (variant ∷ variants) r = absurd r
AllRows-length P (row ∷ rows) [] r = absurd r
AllRows-length P (row ∷ rows) (variant ∷ variants) r = ap suc (AllRows-length P rows variants r.1)

AllRows-IsAggregate :
    (tag_size : ℕ) (size : Size) (rows : List (List Layout)) (variants : List Layout)
    → AllRows (IsTagged tag_size size) rows variants
    → All IsAggregate variants
AllRows-IsAggregate n s [] [] r = tt
AllRows-IsAggregate n s [] (variant ∷ variants) r = absurd r
AllRows-IsAggregate n s (row ∷ rows) [] r = absurd r
AllRows-IsAggregate n s (row ∷ rows) (variant ∷ variants) r = (
  record { offsets = r.0.offsets; memory_map = r.0.memory_map; shape = r.0.shape },
  AllRows-IsAggregate n s rows variants r.1,
)

tag_size :
    (dl : TargetDataLayout) (ty : Integer) (signed : Bool)
    → (kind_size (int_kind ty signed) dl) ≡ int_size ty
unfolding kind_size
tag_size dl ty signed = refl

module _ (dl : TargetDataLayout) (v : IsDataLayout dl) (integers : IntegersAligned dl)
    (store : List Layout) (table : List (List Layout)) (adt : Adt) (rows : All IsRowOfFields table)
    (lo hi : ℕ) (prefix_ty : Integer) (signed : Bool)
    (ranged : compute_discriminant_range dl adt table ≡ done (lo, hi))
    (represented : discriminant_representation adt dl lo hi ≡ done (prefix_ty, signed)) where
  -- On a target with 16, 32 or 64-bit pointers, alignments up to 2^32 bytes and integers aligned
  -- to less than 256 bytes, for any list of variants, without fields or of fewer than 2^32 so
  -- aligned, and discriminants that have a representation, the layout of an enum does not panic,
  -- and is None only where the tag, fields and padding of a variant and 2^33 bytes reach the bound
  -- on sizes. Else the store gets one layout for each variant, which the enum names in order. The
  -- tag is an integer at least as wide as the one chosen for the discriminants, and its values are
  -- the computed range of the discriminants, cut to its bits. In each variant
  -- all fields that have a size lie behind the tag, as expanded, at a multiple of their alignment
  -- and within the variant, which is no larger than the enum. The enum's size is below the bound and
  -- a multiple of its alignment.
  pub compute_layout_of_enum-IsEnumLayout :
      Outcome
        (IsEnumLayout dl v.bound lo hi prefix_ty signed store table)
        (v.bound ≤ rooms adt.metadata (prefix_of dl adt.metadata prefix_ty table) table + 2 ^ 33)
        (compute_layout_of_enum dl store table adt)
  unfolding compute_layout_of_enum scalar_size
  compute_layout_of_enum-IsEnumLayout =
      rw (ranged, represented)
        (Outcome-bind (draft_enum dl adt.metadata prefix_ty table) _
          (draft_enum-Outcome dl v integers adt.metadata prefix_ty table rows) (λ q. q)
          (λ draft d.
            let ty = draft.tag_ty in
            let (mask, e) =
              unsigned_int_max-some (int_size ty) (int_size-pos ty).0 (int_size-pos ty).1 in
            let tag : Scalar =
              initialised (int_kind ty signed)
                (record { start = bit_and lo mask; end = bit_and hi mask }) in
            let (abi, h) =
              compute_enum_abi-IsDone dl v tag draft.size draft.alignment table draft.variants
                (AllRows-IsAggregate (int_size ty).value draft.size table draft.variants d.rows) in
            let same =
              AllRows-length (IsTagged (int_size ty).value draft.size) table draft.variants
                d.rows in
            rw (e, h)
              (fits _ (record {
                tag = tag;
                tag_ty = ty;
                wide = d.wide;
                mask = mask;
                is_mask = e;
                is_tag = refl;
                variants = draft.variants;
                is_multiple = ap (λ n. multiple tag 0 (range_from (length store) n)) same;
                stored = refl;
                length_variants = same;
                rows =
                    subst (λ s. AllRows (IsTagged s.value draft.size) table draft.variants)
                      (sym (tag_size dl ty signed)) d.rows;
                is_aggregate = refl;
                quotient = d.quotient;
                aligned = d.aligned;
                below = d.below;
              }))))
