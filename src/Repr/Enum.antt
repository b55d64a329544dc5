-- ===== src/Repr/Enum.antt =====
-- compiler/hash-repr/src/compute.rs: the layout of an enum, from those of the fields of its variants.
pub mod Narrow
pub mod Gather
pub mod Expand
pub mod Widen
pub mod Tagged
pub mod Behind
pub mod Tests
use Prim.Native.Nat.{bit_and}
use hashc.Prelude.{
  ℕ, zero, suc, Bool, true, false, not, ◌&&◌, ◌||◌, min, max, Option, none, some, List, [], ◌∷◌,
  ◌++◌, ltb, leb, ◌==◌, if◌then◌else◌, length, get_elem?,
}
use hashc.Target.Size.{Size, unsigned_int_max}
use hashc.Target.Alignment.{Alignment, Alignments, max_alignments}
use hashc.Target.Alignment as Alignment
use hashc.Target.Align.{align_to}
use hashc.Target.DataLayout.{TargetDataLayout, Integer, obj_size_bound}
use hashc.Target.Primitives.{IntTy}
use hashc.Target.Abi.{Scalar, int_kind, initialised, int_size, int_align, int_rank, for_alignment}
use hashc.Repr.Layout.{
  Laid, done, too_large, panicked, ◌>>=◌, or_panic, no_size, FieldLayout, VariantIdx, Layout,
  LayoutShape, primitive, union_shape, array_shape, aggregate, multiple, is_zst,
  iter_increasing_offsets, range_from,
}
use hashc.Repr.Placement.{AdtRepresentation, is_c_like}
use hashc.Repr.Univariant.{compute_layout_of_univariant}
use hashc.Repr.Discriminant.{Adt, compute_discriminant_range, discriminant_representation}
use hashc.Repr.EnumAbi.{compute_enum_abi}

abbrev pub max_alignment : Alignment → Alignment → Alignment
max_alignment a b = record { value = max a.value b.value }

abbrev pub min_alignment : Alignment → Alignment → Alignment
min_alignment a b = record { value = min a.value b.value }

abbrev widen_by_fields : Alignment → List Layout → Alignment
widen_by_fields alignment [] = alignment
widen_by_fields alignment (field ∷ fields) =
    widen_by_fields (max_alignment alignment field.alignment.abi) fields

abbrev widen_by_rows : Alignment → List (List Layout) → Alignment
widen_by_rows alignment [] = alignment
widen_by_rows alignment (row ∷ rows) = widen_by_rows (widen_by_fields alignment row) rows

unfoldable pub prefix_alignment_of :
    TargetDataLayout → Integer → AdtRepresentation → List (List Layout) → Alignment
prefix_alignment_of dl prefix_ty metadata table =
    let alignment = (int_align prefix_ty dl).abi in
    if is_c_like metadata then widen_by_rows alignment table else alignment

-- The first field in memory that has a size or an alignment narrows the alignment.
unfoldable pub narrow : List Layout → List ℕ → Alignment → Laid Alignment
narrow fields [] starting_alignment = done starting_alignment
narrow fields (i ∷ is) starting_alignment = do
  let rest = narrow fields is starting_alignment
  field ← or_panic (get_elem? fields i)
  if not (is_zst field) || not (Alignment.bytes field.alignment.abi == 1)
      then done (min_alignment starting_alignment field.alignment.abi)
      else rest

-- What the loop over the variants has come to.
pub record Gathered : Type 0 where
  pub starting_alignment : Alignment
  pub size : Size
  pub alignment : Alignments
  pub variants : List Layout

unfoldable pub gather_variants :
    TargetDataLayout
    → Size × Alignment
    → AdtRepresentation
    → VariantIdx
    → List (List Layout)
    → Gathered
    → Laid Gathered
unfolding narrow
gather_variants dl prefix metadata index [] self = done self
gather_variants dl prefix metadata index (fields ∷ table) self = do
  variant ← compute_layout_of_univariant dl index (some prefix) fields metadata
  starting_alignment ← narrow fields (iter_increasing_offsets variant.shape) self.starting_alignment
  rest ← gather_variants dl prefix metadata (suc index) table (record {
    starting_alignment = starting_alignment;
    size = record { value = max self.size.value variant.size.value };
    alignment = max_alignments self.alignment variant.alignment;
    variants = self.variants;
  })
  done (record rest { variants = variant ∷ rest.variants })

abbrev pub expand_field : Size → Size → FieldLayout → FieldLayout
expand_field old new field =
    if leb field.offset.value old.value then record field { offset = new } else field

abbrev pub expand_fields : Size → Size → List FieldLayout → List FieldLayout
expand_fields old new [] = []
expand_fields old new (field ∷ fields) = expand_field old new field ∷ expand_fields old new fields

abbrev expand_shape : Size → Size → LayoutShape → Laid LayoutShape
expand_shape old new (aggregate offsets memory_map) =
    done (aggregate (expand_fields old new offsets) memory_map)
expand_shape old new primitive = panicked
expand_shape old new (union_shape n) = panicked
expand_shape old new (array_shape stride elements) = panicked

unfoldable pub expand_variant : Size → Size → Layout → Laid Layout
expand_variant old new variant = do
  shape ← expand_shape old new variant.shape
  done (record variant {
    shape = shape;
    size = if leb variant.size.value old.value then new else variant.size;
  })

unfoldable pub expand_variants : Size → Size → List Layout → Laid (List Layout)
unfolding expand_variant
expand_variants old new [] = done []
expand_variants old new (variant ∷ variants) = do
  first ← expand_variant old new variant
  rest ← expand_variants old new variants
  done (first ∷ rest)

abbrev or_else {ℓ} : {A : Type ℓ} → Option A → A → A
or_else none a = a
or_else (some b) a = b

abbrev is_some {ℓ} : {A : Type ℓ} → Option A → Bool
is_some none = false
is_some (some a) = true

unfoldable pub wider_prefix : TargetDataLayout → AdtRepresentation → Integer → Alignment → Integer
wider_prefix dl metadata prefix_ty starting_alignment =
    if is_c_like metadata || is_some metadata.discriminant
    then prefix_ty
    else or_else (for_alignment dl starting_alignment) prefix_ty

-- The tag's integer and the variants, which are expanded where the tag is.
unfoldable pub expand_tag :
    TargetDataLayout
    → AdtRepresentation
    → Integer
    → Alignment
    → List Layout
    → Laid (Integer × List Layout)
unfolding wider_prefix expand_variants
expand_tag dl metadata prefix_ty starting_alignment variants =
    let new_prefix_ty = wider_prefix dl metadata prefix_ty starting_alignment in
    let expanded = expand_variants (int_size prefix_ty) (int_size new_prefix_ty) variants >>= λ vs.
    done (new_prefix_ty, vs) in
    if ltb (int_rank prefix_ty) (int_rank new_prefix_ty)
    then expanded
    else done (prefix_ty, variants)

-- What is known of an enum before its representation is chosen.
pub record Draft : Type 0 where
  pub tag_ty : Integer
  pub alignment : Alignments
  pub size : Size
  pub variants : List Layout

abbrev start_gathering : TargetDataLayout → Gathered
start_gathering dl = record {
  starting_alignment = record { value = 8 };
  size = no_size;
  alignment = dl.aggregate_align;
  variants = [];
}

-- What follows the loop over the variants, up to the tag.
unfoldable pub finish_enum : TargetDataLayout → AdtRepresentation → Integer → Gathered → Laid Draft
unfolding expand_tag
finish_enum dl metadata prefix_ty gathered = do
  size ← or_panic (align_to gathered.size gathered.alignment.abi)
  bound ← or_panic (obj_size_bound dl)
  let rest =
      expand_tag dl metadata prefix_ty gathered.starting_alignment gathered.variants >>= λ expanded.
      done (record {
        tag_ty = expanded.0;
        alignment = gathered.alignment;
        size = size;
        variants = expanded.1;
      })
  if leb bound size.value then too_large else rest

unfoldable pub draft_enum :
    TargetDataLayout → AdtRepresentation → Integer → List (List Layout) → Laid Draft
unfolding prefix_alignment_of gather_variants finish_enum
draft_enum dl metadata prefix_ty table = do
  let prefix_alignment = prefix_alignment_of dl prefix_ty metadata table
  gathered ←
      gather_variants dl (int_size prefix_ty, prefix_alignment) metadata 0 table
        (start_gathering dl)
  finish_enum dl metadata prefix_ty gathered

abbrev tag_scalar : Integer → Bool → ℕ × ℕ → Laid Scalar
tag_scalar tag_ty signed (lo, hi) = do
  tag_mask ← or_panic (unsigned_int_max (int_size tag_ty))
  done (
      initialised (int_kind tag_ty signed)
        (record { start = bit_and lo tag_mask; end = bit_and hi tag_mask }))

-- The store of the layouts gets those of the variants.
unfoldable pub compute_layout_of_enum :
    TargetDataLayout → List Layout → List (List Layout) → Adt → Laid (Layout × List Layout)
unfolding compute_discriminant_range discriminant_representation draft_enum compute_enum_abi
compute_layout_of_enum dl store field_layout_table adt = do
  range ← compute_discriminant_range dl adt field_layout_table
  representation ← discriminant_representation adt dl range.0 range.1
  draft ← draft_enum dl adt.metadata representation.0 field_layout_table
  tag ← tag_scalar draft.tag_ty representation.1 range
  abi ← compute_enum_abi dl tag draft.size draft.alignment field_layout_table draft.variants
  done (
    record {
      shape = aggregate (record { offset = no_size; size = draft.size } ∷ []) (0 ∷ []);
      variants = multiple tag 0 (range_from (length store) (length draft.variants));
      abi = abi;
      alignment = draft.alignment;
      size = draft.size;
    },
    store ++ draft.variants,
  )
