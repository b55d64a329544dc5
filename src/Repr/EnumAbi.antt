-- ===== src/Repr/EnumAbi.antt =====
-- compiler/hash-repr/src/compute.rs: the enums that are passed as a scalar or as a tag beside a scalar.
pub mod Done
use hashc.Prelude.{
  ℕ, Bool, true, false, not, ◌&&◌, Option, none, some, List, [], ◌∷◌, ◌==◌, if◌then◌else◌,
  get_elem?,
}
use hashc.Target.Size.{Size}
use hashc.Target.Alignment.{Alignments}
use hashc.Target.DataLayout.{TargetDataLayout}
use hashc.Target.Abi.{
  ScalarKind, Scalar, AbiRepresentation, uninhabited, scalar_abi, pair_abi, vector_abi,
  aggregate_abi, initialised, union_scalar, is_uninhabited, scalar_size, scalar_kind, kind_size,
  full,
}
use hashc.Target.Equal.{kind_eq}
use hashc.Repr.Layout.{Laid, done, ◌>>=◌, or_panic, FieldLayout, Layout, scalar_pair, is_zst}
use hashc.Repr.ScalarLike.{pair_fields, alignments_eq}

abbrev all_uninhabited : List Layout → Bool
all_uninhabited [] = true
all_uninhabited (variant ∷ variants) = is_uninhabited variant.abi && all_uninhabited variants

-- The fields that have a size, with their places.
unfoldable pub sized_fields : List Layout → List FieldLayout → List (Layout × FieldLayout)
sized_fields (field ∷ fields) (offset ∷ offsets) =
    let rest = sized_fields fields offsets in if is_zst field then rest else (field, offset) ∷ rest
sized_fields _ _ = []

abbrev Common : Type 0
Common = Option (ScalarKind × FieldLayout) × Bool

abbrev places_eq : FieldLayout → FieldLayout → Bool
places_eq a b = a.offset.value == b.offset.value && a.size.value == b.size.value

abbrev is_initialised : Scalar → Bool
is_initialised (initialised kind range) = true
is_initialised (union_scalar kind) = false

-- One round: whether the loop goes on, and with what.
abbrev same_prim :
    Option (ScalarKind × FieldLayout) → ScalarKind → FieldLayout → Bool → Bool × Common
same_prim none prim offset initialised_so_far = (true, (some (prim, offset), initialised_so_far))
same_prim (some (kind, place)) prim offset initialised_so_far =
    if kind_eq kind prim && places_eq place offset
    then (true, (some (kind, place), initialised_so_far))
    else (false, (none, initialised_so_far))

abbrev with_field : Common → AbiRepresentation → FieldLayout → Bool × Common
with_field common (scalar_abi s) offset =
    same_prim common.0 (scalar_kind s) offset (common.1 && is_initialised s)
with_field common _ offset = (false, (none, common.1))

abbrev with_fields : Common → List (Layout × FieldLayout) → Bool × Common
with_fields common [] = (true, (common.0, false))
with_fields common ((field, offset) ∷ []) = with_field common field.abi offset
with_fields common (a ∷ b ∷ fields) = (false, (none, common.1))

unfoldable pub common_prim : List (List Layout) → List Layout → Common → Laid Common
unfolding sized_fields
common_prim (fields ∷ table) (variant ∷ variants) common = do
  offsets ← pair_fields variant.shape
  let next = with_fields common (sized_fields fields offsets)
  let rest = common_prim table variants next.1
  if next.0 then rest else done next.1
common_prim _ _ common = done common

abbrev primitive_scalar : TargetDataLayout → ScalarKind → Bool → Laid Scalar
primitive_scalar dl prim true = do
  range ← or_panic (full (kind_size prim dl))
  done (initialised prim range)
primitive_scalar dl prim false = done (union_scalar prim)

abbrev zero_and : FieldLayout → FieldLayout → FieldLayout → Bool
zero_and first second offset = first.offset.value == 0 && places_eq second offset

abbrev paired : TargetDataLayout → Scalar → Size → Alignments → Common → Laid AbiRepresentation
paired dl tag enum_size enum_alignment (none, all_initialised) = done aggregate_abi
paired dl tag enum_size enum_alignment (some (prim, offset), all_initialised) = do
  other ← primitive_scalar dl prim all_initialised
  pair ← scalar_pair dl tag other
  fields ← pair_fields pair.shape
  first ← or_panic (get_elem? fields 0)
  second ← or_panic (get_elem? fields 1)
  done (
      if zero_and first second offset
        && (alignments_eq enum_alignment pair.alignment && enum_size.value == pair.size.value)
      then pair.abi
      else aggregate_abi)

unfoldable pub compute_enum_abi :
    TargetDataLayout
    → Scalar
    → Size
    → Alignments
    → List (List Layout)
    → List Layout
    → Laid AbiRepresentation
unfolding common_prim
compute_enum_abi dl tag enum_size enum_alignment field_layouts variant_layouts =
    let pair =
      common_prim field_layouts variant_layouts (none, true)
      >>= paired dl tag enum_size enum_alignment in
    if all_uninhabited variant_layouts
    then done uninhabited
    else if (scalar_size tag dl).value == enum_size.value
    then done (scalar_abi tag)
    else pair
