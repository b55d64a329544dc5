-- ===== src/Repr/Univariant.antt =====
-- compiler/hash-repr/src/compute.rs: the layout of a type with one variant, or of one variant of an enum.
pub mod Inverse
pub mod LaidOut
pub mod Disjoint
pub mod Offsets
pub mod Tests
use hashc.Prelude.{ℕ, not, Option, List, if◌then◌else◌, length}
use hashc.Target.Size.{Size}
use hashc.Target.Alignment.{Alignment}
use hashc.Target.Align.{align_to}
use hashc.Target.DataLayout.{TargetDataLayout}
use hashc.Repr.Layout.{Laid, done, ◌>>=◌, or_panic, VariantIdx, Layout, aggregate, single}
use hashc.Repr.Placement.{
  AdtRepresentation, inhibits_struct_field_reordering, field_order, invert_memory_mapping, Placed,
  place_fields, start_of,
}
use hashc.Repr.ScalarLike.{optimised_abi}

unfoldable pub memory_map_of : AdtRepresentation → List ℕ → List ℕ
memory_map_of representation order =
    if not (inhibits_struct_field_reordering representation)
    then invert_memory_mapping order
    else order

-- What follows the loop over the fields.
unfoldable pub finish :
    TargetDataLayout → VariantIdx → List Layout → AdtRepresentation → List ℕ → Placed → Laid Layout
unfolding memory_map_of optimised_abi
finish dl index fields representation order placed = do
  size ← or_panic (align_to placed.offset placed.alignment.abi)
  abi ←
      optimised_abi dl placed.offsets placed.alignment size placed.abi
        (not (inhibits_struct_field_reordering representation)) fields
  done (record {
    shape = aggregate placed.offsets (memory_map_of representation order);
    variants = single index;
    abi = abi;
    alignment = placed.alignment;
    size = size;
  })

unfoldable pub compute_layout_of_univariant :
    TargetDataLayout
    → VariantIdx
    → Option (Size × Alignment)
    → List Layout
    → AdtRepresentation
    → Laid Layout
unfolding field_order start_of place_fields finish
compute_layout_of_univariant dl index tag fields representation = do
  let order = field_order tag fields representation
  start ← start_of dl (length fields) tag
  placed ← place_fields dl fields order start
  finish dl index fields representation order placed
