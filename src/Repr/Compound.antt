-- ===== src/Repr/Compound.antt =====
-- compiler/hash-repr/src/compute.rs: the layouts of slices, arrays and unions, from those of their parts.
pub mod Tests
use hashc.Prelude.{
  ℕ, ◌*◌, ◌^◌, Bool, not, ◌&&◌, max, List, [], ◌∷◌, ltb, ◌==◌, if◌then◌else◌, length,
}
use hashc.Target.Size.{Size, checked_mul}
use hashc.Target.Alignment.{Alignments, max_alignments}
use hashc.Target.DataLayout.{TargetDataLayout, obj_size_bound}
use hashc.Target.Abi.{
  AbiRepresentation, uninhabited, scalar_abi, pair_abi, vector_abi, aggregate_abi, to_union,
}
use hashc.Target.Equal.{abi_eq}
use hashc.Repr.Layout.{
  Laid, done, too_large, ◌>>=◌, or_panic, or_too_large, no_size, Layout, union_shape, array_shape,
  single, is_zst,
}
use hashc.Repr.Placement.{AdtRepresentation, inhibits_union_abi_optimisations}

unfoldable pub layout_of_slice : Layout → Layout
layout_of_slice element = record {
  shape = array_shape element.size 0;
  variants = single 0;
  abi = aggregate_abi;
  alignment = element.alignment;
  size = no_size;
}

unfoldable pub product_of_sizes : TargetDataLayout → Size → ℕ → Laid Size
product_of_sizes dl self count =
    let below =
      or_panic (obj_size_bound dl) >>= λ bound. or_too_large (checked_mul bound self count) in
    if ltb (self.value * count) (2 ^ 64) then below else too_large

unfoldable pub compute_layout_of_array : TargetDataLayout → Layout → ℕ → Laid Layout
unfolding product_of_sizes
compute_layout_of_array dl element element_count = do
  size ← product_of_sizes dl element.size element_count
  done (record {
    shape = array_shape element.size element_count;
    variants = single 0;
    abi = if element_count == 0 then uninhabited else aggregate_abi;
    alignment = element.alignment;
    size = size;
  })

-- The valid ranges are dropped.
unfoldable pub union_abi : AbiRepresentation → AbiRepresentation
union_abi (scalar_abi s) = scalar_abi (to_union s)
union_abi (pair_abi a b) = pair_abi (to_union a) (to_union b)
union_abi (vector_abi elements kind) = vector_abi elements (to_union kind)
union_abi uninhabited = aggregate_abi
union_abi aggregate_abi = aggregate_abi

-- What the loop over the fields of a union has come to.
pub record Joined : Type 0 where
  pub alignment : Alignments
  pub abi : AbiRepresentation
  pub size : Size

unfoldable pub join_abi : Joined → Layout → AbiRepresentation
unfolding union_abi abi_eq
join_abi self field =
    let field_abi = union_abi field.abi in
    if self.size.value == 0
    then field_abi
    else if abi_eq self.abi field_abi
    then self.abi
    else aggregate_abi

unfoldable pub join_field : Bool → Joined → Layout → Joined
unfolding join_abi
join_field optimise self field = record {
  alignment = max_alignments self.alignment field.alignment;
  abi = if optimise && not (is_zst field) then join_abi self field else self.abi;
  size = record { value = max self.size.value field.size.value };
}

unfoldable pub join_fields : Bool → Joined → List Layout → Joined
unfolding join_field
join_fields optimise self [] = self
join_fields optimise self (field ∷ fields) =
    join_fields optimise (join_field optimise self field) fields

-- `too_large` is the `None` of a union without fields.
unfoldable pub compute_layout_of_union :
    TargetDataLayout → List Layout → AdtRepresentation → Laid Layout
unfolding join_fields
compute_layout_of_union dl fields representation =
    let optimise = not (inhibits_union_abi_optimisations representation) in
    let joined =
      join_fields optimise
        (record { alignment = dl.aggregate_align; abi = aggregate_abi; size = no_size }) fields in
    let layout : Layout = record {
      shape = union_shape (length fields);
      variants = single 0;
      abi = joined.abi;
      alignment = joined.alignment;
      size = joined.size;
    } in
    if length fields == 0 then too_large else done layout
