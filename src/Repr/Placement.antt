-- ===== src/Repr/Placement.antt =====
-- compiler/hash-repr/src/compute.rs: the order of the fields of a variant, and their places. Fields are named by their
-- indices in source order, which are `u32`s; a vector of the length of the fields is indexed with them.
pub mod Order
pub mod Outcome
pub mod Loop
pub mod Room
use hashc.Prelude.{
  ℕ, zero, suc, ◌%◌, ◌+◌, ◌^◌, Bool, true, false, not, ◌&&◌, Option, none, some, max, List, [], ◌∷◌,
  ltb, leb, ◌==◌, if◌then◌else◌, length, get_elem?, get_or, set, replicate,
}
use hashc.Target.Size.{Size, checked_add}
use hashc.Target.Alignment.{Alignment, Alignments, new, max_alignments, trailing_zeros}
use hashc.Target.Alignment as Alignment
use hashc.Target.Align.{align_to}
use hashc.Target.DataLayout.{TargetDataLayout, obj_size_bound}
use hashc.Target.Primitives.{IntTy}
use hashc.Target.Abi.{
  Scalar, AbiRepresentation, uninhabited, scalar_abi, pair_abi, vector_abi, aggregate_abi,
  is_uninhabited,
}
use hashc.Repr.Layout.{
  Laid, done, too_large, panicked, ◌>>=◌, or_panic, or_too_large, no_size, FieldLayout, zst,
  VariantIdx, Layout, LayoutShape, aggregate, single, scalar_pair, is_zst, invert_from, range_from,
}

-- The flag says that the type is laid out as in C.
pub record AdtRepresentation : Type 0 where
  pub discriminant : Option IntTy
  pub c_like : Bool

abbrev pub is_c_like : AdtRepresentation → Bool
is_c_like self = self.c_like

abbrev pub inhibits_struct_field_reordering : AdtRepresentation → Bool
inhibits_struct_field_reordering self = is_c_like self

abbrev pub inhibits_union_abi_optimisations : AdtRepresentation → Bool
inhibits_union_abi_optimisations self = is_c_like self

unfoldable pub effective_field_alignment : Layout → ℕ
effective_field_alignment layout =
    trailing_zeros (max (Alignment.bytes layout.alignment.abi) layout.size.value)

-- Whether the key of the first field is at most that of the second: in ascending order behind a tag, and
-- else the fields without a size and then in descending order.
unfoldable pub key_le : Bool → Layout → Layout → Bool
unfolding effective_field_alignment
key_le tagged a b =
    let ascending = leb (effective_field_alignment a) (effective_field_alignment b) in
    let descending = leb (effective_field_alignment b) (effective_field_alignment a) in
    if tagged
    then ascending
    else if is_zst a
    then (if is_zst b then descending else true)
    else if is_zst b
    then false
    else descending

abbrev entry_le : Bool → Option Layout → Option Layout → Bool
entry_le tagged (some a) (some b) = key_le tagged a b
entry_le tagged _ _ = false

-- A stable sort, whatever its algorithm, gives the list of the insertion sort.
unfoldable pub insert_index : Bool → List Layout → ℕ → List ℕ → List ℕ
insert_index tagged fields i [] = i ∷ []
insert_index tagged fields i (j ∷ js) =
    let rest = insert_index tagged fields i js in
    if entry_le tagged (get_elem? fields i) (get_elem? fields j) then i ∷ j ∷ js else j ∷ rest

unfoldable pub sort_by_key : Bool → List Layout → List ℕ → List ℕ
unfolding insert_index
sort_by_key tagged fields [] = []
sort_by_key tagged fields (i ∷ is) = insert_index tagged fields i (sort_by_key tagged fields is)

abbrev pub is_tagged : Option (Size × Alignment) → Bool
is_tagged none = false
is_tagged (some tag) = true

-- The order of the fields in memory.
unfoldable pub field_order : Option (Size × Alignment) → List Layout → AdtRepresentation → List ℕ
unfolding sort_by_key
field_order tag fields representation =
    let source_order = range_from 0 (length fields % 2 ^ 32) in
    if not (inhibits_struct_field_reordering representation)
    then sort_by_key (is_tagged tag) fields source_order
    else source_order

unfoldable pub invert_memory_mapping : List ℕ → List ℕ
unfolding invert_from
invert_memory_mapping mapping = invert_from 0 mapping (replicate (length mapping) 0)

-- What the loop over the fields has come to.
pub record Placed : Type 0 where
  pub offsets : List FieldLayout
  pub offset : Size
  pub alignment : Alignments
  pub abi : AbiRepresentation

-- The sum of two sizes, which is below the bound on the size of objects.
unfoldable pub sum_of_sizes : TargetDataLayout → Size → Size → Laid Size
sum_of_sizes dl a b =
    let below = or_panic (obj_size_bound dl) >>= λ bound. or_too_large (checked_add bound a b) in
    if ltb (a.value + b.value) (2 ^ 64) then below else too_large

unfoldable pub place_field : TargetDataLayout → Placed → ℕ → Layout → Laid Placed
unfolding sum_of_sizes
place_field dl self i layout = do
  start ← or_panic (align_to self.offset layout.alignment.abi)
  end ← sum_of_sizes dl start layout.size
  done (record {
    offsets = set self.offsets i (record { offset = start; size = layout.size });
    offset = end;
    alignment = max_alignments self.alignment layout.alignment;
    abi = if is_uninhabited layout.abi then uninhabited else self.abi;
  })

unfoldable pub place_fields : TargetDataLayout → List Layout → List ℕ → Placed → Laid Placed
unfolding place_field
place_fields dl fields [] self = done self
place_fields dl fields (i ∷ is) self = do
  layout ← or_panic (get_elem? fields i)
  next ← place_field dl self i layout
  place_fields dl fields is next

unfoldable pub start_of : TargetDataLayout → ℕ → Option (Size × Alignment) → Laid Placed
start_of dl n none = done (record {
  offsets = replicate n zst;
  offset = no_size;
  alignment = dl.aggregate_align;
  abi = aggregate_abi;
})
start_of dl n (some (tag_size, tag_alignment)) = do
  prefix ← or_panic (align_to tag_size tag_alignment)
  done (record {
    offsets = replicate n zst;
    offset = prefix;
    alignment = max_alignments dl.aggregate_align (new tag_alignment);
    abi = aggregate_abi;
  })
