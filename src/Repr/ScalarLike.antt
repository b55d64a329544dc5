-- ===== src/Repr/ScalarLike.antt =====
-- compiler/hash-repr/src/compute.rs: the aggregates that are passed as a scalar or a pair of scalars.
pub mod Done
use hashc.Prelude.{
  ℕ, zero, suc, Bool, true, false, not, ◌&&◌, List, [], ◌∷◌, ltb, ◌==◌, if◌then◌else◌, get_elem?,
  get_or,
}
use hashc.Target.Size.{Size}
use hashc.Target.Alignment.{Alignments}
use hashc.Target.DataLayout.{TargetDataLayout}
use hashc.Target.Abi.{
  Scalar, AbiRepresentation, uninhabited, scalar_abi, pair_abi, vector_abi, aggregate_abi,
  is_uninhabited,
}
use hashc.Repr.Layout.{
  Laid, done, panicked, ◌>>=◌, or_panic, FieldLayout, zst, Layout, LayoutShape, primitive,
  union_shape, array_shape, aggregate, scalar_pair, is_zst,
}

-- The fields that have a size, with their indices, which count from `i` on.
unfoldable pub non_zst_fields : ℕ → List Layout → List (ℕ × Layout)
unfolding is_zst
non_zst_fields i [] = []
non_zst_fields i (f ∷ fs) =
    let rest = non_zst_fields (suc i) fs in if is_zst f then rest else (i, f) ∷ rest

abbrev inherited_abi : Bool → AbiRepresentation → AbiRepresentation → AbiRepresentation
inherited_abi optimise (scalar_abi s) abi = if optimise then scalar_abi s else abi
inherited_abi optimise (vector_abi elements kind) abi =
    if optimise then vector_abi elements kind else abi
inherited_abi optimise (pair_abi a b) abi = pair_abi a b
inherited_abi optimise aggregate_abi abi = abi
inherited_abi optimise uninhabited abi = abi

abbrev pub alignments_eq : Alignments → Alignments → Bool
alignments_eq a b = a.abi.value == b.abi.value && a.preferred.value == b.preferred.value

abbrev pub pair_fields : LayoutShape → Laid (List FieldLayout)
pair_fields primitive = panicked
pair_fields (union_shape n) = panicked
pair_fields (array_shape stride elements) = panicked
pair_fields (aggregate fields memory_map) = done fields

module _ (dl : TargetDataLayout) (offsets : List FieldLayout) (alignment : Alignments) (size : Size)
    (abi : AbiRepresentation) where
  abbrev offset_of : ℕ → ℕ
  offset_of i = (get_or offsets i zst).offset.value

  -- The first scalar is the one in front.
  matching_pair : ℕ → Scalar → ℕ → Scalar → Laid AbiRepresentation
  matching_pair i a j b = do
    pair ← scalar_pair dl a b
    fields ← pair_fields pair.shape
    first ← or_panic (get_elem? fields 0)
    second ← or_panic (get_elem? fields 1)
    done (
        if offset_of i == first.offset.value
          && (offset_of j == second.offset.value
              && (pair.size.value == size.value && alignments_eq pair.alignment alignment))
        then pair.abi
        else abi)

  pair_of_scalars : ℕ → AbiRepresentation → ℕ → AbiRepresentation → Laid AbiRepresentation
  unfolding matching_pair
  pair_of_scalars i (scalar_abi a) j (scalar_abi b) =
      if ltb (offset_of i) (offset_of j) then matching_pair i a j b else matching_pair j b i a
  pair_of_scalars i _ j _ = done abi

  scalar_like : Bool → List (ℕ × Layout) → Laid AbiRepresentation
  unfolding pair_of_scalars
  scalar_like optimise ((i, field) ∷ []) = done (
      if offset_of i == 0
        && (alignment.abi.value == field.alignment.abi.value && size.value == field.size.value)
      then inherited_abi optimise field.abi abi
      else abi)
  scalar_like optimise ((i, a) ∷ (j, b) ∷ []) = pair_of_scalars i a.abi j b.abi
  scalar_like optimise _ = done abi

  unfoldable pub optimised_abi : Bool → List Layout → Laid AbiRepresentation
  unfolding scalar_like non_zst_fields
  optimised_abi optimise fields =
      let choice = scalar_like optimise (non_zst_fields 0 fields) in
      if ltb 0 size.value && not (is_uninhabited abi) then choice else done abi
