-- ===== src/Repr/Adt.antt =====
-- compiler/hash-repr/src/compute.rs: the layout of a struct, tuple, union or enum, from the layouts of its
-- fields.
pub mod Tests
use hashc.Prelude.{
  ℕ, zero, suc, Bool, true, false, not, ◌&&◌, ◌||◌, Option, none, some, List, [], ◌∷◌, ◌++◌,
  if◌then◌else◌, get_elem?,
}
use hashc.Target.DataLayout.{TargetDataLayout}
use hashc.Target.Abi.{is_uninhabited}
use hashc.Repr.Layout.{Laid, done, too_large, panicked, ◌>>=◌, or_panic, VariantIdx, Layout, is_zst}
use hashc.Repr.Univariant.{compute_layout_of_univariant}
use hashc.Repr.Compound.{compute_layout_of_union}
use hashc.Repr.Primitive.{compute_primitive_ty_layout, never_ty}
use hashc.Repr.Discriminant.{Adt, any_uninhabited}
use hashc.Repr.Enum.{compute_layout_of_enum}

pub data LayoutError : Type 0 where
  overflow unknown : LayoutError

pub data LayoutResult : Type 0 where
  ok : Layout → List Layout → LayoutResult
  err : LayoutError → LayoutResult
  crashed : LayoutResult

all_zst : List Layout → Bool
all_zst [] = true
all_zst (field ∷ fields) = is_zst field && all_zst fields

-- A variant that no value has and that takes no place.
unfoldable pub absent : List Layout → Bool
unfolding any_uninhabited all_zst is_zst
absent layouts = any_uninhabited layouts && all_zst layouts

unfoldable pub present_variants : VariantIdx → List (List Layout) → List VariantIdx
unfolding absent
present_variants index [] = []
present_variants index (layouts ∷ table) =
    let rest = present_variants (suc index) table in if absent layouts then rest else index ∷ rest

abbrev first_of : List VariantIdx → Option VariantIdx
first_of [] = none
first_of (index ∷ indices) = some index

abbrev is_single : List VariantIdx → Bool
is_single (a ∷ b ∷ indices) = false
is_single _ = true

-- The layout is added to the store.
abbrev create : List Layout → LayoutError → Laid Layout → LayoutResult
create store error (done layout) = ok layout (store ++ layout ∷ [])
create store error too_large = err error
create store error panicked = crashed

abbrev create_enum : Laid (Layout × List Layout) → LayoutResult
create_enum (done (layout, store)) = ok layout (store ++ layout ∷ [])
create_enum too_large = err overflow
create_enum panicked = crashed

-- The common layout of `never`, which the store has already.
abbrev common_never : TargetDataLayout → List Layout → LayoutResult
common_never dl store = elim (compute_primitive_ty_layout never_ty dl) [
  | done layout ↦ ok layout store
  | too_large ↦ err overflow
  | panicked ↦ crashed
]

abbrev first_row : List (List Layout) → Laid (List Layout)
first_row table = or_panic (get_elem? table 0)

layout_of_present :
    TargetDataLayout → List Layout → List (List Layout) → Adt → VariantIdx → Bool → LayoutResult
layout_of_present dl store table adt first_present single =
    let univariant = do
      fields ← or_panic (get_elem? table first_present)
      compute_layout_of_univariant dl first_present none fields adt.metadata
    in let union_layout =
        first_row table >>= λ fields. compute_layout_of_union dl fields adt.metadata in
      if adt.is_struct || (adt.is_tuple || (adt.is_enum && single))
      then create store overflow univariant
      else if adt.is_union
      then create store unknown union_layout
      else create_enum (compute_layout_of_enum dl store table adt)

abbrev layout_from :
    TargetDataLayout
    → List Layout
    → List (List Layout)
    → Adt
    → Option VariantIdx
    → Bool
    → LayoutResult
layout_from dl store table adt (some first_present) single =
    layout_of_present dl store table adt first_present single
layout_from dl store table adt none single =
    if adt.is_enum then common_never dl store else layout_of_present dl store table adt 0 single

unfoldable pub layout_of_adt :
    TargetDataLayout → List Layout → List (List Layout) → Adt → LayoutResult
unfolding present_variants layout_of_present
layout_of_adt dl store table adt =
    let present = present_variants 0 table in
    layout_from dl store table adt (first_of present) (is_single present)
