-- ===== src/Repr/Layout.antt =====
-- compiler/hash-repr/src/lib.rs: layouts, their shapes and their variants. A layout's identifier is its
-- place in the store.
use hashc.Prelude.{
  ℕ, zero, suc, Bool, false, Option, none, some, List, [], ◌∷◌, ltb, ◌==◌, if◌then◌else◌, length,
  get_elem?, set, replicate,
}
use hashc.Target.Size.{Size, add, mul}
use hashc.Target.Alignment.{Alignments, max_alignments}
use hashc.Target.Align.{align_to}
use hashc.Target.DataLayout.{TargetDataLayout}
use hashc.Target.Abi.{
  Scalar, AbiRepresentation, uninhabited, scalar_abi, pair_abi, vector_abi, aggregate_abi,
  scalar_size, scalar_align,
}

-- What a computation of a layout comes to: a result, the `None` of a layout that is too large, or a panic.
pub data Laid {ℓ} (A : Type ℓ) : Type ℓ where
  done : A → Laid A
  too_large panicked : Laid A

infixl 5 ◌>>=◌
abbrev pub ◌>>=◌ {ℓ κ} : {A : Type ℓ} {B : Type κ} → Laid A → (A → Laid B) → Laid B
done a >>= f = f a
too_large >>= f = too_large
panicked >>= f = panicked

abbrev pub or_panic {ℓ} : {A : Type ℓ} → Option A → Laid A
or_panic none = panicked
or_panic (some a) = done a

abbrev pub or_too_large {ℓ} : {A : Type ℓ} → Option A → Laid A
or_too_large none = too_large
or_too_large (some a) = done a

abbrev pub no_size : Size
no_size = record { value = 0 }

pub record FieldLayout : Type 0 where
  pub offset : Size
  pub size : Size

abbrev pub zst : FieldLayout
zst = record { offset = no_size; size = no_size }

abbrev pub VariantIdx : Type 0
VariantIdx = ℕ

abbrev pub LayoutId : Type 0
LayoutId = ℕ

pub data LayoutShape : Type 0 where
  primitive : LayoutShape
  union_shape : ℕ → LayoutShape
  array_shape : Size → ℕ → LayoutShape
  aggregate : List FieldLayout → List ℕ → LayoutShape

pub data Variants : Type 0 where
  single : VariantIdx → Variants
  multiple : Scalar → ℕ → List LayoutId → Variants

pub record Layout : Type 0 where
  pub shape : LayoutShape
  pub variants : Variants
  pub abi : AbiRepresentation
  pub alignment : Alignments
  pub size : Size

unfoldable pub scalar : TargetDataLayout → Scalar → Layout
scalar dl s = record {
  shape = primitive;
  variants = single 0;
  abi = scalar_abi s;
  alignment = scalar_align s dl;
  size = scalar_size s dl;
}

unfoldable pub scalar_pair : TargetDataLayout → Scalar → Scalar → Laid Layout
scalar_pair dl scalar_1 scalar_2 = do
  let scalar_1_size = scalar_size scalar_1 dl
  let scalar_2_size = scalar_size scalar_2 dl
  let alignment_2 = scalar_align scalar_2 dl
  let alignment =
      max_alignments (max_alignments (scalar_align scalar_1 dl) alignment_2) dl.aggregate_align
  offset_2 ← or_panic (align_to scalar_1_size alignment.abi)
  end ← or_panic (add offset_2 scalar_2_size)
  size ← or_panic (align_to end alignment.abi)
  done (record {
    shape =
        aggregate
          (record { offset = no_size; size = scalar_1_size }
            ∷ record { offset = offset_2; size = scalar_2_size }
            ∷ [])
          (0 ∷ 1 ∷ []);
    variants = single 0;
    abi = pair_abi scalar_1 scalar_2;
    alignment = alignment;
    size = size;
  })

abbrev abi_is_zst : AbiRepresentation → ℕ → Bool
abi_is_zst (scalar_abi s) bytes = false
abi_is_zst (pair_abi s t) bytes = false
abi_is_zst (vector_abi elements kind) bytes = false
abi_is_zst aggregate_abi bytes = bytes == 0
abi_is_zst uninhabited bytes = bytes == 0

unfoldable pub is_zst : Layout → Bool
is_zst self = abi_is_zst self.abi self.size.value

unfoldable pub count : LayoutShape → ℕ
count primitive = 1
count (union_shape n) = n
count (array_shape stride elements) = elements
count (aggregate fields memory_map) = length fields

abbrev offset_in : Option FieldLayout → Option Size
offset_in none = none
offset_in (some field) = some field.offset

-- `none` is a panic, here and below.
unfoldable pub offset : LayoutShape → ℕ → Option Size
offset primitive index = none
offset (union_shape n) index = some no_size
offset (array_shape stride elements) index = if ltb index elements then mul stride index else none
offset (aggregate fields memory_map) index = offset_in (get_elem? fields index)

unfoldable pub memory_index : LayoutShape → ℕ → Option ℕ
memory_index primitive index = none
memory_index (union_shape n) index = some index
memory_index (array_shape stride elements) index = some index
memory_index (aggregate fields memory_map) index = get_elem? memory_map index

-- The loop that writes its round number where the map points.
unfoldable pub invert_from : ℕ → List ℕ → List ℕ → List ℕ
invert_from i [] inverse = inverse
invert_from i (index ∷ indices) inverse = invert_from (suc i) indices (set inverse index i)

abbrev pub range_from : ℕ → ℕ → List ℕ
range_from start zero = []
range_from start (suc n) = start ∷ range_from (suc start) n

-- The indices of a memory map are below the number of the fields.
unfoldable pub iter_increasing_offsets : LayoutShape → List ℕ
unfolding invert_from
iter_increasing_offsets primitive = range_from 0 1
iter_increasing_offsets (union_shape n) = range_from 0 n
iter_increasing_offsets (array_shape stride elements) = range_from 0 elements
iter_increasing_offsets (aggregate fields memory_map) =
    invert_from 0 memory_map (replicate (length fields) 0)
