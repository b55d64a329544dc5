-- ===== src/Repr/ScalarLike/Done.antt =====
-- compiler/hash-repr/src/compute.rs: choosing the representation of an aggregate does not panic on a target
-- whose data layout is sound.
use hashc.Prelude.{
  ℕ, ◌+◌, ◌^◌, ◌≤◌, ◌<◌, ◌≡◌, refl, Bool, true, false, not, ◌&&◌, some, List, [], ◌∷◌, ltb, lt→ltb,
  if◌then◌else◌, arith,
}
use hashc.Target.Size.{Size, bits, add}
use hashc.Target.Alignment.{Alignments, max_alignments}
use hashc.Target.Align.Fits.{align_to-IsAligned, bytes_bounds}
use hashc.Target.DataLayout.{TargetDataLayout, obj_size_bound}
use hashc.Target.Primitives.{f32, f64}
use hashc.Target.Abi.{
  ScalarKind, Scalar, AbiRepresentation, uninhabited, scalar_abi, pair_abi, vector_abi,
  aggregate_abi, is_uninhabited, kind_align, kind_size, int_size, float_size, scalar_align,
  scalar_size, scalar_kind, int_kind, float_kind, pointer,
}
use hashc.Target.DataLayout.{int8, int16, int32, int64, int128}
use hashc.Repr.Layout.{Laid, done, ◌>>=◌, FieldLayout, Layout, aggregate, scalar_pair}
use hashc.Repr.ScalarLike.{
  optimised_abi, scalar_like, pair_of_scalars, matching_pair, non_zst_fields,
}
use hashc.Repr.Placement.Loop.{max_alignments-abi}

-- A target whose pointers have 16, 32 or 64 bits, and whose alignments are at most the largest one.
pub record IsDataLayout (dl : TargetDataLayout) : Type 0 where
  pub bound : ℕ
  pub is_bound : obj_size_bound dl ≡ some bound
  pub aggregates : dl.aggregate_align.abi.value ≤ 32
  pub scalars : (kind : ScalarKind) → (kind_align kind dl).abi.value ≤ 32

pub obj_size_bound-le :
    (dl : TargetDataLayout) (bound : ℕ) → obj_size_bound dl ≡ some bound → bound ≤ 2 ^ 47
unfolding obj_size_bound bits
obj_size_bound-le dl bound e = ground arith

pointer_size-le :
    (dl : TargetDataLayout) (bound : ℕ) → obj_size_bound dl ≡ some bound → dl.pointer_size.value ≤ 8
unfolding obj_size_bound bits
pointer_size-le dl bound e = ground arith

pub kind_size-le :
    (dl : TargetDataLayout) (bound : ℕ) (kind : ScalarKind)
    → obj_size_bound dl ≡ some bound
    → (kind_size kind dl).value ≤ 16
unfolding kind_size int_size float_size
kind_size-le dl bound (int_kind int8 signed) e = omega arith
kind_size-le dl bound (int_kind int16 signed) e = omega arith
kind_size-le dl bound (int_kind int32 signed) e = omega arith
kind_size-le dl bound (int_kind int64 signed) e = omega arith
kind_size-le dl bound (int_kind int128 signed) e = omega arith
kind_size-le dl bound (float_kind f32) e = omega arith
kind_size-le dl bound (float_kind f64) e = omega arith
kind_size-le dl bound (pointer space) e = omega (arith, pointer_size-le dl bound e)

abbrev pub IsDone {ℓ} : {A : Type ℓ} → Laid A → Type ℓ
IsDone {A = A} m = (a : A) × (m ≡ done a)

pub if_IsDone {ℓ} :
    {A : Type ℓ} (b : Bool) (m m' : Laid A) → IsDone m → IsDone m' → IsDone (if b then m else m')
if_IsDone true m m' h h' = h
if_IsDone false m m' h h' = h'

-- The shape of a pair of scalars.
pub data IsPair : Laid Layout → Type 0 where
  is_pair :
      (layout : Layout) (first second : FieldLayout) (memory_map : List ℕ)
      → layout.shape ≡ aggregate (first ∷ second ∷ []) memory_map
      → IsPair (done layout)

pub IsPair-bind :
    {A : Type 0} (pair : Laid Layout) (f : Layout → Laid A)
    → IsPair pair
    → ((layout : Layout) (first second : FieldLayout) (memory_map : List ℕ)
        → layout.shape ≡ aggregate (first ∷ second ∷ []) memory_map
        → IsDone (f layout))
    → IsDone (pair >>= f)
IsPair-bind _ f (is_pair layout first second memory_map shape) k =
    k layout first second memory_map shape

add-some :
    (a b : Size)
    → a.value + b.value < 2 ^ 64
    → add a b ≡ some (record { value = a.value + b.value })
unfolding add
add-some a b h = rw (lt→ltb (a.value + b.value) (2 ^ 64) h)

module _ (dl : TargetDataLayout) (v : IsDataLayout dl) where
  scalar_align-le : (s : Scalar) → (scalar_align s dl).abi.value ≤ 32
  unfolding scalar_align
  scalar_align-le s = v.scalars (scalar_kind s)

  scalar_size-le : (s : Scalar) → (scalar_size s dl).value ≤ 16
  unfolding scalar_size
  scalar_size-le s = kind_size-le dl v.bound (scalar_kind s) v.is_bound

  pub scalar_pair-IsPair : (a b : Scalar) → IsPair (scalar_pair dl a b)
  unfolding scalar_pair
  scalar_pair-IsPair a b =
      let inner = max_alignments (scalar_align a dl) (scalar_align b dl) in
      let alignment = max_alignments inner dl.aggregate_align in
      let le : alignment.abi.value ≤ 32 = omega (
        arith,
        scalar_align-le a,
        scalar_align-le b,
        v.aggregates,
        max_alignments-abi (scalar_align a dl) (scalar_align b dl),
        max_alignments-abi inner dl.aggregate_align,
      ) in
      let small = bytes_bounds alignment.abi le in
      let (offset_2, e, aligned) =
        align_to-IsAligned (scalar_size a dl) alignment.abi le (omega (arith, scalar_size-le a)) in
      let sum = offset_2.value + (scalar_size b dl).value in
      let sum_le : sum ≤ 2 ^ 33 =
        omega (arith, scalar_size-le a, scalar_size-le b, aligned.close, small.1) in
      let added = add-some offset_2 (scalar_size b dl) (omega (arith, sum_le)) in
      let (size, f, end) =
        align_to-IsAligned (record { value = sum }) alignment.abi le (omega (arith, sum_le)) in
      rw (e, added, f) (is_pair _ _ _ _ refl)

  module _ (offsets : List FieldLayout) (alignment : Alignments) (size : Size)
      (abi : AbiRepresentation) where
    matching_pair-IsDone :
        (i : ℕ) (a : Scalar) (j : ℕ) (b : Scalar)
        → IsDone (matching_pair dl offsets alignment size abi i a j b)
    unfolding matching_pair
    matching_pair-IsDone i a j b =
        IsPair-bind (scalar_pair dl a b) _ (scalar_pair-IsPair a b)
          (λ layout first second memory_map shape. rw shape (_, refl))

    pair_of_scalars-IsDone :
        (i : ℕ) (a : AbiRepresentation) (j : ℕ) (b : AbiRepresentation)
        → IsDone (pair_of_scalars dl offsets alignment size abi i a j b)
    unfolding pair_of_scalars
    pair_of_scalars-IsDone i (scalar_abi a) j (scalar_abi b) =
        if_IsDone _ _ _ (matching_pair-IsDone i a j b) (matching_pair-IsDone j b i a)
    pair_of_scalars-IsDone i (scalar_abi a) j (pair_abi b c) = (_, refl)
    pair_of_scalars-IsDone i (scalar_abi a) j (vector_abi b c) = (_, refl)
    pair_of_scalars-IsDone i (scalar_abi a) j aggregate_abi = (_, refl)
    pair_of_scalars-IsDone i (scalar_abi a) j uninhabited = (_, refl)
    pair_of_scalars-IsDone i (pair_abi b c) j _ = (_, refl)
    pair_of_scalars-IsDone i (vector_abi b c) j _ = (_, refl)
    pair_of_scalars-IsDone i aggregate_abi j _ = (_, refl)
    pair_of_scalars-IsDone i uninhabited j _ = (_, refl)

    scalar_like-IsDone :
        (optimise : Bool) (fields : List (ℕ × Layout))
        → IsDone (scalar_like dl offsets alignment size abi optimise fields)
    unfolding scalar_like
    scalar_like-IsDone optimise [] = (_, refl)
    scalar_like-IsDone optimise (f ∷ []) = (_, refl)
    scalar_like-IsDone optimise ((i, a) ∷ (j, b) ∷ []) = pair_of_scalars-IsDone i a.abi j b.abi
    scalar_like-IsDone optimise (f ∷ g ∷ h ∷ fields) = (_, refl)

    pub optimised_abi-IsDone :
        (optimise : Bool) (fields : List Layout)
        → IsDone (optimised_abi dl offsets alignment size abi optimise fields)
    unfolding optimised_abi
    optimised_abi-IsDone optimise fields =
        if_IsDone (ltb 0 size.value && not (is_uninhabited abi)) _ _
          (scalar_like-IsDone optimise (non_zst_fields 0 fields)) (_, refl)
