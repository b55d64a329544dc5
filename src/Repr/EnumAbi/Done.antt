-- ===== src/Repr/EnumAbi/Done.antt =====
-- compiler/hash-repr/src/compute.rs: choosing the representation of an enum does not panic on a target whose
-- data layout is sound.
use hashc.Prelude.{
  ℕ, ◌*◌, ◌≤◌, ◌<◌, ◌≡◌, refl, Bool, true, false, none, some, List, [], ◌∷◌, ◌==◌, arith,
}
use hashc.Prelude.Bytes.{All}
use hashc.Target.Size.{Size, bits, unsigned_int_max}
use hashc.Target.Size.Bits.{bits-some, shift_of-some}
use hashc.Target.Alignment.{Alignments}
use hashc.Target.DataLayout.{TargetDataLayout, obj_size_bound, int8, int16, int32, int64, int128}
use hashc.Target.Primitives.{f32, f64}
use hashc.Target.Abi.{
  ScalarKind, Scalar, kind_size, int_size, float_size, scalar_size, full, int_kind, float_kind,
  pointer,
}
use hashc.Repr.Layout.{or_panic, FieldLayout, Layout, aggregate, scalar_pair}
use hashc.Repr.ScalarLike.Done.{
  IsDataLayout, IsDone, if_IsDone, IsPair-bind, scalar_pair-IsPair, kind_size-le,
}
use hashc.Repr.EnumAbi.{
  Common, all_uninhabited, sized_fields, with_fields, common_prim, primitive_scalar, paired,
  compute_enum_abi,
}

pub record IsAggregate (variant : Layout) : Type 0 where
  pub offsets : List FieldLayout
  pub memory_map : List ℕ
  pub shape : variant.shape ≡ aggregate offsets memory_map

common_prim-IsDone :
    (table : List (List Layout)) (variants : List Layout) (common : Common)
    → All IsAggregate variants
    → IsDone (common_prim table variants common)
unfolding common_prim
common_prim-IsDone [] variants common h = (_, refl)
common_prim-IsDone (fields ∷ table) [] common h = (_, refl)
common_prim-IsDone (fields ∷ table) (variant ∷ variants) common h =
    let next = with_fields common (sized_fields fields h.0.offsets) in
    rw h.0.shape
      (if_IsDone next.0 _ _ (common_prim-IsDone table variants next.1 h.1) (next.1, refl))

kind_size-pos :
    (dl : TargetDataLayout) (bound : ℕ) (kind : ScalarKind)
    → obj_size_bound dl ≡ some bound
    → 0 < (kind_size kind dl).value
unfolding kind_size int_size float_size obj_size_bound bits
kind_size-pos dl bound (int_kind int8 signed) e = omega arith
kind_size-pos dl bound (int_kind int16 signed) e = omega arith
kind_size-pos dl bound (int_kind int32 signed) e = omega arith
kind_size-pos dl bound (int_kind int64 signed) e = omega arith
kind_size-pos dl bound (int_kind int128 signed) e = omega arith
kind_size-pos dl bound (float_kind f32) e = omega arith
kind_size-pos dl bound (float_kind f64) e = omega arith
kind_size-pos dl bound (pointer space) e = ground arith

pub unsigned_int_max-some :
    (size : Size) → 0 < size.value → size.value ≤ 16 → (n : ℕ) × (unsigned_int_max size ≡ some n)
unfolding unsigned_int_max
unsigned_int_max-some size h k =
    rw (bits-some size k, shift_of-some (size.value * 8) (omega (arith, h)) (omega (arith, k)))
      (_, refl)

full-IsDone : (size : Size) → 0 < size.value → size.value ≤ 16 → IsDone (or_panic (full size))
unfolding full
full-IsDone size h k = let (n, e) = unsigned_int_max-some size h k in rw e (_, refl)

module _ (dl : TargetDataLayout) (v : IsDataLayout dl) where
  primitive_scalar-IsDone : (prim : ScalarKind) (b : Bool) → IsDone (primitive_scalar dl prim b)
  primitive_scalar-IsDone prim false = (_, refl)
  primitive_scalar-IsDone prim true =
      let (range, e) =
        full-IsDone (kind_size prim dl) (kind_size-pos dl v.bound prim v.is_bound)
          (kind_size-le dl v.bound prim v.is_bound) in
      rw e (_, refl)

  module _ (tag : Scalar) (enum_size : Size) (enum_alignment : Alignments) where
    paired-IsDone : (common : Common) → IsDone (paired dl tag enum_size enum_alignment common)
    paired-IsDone (none, b) = (_, refl)
    paired-IsDone (some (prim, offset), b) =
        let (other, e) = primitive_scalar-IsDone prim b in
        rw e (
          IsPair-bind (scalar_pair dl tag other) _ (scalar_pair-IsPair dl v tag other)
            (λ layout first second memory_map shape. rw shape (_, refl)))

    pub compute_enum_abi-IsDone :
        (table : List (List Layout)) (variants : List Layout)
        → All IsAggregate variants
        → IsDone (compute_enum_abi dl tag enum_size enum_alignment table variants)
    unfolding compute_enum_abi
    compute_enum_abi-IsDone table variants h =
        let (common, e) = common_prim-IsDone table variants (none, true) h in
        if_IsDone (all_uninhabited variants) _ _ (_, refl)
          (if_IsDone ((scalar_size tag dl).value == enum_size.value) _ _ (_, refl)
            (rw e (paired-IsDone common)))
