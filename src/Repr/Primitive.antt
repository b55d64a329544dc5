-- ===== src/Repr/Primitive.antt =====
-- compiler/hash-repr/src/compute.rs: the layouts of primitive types and of pointers.
use hashc.Prelude.{Bool, true, false, Option, none, some, if◌then◌else◌}
use hashc.Target.DataLayout.{TargetDataLayout, data_space, int8, int32, ptr_sized_integer}
use hashc.Target.Primitives.{SIntTy, UIntTy, FloatTy}
use hashc.Target.Abi.{
  Scalar, ScalarKind, int_kind, float_kind, pointer, initialised, union_scalar, uninhabited,
  aggregate_abi, kind_size, full, from_signed_int_ty, from_unsigned_int_ty,
}
use hashc.Repr.Layout.{
  Laid, done, panicked, ◌>>=◌, or_panic, no_size, Layout, primitive, array_shape, single, scalar,
  scalar_pair,
}

-- The primitive types of `ReprTy`.
pub data PrimitiveTy : Type 0 where
  signed_ty : SIntTy → PrimitiveTy
  unsigned_ty : UIntTy → PrimitiveTy
  float_ty : FloatTy → PrimitiveTy
  str_ty bool_ty char_ty never_ty : PrimitiveTy

pub data RefKind : Type 0 where
  normal raw rc : RefKind

unfoldable pub scalar_unit : TargetDataLayout → ScalarKind → Laid Scalar
scalar_unit dl value = do
  range ← or_panic (full (kind_size value dl))
  done (initialised value range)

scalar_layout : TargetDataLayout → ScalarKind → Laid Layout
unfolding scalar_unit
scalar_layout dl value = do unit ← scalar_unit dl value; done (scalar dl unit)

unfoldable pub compute_primitive_ty_layout : PrimitiveTy → TargetDataLayout → Laid Layout
unfolding scalar_layout
compute_primitive_ty_layout (signed_ty int_ty) dl = do
  kind ← or_panic (from_signed_int_ty int_ty dl)
  scalar_layout dl (int_kind kind true)
compute_primitive_ty_layout (unsigned_ty uint_ty) dl = do
  kind ← or_panic (from_unsigned_int_ty uint_ty dl)
  scalar_layout dl (int_kind kind false)
compute_primitive_ty_layout (float_ty ty) dl = scalar_layout dl (float_kind ty)
compute_primitive_ty_layout str_ty dl = done (record {
  shape = array_shape (record { value = 1 }) 0;
  variants = single 0;
  abi = aggregate_abi;
  alignment = dl.i8_align;
  size = no_size;
})
compute_primitive_ty_layout bool_ty dl =
    done (scalar dl (initialised (int_kind int8 false) (record { start = 0; end = 1 })))
compute_primitive_ty_layout char_ty dl =
    done (scalar dl (initialised (int_kind int32 false) (record { start = 0; end = 1114111 })))
compute_primitive_ty_layout never_ty dl = done (record {
  shape = primitive;
  variants = single 0;
  abi = uninhabited;
  alignment = dl.i8_align;
  size = no_size;
})

-- The write through `valid_range_mut`.
abbrev start_at_one : Scalar → Laid Scalar
start_at_one (initialised kind range) = done (initialised kind (record range { start = 1 }))
start_at_one (union_scalar kind) = panicked

abbrev is_raw : RefKind → Bool
is_raw raw = true
is_raw _ = false

abbrev is_rc : RefKind → Bool
is_rc rc = true
is_rc _ = false

-- The reference of a type, which has metadata where the type is a string or a slice; `none` is the
-- unknown layout of a counted reference.
unfoldable pub layout_of_reference : TargetDataLayout → RefKind → Bool → Laid (Option Layout)
unfolding scalar_unit
layout_of_reference dl kind has_metadata =
    let data_ptr = do
      unit ← scalar_unit dl (pointer data_space)
      if is_raw kind then start_at_one unit else done unit
    in let thin = data_ptr >>= λ ptr. done (some (scalar dl ptr)) in
      let fat = do
        ptr ← data_ptr
        size ← or_panic (ptr_sized_integer dl)
        meta ← scalar_unit dl (int_kind size false)
        pair ← scalar_pair dl ptr meta
        done (some pair)
      in if is_rc kind then done none else if has_metadata then fat else thin

-- A function pointer.
unfoldable pub layout_of_fn : TargetDataLayout → Laid Layout
unfolding scalar_unit
layout_of_fn dl = do
  unit ← scalar_unit dl (pointer dl.instruction_address_space)
  data_ptr ← start_at_one unit
  done (scalar dl data_ptr)
