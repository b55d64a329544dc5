-- ===== src/Repr/Adt/Tests.antt =====
-- compiler/hash-repr/src/compute.rs: an array of no elements is uninhabited, and so an enum with one in each
-- variant is `never`.
use hashc.Prelude.{◌≡◌, refl, true, false, [], ◌∷◌}
use hashc.Target.Size.{bits, checked_mul}
use hashc.Target.DataLayout.{obj_size_bound}
use hashc.Target.Abi.{uninhabited, is_uninhabited}
use hashc.Repr.Layout.{done, Layout, array_shape, primitive, single, no_size}
use hashc.Repr.Compound.{compute_layout_of_array}
use hashc.Repr.Discriminant.{Adt}
use hashc.Repr.Primitive.{compute_primitive_ty_layout}
use hashc.Repr.Adt.{ok, layout_of_adt}
use hashc.Repr.Univariant.Tests.{target, byte, align_of, optimised}

abbrev empty_array : Layout
empty_array = record {
  shape = array_shape (record { value = 1 }) 0;
  variants = single 0;
  abi = uninhabited;
  alignment = align_of 0;
  size = no_size;
}

array_run : compute_layout_of_array target byte 0 ≡ done empty_array
unfolding compute_layout_of_array checked_mul obj_size_bound bits
array_run = refl

abbrev arrays : Adt
arrays = record {
  discriminants = 0 ∷ 1 ∷ [];
  is_struct = false;
  is_tuple = false;
  is_union = false;
  is_enum = true;
  metadata = optimised;
}

-- Both variants have values, an empty array each.
never_run :
    layout_of_adt target [] ((empty_array ∷ []) ∷ (empty_array ∷ []) ∷ []) arrays
    ≡ ok
        (record {
          shape = primitive;
          variants = single 0;
          abi = uninhabited;
          alignment = align_of 0;
          size = no_size;
        })
        []
unfolding layout_of_adt compute_primitive_ty_layout is_uninhabited
never_run = refl
