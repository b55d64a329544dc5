-- ===== src/Repr/Compound/Tests.antt =====
-- compiler/hash-repr/src/compute.rs: the union of five bytes and a word has the size 5 and the alignment 4, so
-- the second of two such unions in an array is not aligned.
use hashc.Prelude.{◌≡◌, refl, some, [], ◌∷◌}
use hashc.Target.Size.{bits, checked_mul, mul}
use hashc.Target.Alignment.{max_alignments}
use hashc.Target.DataLayout.{obj_size_bound}
use hashc.Target.Abi.{aggregate_abi}
use hashc.Repr.Layout.{done, Layout, union_shape, array_shape, single, is_zst, offset}
use hashc.Repr.Compound.{compute_layout_of_union, compute_layout_of_array}
use hashc.Repr.Univariant.Tests.{target, byte, word, align_of, optimised}

abbrev five_bytes : Layout
five_bytes = record byte {
  shape = array_shape (record { value = 1 }) 5;
  size = record { value = 5 };
}

abbrev either : Layout
either = record {
  shape = union_shape 2;
  variants = single 0;
  abi = aggregate_abi;
  alignment = align_of 2;
  size = record { value = 5 };
}

union_run : compute_layout_of_union target (five_bytes ∷ word ∷ []) optimised ≡ done either
unfolding compute_layout_of_union is_zst max_alignments
union_run = refl

abbrev two : Layout
two = record either { shape = array_shape (record { value = 5 }) 2; size = record { value = 10 } }

array_run : compute_layout_of_array target either 2 ≡ done two
unfolding compute_layout_of_array checked_mul obj_size_bound bits
array_run = refl

second_run : offset two.shape 1 ≡ some (record { value = 5 })
unfolding offset mul
second_run = refl
