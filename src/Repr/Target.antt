-- ===== src/Repr/Target.antt =====
-- compiler/hash-target/src/data_layout.rs and compiler/hash-repr/src/compute.rs: layouts are computed for the
-- data layout of a target that was read from a string.
use hashc.Prelude.{ℕ, ◌≤◌, ◌≡◌, some}
use hashc.Target.Primitives.{f32, f64}
use hashc.Target.DataLayout.{TargetDataLayout, obj_size_bound, int8, int16, int32, int64, int128}
use hashc.Target.DataLayout.Parse.Accepted.{HasAlignments}
use hashc.Target.Abi.{ScalarKind, int_kind, float_kind, pointer, kind_align, int_align, float_align}
use hashc.Repr.ScalarLike.Done.{IsDataLayout}

scalars-HasAlignments :
    (dl : TargetDataLayout)
    → HasAlignments dl
    → (kind : ScalarKind) → (kind_align kind dl).abi.value ≤ 32
unfolding kind_align int_align float_align
scalars-HasAlignments dl v (int_kind int8 signed) = v.i8.abi
scalars-HasAlignments dl v (int_kind int16 signed) = v.i16.abi
scalars-HasAlignments dl v (int_kind int32 signed) = v.i32.abi
scalars-HasAlignments dl v (int_kind int64 signed) = v.i64.abi
scalars-HasAlignments dl v (int_kind int128 signed) = v.i128.abi
scalars-HasAlignments dl v (float_kind f32) = v.f32.abi
scalars-HasAlignments dl v (float_kind f64) = v.f64.abi
scalars-HasAlignments dl v (pointer space) = v.pointers.abi

pub HasAlignments-IsDataLayout :
    (dl : TargetDataLayout) (bound : ℕ)
    → HasAlignments dl
    → obj_size_bound dl ≡ some bound
    → IsDataLayout dl
HasAlignments-IsDataLayout dl bound v e = record {
  bound = bound;
  is_bound = e;
  aggregates = v.aggregates.abi;
  scalars = scalars-HasAlignments dl v;
}
