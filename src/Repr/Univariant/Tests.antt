-- ===== src/Repr/Univariant/Tests.antt =====
-- compiler/hash-repr/src/compute.rs: laying out structs on a target with 64-bit pointers.
use hashc.Prelude.{ℕ, ◌+◌, ◌^◌, ◌≤◌, ◌≡◌, refl, false, none, some, List, [], ◌∷◌, arith}
use hashc.Prelude.Bytes.{All}
use hashc.Target.Size.{bits, checked_add}
use hashc.Target.Alignment.{Alignment, Alignments, new, max_alignments, trailing_zeros}
use hashc.Target.Alignment as Alignment
use hashc.Target.Align.{align_to}
use hashc.Target.DataLayout.{
  TargetDataLayout, little_endian, int8, int16, int32, int64, int128, obj_size_bound,
}
use hashc.Target.Primitives.{f32, f64}
use hashc.Target.Abi.{
  ScalarKind, int_kind, float_kind, pointer, aggregate_abi, kind_align, int_align, float_align,
  is_uninhabited,
}
use hashc.Repr.Layout.{done, Layout, aggregate, single, is_zst, iter_increasing_offsets, primitive}
use hashc.Repr.Placement.{
  AdtRepresentation, effective_field_alignment, key_le, insert_index, sort_by_key, field_order,
  invert_memory_mapping, sum_of_sizes, place_field, place_fields, start_of,
}
use hashc.Repr.Placement.Outcome.{Outcome}
use hashc.Repr.Placement.Loop.{HasAlignment, room}
use hashc.Repr.ScalarLike.{optimised_abi}
use hashc.Repr.ScalarLike.Done.{IsDataLayout}
use hashc.Repr.Univariant.{memory_map_of, finish, compute_layout_of_univariant}
use hashc.Repr.Univariant.LaidOut.{IsLaidOut, compute_layout_of_univariant-IsLaidOut}
use hashc.Repr.Univariant.Disjoint.{AreApart}
use hashc.Repr.Univariant.Offsets.{
  iter_increasing_offsets-compute_layout_of_univariant, compute_layout_of_univariant-AreApart,
}

abbrev pub align_of : ℕ → Alignments
align_of n = record { abi = record { value = n }; preferred = record { value = n } }

abbrev pub target : TargetDataLayout
target = record {
  endian = little_endian;
  i1_align = align_of 0;
  i8_align = align_of 0;
  i16_align = align_of 1;
  i32_align = align_of 2;
  i64_align = align_of 3;
  i128_align = align_of 3;
  pointer_size = record { value = 8 };
  pointer_align = align_of 3;
  f32_align = align_of 2;
  f64_align = align_of 3;
  aggregate_align = align_of 0;
  vector_align = [];
  instruction_address_space = 0;
  c_style_enum_min_size = int32;
}

target_alignments : (kind : ScalarKind) → (kind_align kind target).abi.value ≤ 32
unfolding kind_align int_align float_align
target_alignments (int_kind int8 signed) = omega arith
target_alignments (int_kind int16 signed) = omega arith
target_alignments (int_kind int32 signed) = omega arith
target_alignments (int_kind int64 signed) = omega arith
target_alignments (int_kind int128 signed) = omega arith
target_alignments (float_kind f32) = omega arith
target_alignments (float_kind f64) = omega arith
target_alignments (pointer space) = omega arith

pub target-IsDataLayout : IsDataLayout target
unfolding obj_size_bound bits
target-IsDataLayout = record {
  bound = 2 ^ 47;
  is_bound = refl;
  aggregates = omega arith;
  scalars = target_alignments;
}

abbrev pub byte : Layout
byte = record {
  shape = primitive;
  variants = single 0;
  abi = aggregate_abi;
  alignment = align_of 0;
  size = record { value = 1 };
}

abbrev pub word : Layout
word = record byte { alignment = align_of 2; size = record { value = 4 } }

abbrev three : List Layout
three = byte ∷ word ∷ byte ∷ []

abbrev pub optimised : AdtRepresentation
optimised = record { discriminant = none; c_like = false }

order_run : field_order none three optimised ≡ 1 ∷ 0 ∷ 2 ∷ []
unfolding field_order sort_by_key insert_index key_le effective_field_alignment trailing_zeros
    Alignment.bytes is_zst
order_run = refl

tagged_order_run :
    field_order (some (record { value = 1 }, record { value = 0 })) three optimised ≡ 0 ∷ 2 ∷ 1 ∷ []
unfolding field_order sort_by_key insert_index key_le effective_field_alignment trailing_zeros
    Alignment.bytes is_zst
tagged_order_run = refl

three-HasAlignment : All HasAlignment three
three-HasAlignment = (omega arith, (omega arith, (omega arith, tt)))

compute_layout_of_univariant-IsLaidOut_example :
    Outcome
      (IsLaidOut none three (field_order none three optimised))
      (2 ^ 47 ≤ 0 + room three (field_order none three optimised))
      (compute_layout_of_univariant target 0 none three optimised)
unfolding target-IsDataLayout
compute_layout_of_univariant-IsLaidOut_example =
    compute_layout_of_univariant-IsLaidOut target target-IsDataLayout 0 none three optimised tt
      three-HasAlignment (omega arith)

iter_increasing_offsets-compute_layout_of_univariant_example :
    Outcome
      (λ l. iter_increasing_offsets l.shape ≡ field_order none three optimised)
      (target-IsDataLayout.bound ≤ 0 + room three (field_order none three optimised))
      (compute_layout_of_univariant target 0 none three optimised)
iter_increasing_offsets-compute_layout_of_univariant_example =
    iter_increasing_offsets-compute_layout_of_univariant target target-IsDataLayout 0 none three
      optimised tt three-HasAlignment (omega arith)

compute_layout_of_univariant-AreApart_example :
    Outcome
      (λ l. AreApart l 0 1 byte word)
      (target-IsDataLayout.bound ≤ 0 + room three (field_order none three optimised))
      (compute_layout_of_univariant target 0 none three optimised)
compute_layout_of_univariant-AreApart_example =
    compute_layout_of_univariant-AreApart target target-IsDataLayout 0 none three optimised tt
      three-HasAlignment (omega arith) 0 1 byte word (λ e. omega (arith, e)) refl refl

layout_run :
    compute_layout_of_univariant target 0 none three optimised
    ≡ done (record {
      shape =
          aggregate
            (record { offset = record { value = 4 }; size = record { value = 1 } }
              ∷ record { offset = record { value = 0 }; size = record { value = 4 } }
              ∷ record { offset = record { value = 5 }; size = record { value = 1 } }
              ∷ [])
            (1 ∷ 0 ∷ 2 ∷ []);
      variants = single 0;
      abi = aggregate_abi;
      alignment = align_of 2;
      size = record { value = 8 };
    })
unfolding compute_layout_of_univariant field_order sort_by_key insert_index key_le
    effective_field_alignment trailing_zeros Alignment.bytes is_zst start_of place_fields
    place_field sum_of_sizes checked_add align_to obj_size_bound bits max_alignments is_uninhabited
    finish memory_map_of invert_memory_mapping optimised_abi
layout_run = refl
