-- ===== src/Repr/Enum/Tests.antt =====
-- compiler/hash-repr/src/compute.rs: laying out an enum with a 32-bit field in one of two variants. Its tag
-- expands from 8 to 32 bits.
use hashc.Prelude.{◌+◌, ◌^◌, ◌≤◌, ◌≡◌, refl, true, false, List, [], ◌∷◌, arith}
use hashc.Prelude.Bytes.{All}
use hashc.Target.Size.{bits, checked_add, from_bits, unsigned_int_max, shift_of}
use hashc.Target.Alignment.{max_alignments, trailing_zeros, new}
use hashc.Target.Alignment as Alignment
use hashc.Target.Align.{align_to}
use hashc.Target.DataLayout.{obj_size_bound, int8, int16, int32, int64, int128}
use hashc.Target.Abi.{
  scalar_abi, aggregate_abi, is_uninhabited, int_size, int_align, for_alignment, initialised,
  int_kind, scalar_size, scalar_kind, kind_size,
}
use hashc.Repr.Layout.{
  done, Layout, aggregate, single, multiple, is_zst, no_size, iter_increasing_offsets,
}
use hashc.Repr.Placement.{
  effective_field_alignment, key_le, insert_index, sort_by_key, field_order, invert_memory_mapping,
  sum_of_sizes, place_field, place_fields, start_of,
}
use hashc.Repr.Placement.Outcome.{Outcome}
use hashc.Repr.ScalarLike.{optimised_abi}
use hashc.Repr.Univariant.{memory_map_of, finish, compute_layout_of_univariant}
use hashc.Repr.Univariant.Tests.{target, target-IsDataLayout, word, align_of, optimised}
use hashc.Repr.Discriminant.{Adt, compute_discriminant_range, discriminant_representation}
use hashc.Repr.Enum.{compute_layout_of_enum}
use hashc.Repr.Enum.Gather.{IsRowOfFields, rooms}
use hashc.Repr.Enum.Widen.{IntegersAligned}
use hashc.Repr.Enum.Tagged.{prefix_of}
use hashc.Repr.Enum.Behind.{IsEnumLayout, compute_layout_of_enum-IsEnumLayout}

abbrev option_word : Adt
option_word = record {
  discriminants = 0 ∷ 1 ∷ [];
  is_struct = false;
  is_tuple = false;
  is_union = false;
  is_enum = true;
  metadata = optimised;
}

abbrev table : List (List Layout)
table = (word ∷ []) ∷ [] ∷ []

target-IntegersAligned : IntegersAligned target
unfolding int_align
target-IntegersAligned int8 = omega arith
target-IntegersAligned int16 = omega arith
target-IntegersAligned int32 = omega arith
target-IntegersAligned int64 = omega arith
target-IntegersAligned int128 = omega arith

table_rows : All IsRowOfFields table
table_rows = (
  record { aligned = (omega arith, tt); few = omega arith },
  (record { aligned = tt; few = omega arith }, tt),
)

table_range : compute_discriminant_range target option_word table ≡ done (0, 1)
unfolding compute_discriminant_range from_bits is_uninhabited
table_range = refl

table_representation : discriminant_representation option_word target 0 1 ≡ done (int8, false)
unfolding discriminant_representation
table_representation = refl

compute_layout_of_enum-IsEnumLayout_example :
    Outcome
      (IsEnumLayout target target-IsDataLayout.bound 0 1 int8 false [] table)
      (target-IsDataLayout.bound
        ≤ rooms optimised (prefix_of target optimised int8 table) table + 2 ^ 33)
      (compute_layout_of_enum target [] table option_word)
compute_layout_of_enum-IsEnumLayout_example =
    compute_layout_of_enum-IsEnumLayout target target-IsDataLayout target-IntegersAligned [] table
      option_word table_rows 0 1 int8 false table_range table_representation

enum_run :
    compute_layout_of_enum target [] table option_word
    ≡ done (
      record {
        shape = aggregate (record { offset = no_size; size = record { value = 8 } } ∷ []) (0 ∷ []);
        variants =
            multiple
              (initialised (int_kind int32 false) (record { start = 0; end = 1 }))
              0
              (0 ∷ 1 ∷ []);
        abi = aggregate_abi;
        alignment = align_of 2;
        size = record { value = 8 };
      },
      record {
        shape =
            aggregate
              (record { offset = record { value = 4 }; size = record { value = 4 } } ∷ [])
              (0 ∷ []);
        variants = single 0;
        abi = aggregate_abi;
        alignment = align_of 2;
        size = record { value = 8 };
      }
          ∷ record {
            shape = aggregate [] [];
            variants = single 1;
            abi = aggregate_abi;
            alignment = align_of 0;
            size = record { value = 4 };
          }
          ∷ [],
    )
unfolding compute_layout_of_enum from_bits is_uninhabited int_align int_size for_alignment
    scalar_size scalar_kind kind_size compute_layout_of_univariant field_order sort_by_key
    insert_index key_le effective_field_alignment trailing_zeros Alignment.bytes is_zst start_of new
    place_fields place_field sum_of_sizes checked_add align_to obj_size_bound bits max_alignments
    finish memory_map_of invert_memory_mapping optimised_abi iter_increasing_offsets
    unsigned_int_max shift_of
enum_run = refl

-- An enum whose variants have no fields is its tag.
abbrev units : List (List Layout)
units = [] ∷ [] ∷ []

units_run :
    compute_layout_of_enum target [] units option_word
    ≡ done (
      record {
        shape = aggregate (record { offset = no_size; size = record { value = 1 } } ∷ []) (0 ∷ []);
        variants =
            multiple
              (initialised (int_kind int8 false) (record { start = 0; end = 1 }))
              0
              (0 ∷ 1 ∷ []);
        abi = scalar_abi (initialised (int_kind int8 false) (record { start = 0; end = 1 }));
        alignment = align_of 0;
        size = record { value = 1 };
      },
      record {
        shape = aggregate [] [];
        variants = single 0;
        abi = aggregate_abi;
        alignment = align_of 0;
        size = record { value = 1 };
      }
          ∷ record {
            shape = aggregate [] [];
            variants = single 1;
            abi = aggregate_abi;
            alignment = align_of 0;
            size = record { value = 1 };
          }
          ∷ [],
    )
unfolding compute_layout_of_enum from_bits is_uninhabited int_align int_size for_alignment
    scalar_size scalar_kind kind_size compute_layout_of_univariant field_order sort_by_key
    insert_index key_le effective_field_alignment trailing_zeros Alignment.bytes is_zst start_of new
    place_fields place_field sum_of_sizes checked_add align_to obj_size_bound bits max_alignments
    finish memory_map_of invert_memory_mapping optimised_abi iter_increasing_offsets
    unsigned_int_max shift_of
units_run = refl
