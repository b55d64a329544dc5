-- ===== src/Target/DataLayout/Parse/Tests.antt =====
-- compiler/hash-target/src/data_layout.rs: reading a data layout string.
use hashc.Prelude.{◌≡◌, refl, [], ◌∷◌}
use hashc.Lexer.Text.{Text, text_eq, digits_value}
use hashc.Target.Size.{from_bits}
use hashc.Target.Alignment.{alignment_from_bits, from_bytes, halve}
use hashc.Target.DataLayout.{TargetDataLayout}
use hashc.Target.DataLayout.Parse.{
  ok, err, missing_alignment, default_layout, parse_from_llvm_data_layout_string,
}
use hashc.Target.DataLayout.Parse.Accepted.{Reads, HasAlignments}
use hashc.Target.DataLayout.Parse.Bounds.{parse_from_llvm_data_layout_string-Reads}

-- e-p:32:32-i64:64:128-i128:128-a:0:64-P1
abbrev pub layout_string : Text
layout_string =
    b'e' ∷ b'-' ∷ b'p' ∷ b':' ∷ b'3' ∷ b'2' ∷ b':' ∷ b'3' ∷ b'2' ∷ b'-' ∷ b'i' ∷ b'6' ∷ b'4' ∷ b':'
    ∷ b'6' ∷ b'4' ∷ b':' ∷ b'1' ∷ b'2' ∷ b'8' ∷ b'-' ∷ b'i' ∷ b'1' ∷ b'2' ∷ b'8' ∷ b':' ∷ b'1'
    ∷ b'2' ∷ b'8' ∷ b'-' ∷ b'a' ∷ b':' ∷ b'0' ∷ b':' ∷ b'6' ∷ b'4' ∷ b'-' ∷ b'P' ∷ b'1' ∷ []

abbrev pub read_layout : TargetDataLayout
unfolding default_layout
read_layout = record default_layout {
  pointer_size = record { value = 4 };
  pointer_align = record { abi = record { value = 2 }; preferred = record { value = 2 } };
  i64_align = record { abi = record { value = 3 }; preferred = record { value = 4 } };
  i128_align = record { abi = record { value = 4 }; preferred = record { value = 4 } };
  aggregate_align = record { abi = record { value = 0 }; preferred = record { value = 3 } };
  instruction_address_space = 1;
}

pub parse_run : parse_from_llvm_data_layout_string layout_string ≡ ok read_layout
unfolding parse_from_llvm_data_layout_string text_eq digits_value from_bits alignment_from_bits
    from_bytes halve
parse_run = refl

-- An alignment that is named but not given.
missing_run : parse_from_llvm_data_layout_string (b'a' ∷ []) ≡ err (missing_alignment (b'a' ∷ []))
unfolding parse_from_llvm_data_layout_string text_eq
missing_run = refl

parse_from_llvm_data_layout_string-Reads_example :
    Reads HasAlignments (parse_from_llvm_data_layout_string layout_string)
parse_from_llvm_data_layout_string-Reads_example =
    parse_from_llvm_data_layout_string-Reads layout_string
