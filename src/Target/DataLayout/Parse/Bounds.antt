-- ===== src/Target/DataLayout/Parse/Bounds.antt =====
-- compiler/hash-target/src/data_layout.rs: the alignments of a data layout that is read.
use hashc.Prelude.{
  ℕ, ◌^◌, Bool, true, false, ◌&&◌, ◌||◌, Bool-cases, inl, inr, List, [], ◌∷◌, leb, ◌==◌,
  if◌then◌else◌, arith,
}
use hashc.Lexer.Text.{Text, text_eq}
use hashc.Target.Alignment.{Alignments}
use hashc.Target.DataLayout.{TargetDataLayout}
use hashc.Target.DataLayout.Parse.{
  Parsed, or_error, default_layout, parse_unsigned, parse_alignment_specification, Reading,
  set_int_align, set_i128_align, with_layout, read_integer, read_pointer, read_alone, read_type,
  read_parts, read_components, split_on, behind_letter, starts_with, pointer_or, with_alignments,
  parse_from_llvm_data_layout_string,
}
use hashc.Target.DataLayout.Parse.Accepted.{
  AreBounded, HasAlignments, Reads, reads, refuses, Reads-bind, if_Reads, or_error-Reads,
  parse_alignment_specification-Reads,
}

abbrev IsSound : Reading → Type 0
IsSound self = HasAlignments self.layout

if_HasAlignments :
    (b : Bool) (x y : TargetDataLayout)
    → HasAlignments x
    → HasAlignments y
    → HasAlignments (if b then x else y)
if_HasAlignments true x y h k = h
if_HasAlignments false x y h k = k

set_int_align-HasAlignments :
    (bits : ℕ) (a : Alignments) (layout : TargetDataLayout)
    → AreBounded a
    → HasAlignments layout
    → HasAlignments (set_int_align bits a layout)
set_int_align-HasAlignments bits a layout h v =
    if_HasAlignments (bits == 1) (record layout { i1_align = a }) _ (omega arith)
      (if_HasAlignments (bits == 8) (record layout { i8_align = a }) _ (omega arith)
        (if_HasAlignments (bits == 16) (record layout { i16_align = a }) _ (omega arith)
          (if_HasAlignments (bits == 32) (record layout { i32_align = a }) _ (omega arith)
            (if_HasAlignments (bits == 64) (record layout { i64_align = a }) _ (omega arith) v))))

set_i128_align-IsSound :
    (bits : ℕ) (a : Alignments) (self : Reading)
    → AreBounded a
    → IsSound self
    → IsSound (set_i128_align bits a self)
set_i128_align-IsSound bits a self h v =
    elim (Bool-cases (leb self.i128_align_src bits && leb bits 128)) [
      | inl e ↦ rw e (omega arith)
      | inr e ↦ rw e v
    ]

read_integer-Reads :
    (self : Reading) (s : Text) (values : List Text)
    → IsSound self
    → Reads IsSound (read_integer self s values)
unfolding read_integer
read_integer-Reads self s values v =
    Reads-bind (or_error _ (parse_unsigned (2 ^ 64) (behind_letter s))) _
      (or_error-Reads _ (parse_unsigned (2 ^ 64) (behind_letter s)))
      (λ bits u.
        Reads-bind (parse_alignment_specification values s) _
          (parse_alignment_specification-Reads values s)
          (λ a h. reads _ (
            set_i128_align-IsSound bits a (with_layout self (set_int_align bits a self.layout)) h
              (set_int_align-HasAlignments bits a self.layout h v))))

read_pointer-Reads :
    (self : Reading) (p s : Text) (values : List Text)
    → IsSound self
    → Reads IsSound (read_pointer self p s values)
unfolding read_pointer
read_pointer-Reads self p s values v =
    Reads-bind (parse_alignment_specification values p) _
      (parse_alignment_specification-Reads values p)
      (λ a h.
        Reads-bind (or_error _ (parse_unsigned (2 ^ 64) s)) _
          (or_error-Reads _ (parse_unsigned (2 ^ 64) s)) (λ bits u. reads _ (omega arith)))

pointer_or-Reads :
    (self : Reading) (p : Text) (values : List Text) (others : Parsed Reading)
    → IsSound self
    → Reads IsSound others
    → Reads IsSound (pointer_or self p values others)
pointer_or-Reads self p [] others v r = r
pointer_or-Reads self p (s ∷ values) others v r =
    if_Reads (text_eq p (b'p' ∷ []) || text_eq p (b'p' ∷ b'0' ∷ [])) _ _
      (read_pointer-Reads self p s values v) r

read_alone-Reads :
    (self : Reading) (p : Text) (others : Parsed Reading)
    → IsSound self
    → Reads IsSound others
    → Reads IsSound (read_alone self p others)
unfolding read_alone
read_alone-Reads self p others v r = if_Reads (text_eq p (b'e' ∷ [])) _ _ (reads _ (omega arith)) (
    if_Reads (text_eq p (b'E' ∷ [])) _ _ (reads _ (omega arith)) (
      if_Reads (starts_with b'P' p) _ _
        (Reads-bind (or_error _ (parse_unsigned (2 ^ 32) (behind_letter p))) _
          (or_error-Reads _ (parse_unsigned (2 ^ 32) (behind_letter p)))
          (λ n u. reads _ (omega arith)))
        r))

with_alignments-Reads :
    (values : List Text) (cause : Text) (f : Alignments → Reading)
    → ((a : Alignments) → AreBounded a → IsSound (f a))
    → Reads IsSound (with_alignments values cause f)
with_alignments-Reads values cause f h =
    Reads-bind (parse_alignment_specification values cause) _
      (parse_alignment_specification-Reads values cause) (λ a b. reads (f a) (h a b))

read_type-Reads :
    (self : Reading) (s : Text) (values : List Text)
    → IsSound self
    → Reads IsSound (read_type self s values)
unfolding read_type
read_type-Reads self s values v =
    if_Reads (text_eq s (b'a' ∷ [])) _ _
      (with_alignments-Reads values _
        (λ a. with_layout self (record self.layout { aggregate_align = a })) (λ a h. omega arith))
      (if_Reads (text_eq s (b'f' ∷ b'3' ∷ b'2' ∷ [])) _ _
        (with_alignments-Reads values _
          (λ a. with_layout self (record self.layout { f32_align = a })) (λ a h. omega arith))
        (if_Reads (text_eq s (b'f' ∷ b'6' ∷ b'4' ∷ [])) _ _
          (with_alignments-Reads values _
            (λ a. with_layout self (record self.layout { f64_align = a })) (λ a h. omega arith))
          (pointer_or-Reads self s values _ v (
            if_Reads (starts_with b'i' s) _ _ (read_integer-Reads self s values v)
              (reads self v)))))

read_parts-Reads :
    (self : Reading) (parts : List Text) → IsSound self → Reads IsSound (read_parts self parts)
read_parts-Reads self [] v = reads self v
read_parts-Reads self (p ∷ []) v =
    read_alone-Reads self p (read_type self p []) v (read_type-Reads self p [] v)
read_parts-Reads self (s ∷ value ∷ values) v = read_type-Reads self s (value ∷ values) v

default_layout-HasAlignments : HasAlignments default_layout
unfolding default_layout
default_layout-HasAlignments = omega arith

read_components-Reads :
    (self : Reading) (components : List Text)
    → IsSound self
    → Reads IsSound (read_components self components)
unfolding read_components
read_components-Reads self [] v = reads self v
read_components-Reads self (component ∷ components) v =
    Reads-bind (read_parts self (split_on b':' component)) _
      (read_parts-Reads self (split_on b':' component) v)
      (λ next w. read_components-Reads next components w)

-- For every string, the reading of a data layout refuses it or gives a layout whose alignments
-- and preferred alignments, for pointers, aggregates, floats and integers of each width, are of
-- at most 2^32 bytes.
pub parse_from_llvm_data_layout_string-Reads :
    (input : Text) → Reads HasAlignments (parse_from_llvm_data_layout_string input)
unfolding parse_from_llvm_data_layout_string
parse_from_llvm_data_layout_string-Reads [] = refuses
parse_from_llvm_data_layout_string-Reads (c ∷ cs) =
    Reads-bind
      (read_components (record { layout = default_layout; i128_align_src = 64 })
        (split_on b'-' (c ∷ cs)))
      _ (read_components-Reads _ (split_on b'-' (c ∷ cs)) default_layout-HasAlignments)
      (λ self v. reads self.layout v)
