-- ===== src/Lexer/Number.antt =====
-- compiler/hash-lexer/src/lib.rs: identifiers and numeric literals.
use hashc.Prelude.{
  ℕ, Bool, true, false, ◌&&◌, ◌||◌, not, Option, none, some, [], ◌∷◌, ◌==◌, if◌then◌else◌,
}
use hashc.Target.Primitives.{IntTy}
use hashc.Lexer.Text.{
  Text, len_utf8, is_id_start, is_id_continue, is_ascii_digit, is_digit, parses_as_i32,
}
use hashc.Lexer.Token.{
  Keyword, Base, ByteRange, TokenKind, ident_is_keyword, int_ty_of, float_ty_of, base_of_radix,
  suffixed_int, unsuffixed_int, suffixed_float, unsuffixed_float, decimal,
}
use hashc.Lexer.State.{
  Lex, LexerResult, ok, failed, integer, float, ◌>>=◌, ◌>>◌, pure, get_offset, minus, len_consumed,
  peek, peek_second, skip, skip_ascii, eat_while_and_discard, eat_while_and_slice, source_slice,
  byte_range, emit_error, fail, add_error, eof_char, missing_digits, missing_exponent_digits,
  invalid_lit_suffix, unsupported_float_base_literal, invalid_float_exponent,
}

abbrev pub name_kind : Option Keyword → Text → TokenKind
name_kind none name = TokenKind.ident name
name_kind (some k) name = TokenKind.keyword k

unfoldable pub ident : ℕ → Lex TokenKind
ident first = do
  o ← get_offset
  start ← minus o (len_utf8 first)
  eat_while_and_discard is_id_continue
  end ← get_offset
  name ← source_slice start end
  pure (name_kind (ident_is_keyword name) name)

unfoldable pub maybe_eat_ident : Lex (Option Text)
maybe_eat_ident = do
  ch ← peek
  if is_id_start ch
      then (do
        skip
        o ← get_offset
        start ← minus o (len_utf8 ch)
        eat_while_and_discard is_id_continue
        end ← get_offset
        name ← source_slice start end
        pure (some name))
      else pure none

abbrev int_of_suffix : Base → Text → Option IntTy → Lex TokenKind
int_of_suffix base suffix (some ty) = pure (TokenKind.int_lit base (suffixed_int ty))
int_of_suffix base suffix none = do
  o ← get_offset
  span ← byte_range o o
  emit_error (invalid_lit_suffix integer suffix) span

unfoldable pub create_int_const : Base → Option Text → Lex TokenKind
create_int_const base none = pure (TokenKind.int_lit base unsuffixed_int)
create_int_const base (some suffix) = int_of_suffix base suffix (int_ty_of suffix)

unfoldable pub eat_decimal_digits : ℕ → Lex Text
eat_decimal_digits radix = eat_while_and_slice (λ c. is_digit radix c || c == b'_')

-- An error that covers the literal from `start` on.
abbrev pub fail_from : {A : Type 0} → (ByteRange → Lex A) → ℕ → Lex A
fail_from f start = do end ← len_consumed; span ← byte_range start end; f span

unfoldable pub eat_exponent : ℕ → Lex (LexerResult (Unit {0}))
eat_exponent start = do
  c ← peek
  if not (c == b'e' || c == b'E') then pure (ok tt) else (do
    skip_ascii
    sign ← peek
    if sign == b'-' then skip_ascii else pure tt
    digit ← peek
    if digit == eof_char then fail_from (fail missing_exponent_digits) start else (do
      digits ← eat_decimal_digits 10
      if parses_as_i32 digits then pure (ok tt) else fail_from (fail invalid_float_exponent) start))

abbrev float_of_suffix : ℕ → Option Text → Lex TokenKind
float_of_suffix start none = pure (TokenKind.float_lit unsuffixed_float)
float_of_suffix start (some suffix) = elim (float_ty_of suffix) [
  | some ty ↦ pure (TokenKind.float_lit (suffixed_float ty))
  | none ↦ fail_from (emit_error (invalid_lit_suffix float suffix)) start
]

abbrev float_after : ℕ → LexerResult (Unit {0}) → Lex TokenKind
float_after start (failed e) = do add_error e; pure TokenKind.error
float_after start (ok u) = do suffix ← maybe_eat_ident; float_of_suffix start suffix

unfoldable pub eat_float_lit : ℕ → Lex TokenKind
eat_float_lit start = do r ← eat_exponent start; float_after start r

abbrev radix_of : ℕ → Option ℕ
radix_of c =
    if c == b'b'
    then some 2
    else if c == b'o'
    then some 8
    else if c == b'd'
    then some 10
    else if c == b'x'
    then some 16
    else none

abbrev is_float_suffix : Option Text → Bool
is_float_suffix none = false
is_float_suffix (some s) = elim (float_ty_of s) [ none ↦ false | some ty ↦ true ]

abbrev is_empty : Text → Bool
is_empty [] = true
is_empty (c ∷ cs) = false

unfoldable pub radix_number : ℕ → ℕ → Lex TokenKind
radix_number start radix = do
  skip_ascii
  chars ← eat_decimal_digits radix
  if is_empty chars then fail_from (emit_error missing_digits) start else (do
    suffix ← maybe_eat_ident
    if is_float_suffix suffix && not (radix == 10)
        then fail_from (emit_error (unsupported_float_base_literal (base_of_radix radix))) start
        else create_int_const (base_of_radix radix) suffix)

abbrev number_of_suffix : Option Text → Lex TokenKind
number_of_suffix none = create_int_const decimal none
number_of_suffix (some suffix) = elim (float_ty_of suffix) [
  | some ty ↦ pure (TokenKind.float_lit (suffixed_float ty))
  | none ↦ create_int_const decimal (some suffix)
]

abbrev is_number_char : ℕ → Bool
is_number_char c = is_ascii_digit c || c == b'_'

unfoldable pub decimal_number : ℕ → Lex TokenKind
decimal_number start = do
  digits ← eat_while_and_slice is_number_char
  c ← peek
  d ← peek_second
  if c == b'.' && (not (is_id_start d) && not (d == b'.'))
      then (do skip_ascii; fraction ← eat_while_and_slice is_number_char; eat_float_lit start)
      else if c == b'e' || c == b'E'
      then eat_float_lit start
      else (do suffix ← maybe_eat_ident; number_of_suffix suffix)

abbrev number_at : ℕ → Option ℕ → Lex TokenKind
number_at start none = decimal_number start
number_at start (some radix) = radix_number start radix

unfoldable pub number : ℕ → Bool → Lex TokenKind
number prev skip_sign = do
  o ← get_offset
  start ← minus o (if skip_sign then 1 else 0)
  if prev == b'0' then (do c ← peek; number_at start (radix_of c)) else decimal_number start
