-- ===== src/Lexer/Literal.antt =====
-- compiler/hash-lexer/src/lib.rs: character, byte and string literals, and their escapes.
use hashc.Prelude.{
  ℕ, zero, suc, ◌+◌, ◌%◌, Bool, true, false, ◌&&◌, ◌||◌, not, Option, none, some, [], ◌∷◌, ◌++◌,
  ltb, ◌==◌, if◌then◌else◌,
}
use hashc.Lexer.Text.{Text, len, is_whitespace, is_ascii_hexdigit, from_str_radix, between}
use hashc.Lexer.Token.{TokenKind}
use hashc.Lexer.State.{
  Lex, LexerResult, ok, failed, ◌>>=◌, ◌>>◌, pure, runs_out, gets, or_panic, get_offset, minus,
  len_consumed, peek, peek_second, next, skip, skip_ascii, is_eof, eat_while_and_slice, byte_range,
  singleton, emit_error, emit_fatal_error, set_fatal, fail, add_error, eof_char, add_string,
  malformed_unicode_lit, unclosed_unicode_lit, invalid_unicode_escape, unicode_lit_too_long,
  unicode_escape_in_byte_lit, unicode_lit_too_large, numeric_escape_sequence_too_short,
  invalid_numeric_escape_sequence, numeric_escape_sequence_too_large, unknown_escape_sequence,
  empty_char_lit, non_ascii_byte_lit, unclosed_char_lit, multiple_char_code_points,
  unclosed_string_lit,
}
use hashc.Lexer.Number.{fail_from}

-- `char::from_u32(value).unwrap()`, which panics on a surrogate.
unfoldable pub from_u32 : ℕ → Option ℕ
from_u32 value = if between 0xd800 0xdfff value || ltb 0x10ffff value then none else some value

-- The first character that is no hexadecimal digit, with its number.
unfoldable pub first_bad_digit : ℕ → Text → Option (ℕ × ℕ)
first_bad_digit i [] = none
first_bad_digit i (c ∷ cs) = if is_ascii_hexdigit c then first_bad_digit (suc i) cs else some (i, c)

abbrev unwrapped : Option ℕ → Lex (LexerResult ℕ)
unwrapped o = do c ← or_panic o; pure (ok c)

-- The value of the digits in `\u{..}`.
unfoldable pub unicode_value : Bool → ℕ → Text → Lex (LexerResult ℕ)
unicode_value byte_lit start chars = do
  value ← or_panic (from_str_radix 16 chars)
  if byte_lit
      then fail_from (fail unicode_escape_in_byte_lit) start
      else if ltb 0x10ffff value
      then fail_from (fail unicode_lit_too_large) start
      else unwrapped (from_u32 value)

abbrev checked_digits : Bool → ℕ → Text → Option (ℕ × ℕ) → Lex (LexerResult ℕ)
checked_digits byte_lit start chars (some (i, c)) =
    fail (invalid_unicode_escape c) (singleton (start + 2 + i))
checked_digits byte_lit start chars none =
    if ltb 6 (len chars)
    then fail_from (fail unicode_lit_too_long) start
    else unicode_value byte_lit start chars

abbrev is_unicode_char : ℕ → Bool
is_unicode_char c = not (c == b'\'') && (not (c == b'"') && not (c == b'}'))

unfoldable pub escaped_unicode : Bool → ℕ → Lex (LexerResult ℕ)
escaped_unicode byte_lit start = do
  c ← peek
  if not (c == b'{') then fail_from (fail malformed_unicode_lit) start else (do
    skip_ascii
    chars ← eat_while_and_slice is_unicode_char
    d ← peek
    if not (d == b'}')
        then (do o ← get_offset; span ← byte_range o o; fail unclosed_unicode_lit span)
        else (do skip_ascii; checked_digits byte_lit start chars (first_bad_digit 0 chars)))

abbrev after_digit : ℕ → LexerResult Text → Lex (LexerResult Text)
after_digit c (failed e) = pure (failed e)
after_digit c (ok cs) = pure (ok (c ∷ cs))

-- The digits of `\x..`, as many as the first argument says.
unfoldable pub hex_digits : ℕ → ℕ → Lex (LexerResult Text)
hex_digits zero start = pure (ok [])
hex_digits (suc n) start = do
  c ← peek
  if is_ascii_hexdigit c
      then (do skip; rest ← hex_digits n start; after_digit c rest)
      else if c == eof_char || (c == b'"' || c == b'\'')
      then fail_from (fail numeric_escape_sequence_too_short) start
      else (do o ← get_offset; fail (invalid_numeric_escape_sequence c) (singleton o))

abbrev hex_value : Bool → ℕ → LexerResult Text → Lex (LexerResult ℕ)
hex_value byte_lit start (failed e) = pure (failed e)
hex_value byte_lit start (ok chars) = do
  value ← or_panic (from_str_radix 16 chars)
  if not byte_lit && ltb 0x7f value
      then fail_from (fail numeric_escape_sequence_too_large) start
      else unwrapped (from_u32 value)

-- The escapes of one character.
unfoldable pub simple_escape : ℕ → Option ℕ
simple_escape c =
    if c == b'0'
    then some 0
    else if c == b'n'
    then some 0xa
    else if c == b't'
    then some 0x9
    else if c == b'a'
    then some 0x7
    else if c == b'b'
    then some 0x8
    else if c == b'f'
    then some 0x1b
    else if c == b'r'
    then some 0xd
    else if c == b'v'
    then some 0xb
    else if c == b'\\'
    then some c
    else if c == b'"'
    then some c
    else if c == b'\''
    then some c
    else none

abbrev escape_of : Bool → ℕ → ℕ → Option ℕ → Lex (LexerResult ℕ)
escape_of byte_lit start c (some e) = pure (ok e)
escape_of byte_lit start c none =
    if c == b'u'
    then escaped_unicode byte_lit start
    else if c == b'x'
    then (do digits ← hex_digits 2 start; hex_value byte_lit start digits)
    else fail (unknown_escape_sequence c) (singleton start)

abbrev unwrap_char : Option ℕ → Lex ℕ
unwrap_char = or_panic

unfoldable pub escaped_char : Bool → Lex (LexerResult ℕ)
escaped_char byte_lit = do
  first ← next
  c ← unwrap_char first
  o ← get_offset
  start ← minus o 1
  escape_of byte_lit start c (simple_escape c)

module _ (is_combining_mark : ℕ → Bool) where
  -- The marks, where all the characters are.
  abbrev all_marks : Text → Option Text
  all_marks [] = some []
  all_marks (c ∷ cs) =
      if is_combining_mark c
      then elim (all_marks cs) [ none ↦ none | some ms ↦ some (c ∷ ms) ]
      else none

  abbrev marks_of : Text → Text
  marks_of cs = elim (all_marks cs) [ none ↦ [] | some ms ↦ ms ]

  abbrev split_first : Option ℕ → Text → ℕ × Text
  split_first (some c) cs = (c, cs)
  split_first none [] = (b'\'', [])
  split_first none (c ∷ cs) = (c, cs)

  unfoldable pub emit_char_lit_error : ℕ → Option ℕ → Bool → Lex TokenKind
  emit_char_lit_error pos starting_char byte_lit = do
    lit ← eat_while_and_slice (λ c. not (c == b'\'') && not (is_whitespace c))
    c ← peek
    if not (c == b'\'')
        then (do o ← get_offset; emit_fatal_error unclosed_char_lit (singleton o))
        else (do
          eof ← is_eof
          if eof then pure tt else skip_ascii
          end ← len_consumed
          span ← byte_range pos end
          let (start, rest) = split_first starting_char lit in
              emit_error (multiple_char_code_points start (marks_of rest) byte_lit) span)

  abbrev after_escape : ℕ → Bool → LexerResult ℕ → Lex TokenKind
  after_escape start byte_lit (ok ch) = do
    c ← peek
    if not (c == b'\'')
        then emit_char_lit_error start (some ch) byte_lit
        else (do skip_ascii; pure (TokenKind.char ch))
  after_escape start byte_lit (failed e) = do
    add_error e
    c ← peek
    if not (c == b'\'') then set_fatal else pure tt
    eof ← is_eof
    if eof then pure tt else skip
    pure TokenKind.error

  -- `ch` was read at `pos` and the quote after it skipped.
  abbrev char_of : Bool → ℕ → ℕ → Lex TokenKind
  char_of byte_lit pos ch =
      if byte_lit && not (ltb ch 0x80)
      then emit_error (non_ascii_byte_lit ch) (singleton pos)
      else pure (TokenKind.char ch)

  unfoldable pub char : Bool → Lex TokenKind
  char byte_lit = do
    o ← get_offset
    start ← minus o (if byte_lit then 2 else 1)
    c ← peek
    d ← peek_second
    if c == b'\\'
        then (do skip_ascii; e ← escaped_char byte_lit; after_escape start byte_lit e)
        else if c == b'\''
        then (do skip_ascii; end ← len_consumed; emit_error empty_char_lit (singleton end))
        else if d == b'\''
        then (do
          pos ← get_offset
          first ← next
          ch ← unwrap_char first
          skip_ascii
          char_of byte_lit pos ch)
        else emit_char_lit_error start none byte_lit

  abbrev to_byte : TokenKind → TokenKind
  to_byte (TokenKind.char ch) = TokenKind.byte (ch % 256)
  to_byte k = k

  unfoldable pub byte_literal : Lex TokenKind
  byte_literal = do lit ← char true; pure (to_byte lit)

-- The loop over the characters of a string, which ends closed, at an error, or at the end.
pub data StringEnd : Type 0 where
  closed : Text → StringEnd
  unclosed_string error_added : StringEnd

abbrev after_string_escape : (Text → Lex StringEnd) → Text → LexerResult ℕ → Lex StringEnd
after_string_escape more value (ok ch) = more (value ++ ch ∷ [])
after_string_escape more value (failed e) = do add_error e; pure error_added

unfoldable pub string_loop : ℕ → Text → Lex StringEnd
string_loop zero value = runs_out
string_loop (suc fuel) value = do
  c ← next
  elim c [
    | none ↦ pure unclosed_string
    | some ch ↦
        if ch == b'"'
        then pure (closed value)
        else if ch == b'\\'
        then (do e ← escaped_char false; after_string_escape (string_loop fuel) value e)
        else string_loop fuel (value ++ ch ∷ [])
  ]

abbrev string_end : ℕ → StringEnd → Lex TokenKind
string_end start (closed value) = do i ← add_string value; pure (TokenKind.str i)
string_end start error_added = pure TokenKind.error
string_end start unclosed_string = fail_from (emit_fatal_error unclosed_string_lit) start

-- Each round reads a character, so the length of the source is enough rounds.
unfoldable pub string : Lex TokenKind
string = do
  start ← get_offset
  fuel ← gets (λ s. suc (len s.contents))
  end ← string_loop fuel []
  string_end start end
