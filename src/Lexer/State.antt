-- ===== src/Lexer/State.antt =====
-- compiler/hash-lexer/src/lib.rs and error.rs: the lexer's state, its errors, and the steps over the
-- characters of the source. The build checks for overflow and has debug assertions. Sources are
-- shorter than 2^32 bytes, and the source's identifier is left out of the spans of errors.
use hashc.Prelude.{
  ℕ, suc, ◌+◌, ◌-◌, Bool, true, false, Option, none, some, List, [], ◌∷◌, ◌++◌, length, get_elem?,
  min, ltb, leb, ◌==◌, if◌then◌else◌,
}
use hashc.Lexer.Text.{Text, len, len_utf8, suffix, slice, take_while, text_eq}
use hashc.Lexer.Token.{Delimiter, Base, TokenKind, ByteRange, Token}

pub data NumericLitKind : Type 0 where
  integer float : NumericLitKind

pub data LexerErrorKind : Type 0 where
  missing_exponent_digits missing_digits unclosed_string_lit : LexerErrorKind
  unclosed : Delimiter → LexerErrorKind
  unsupported_float_base_literal : Base → LexerErrorKind
  invalid_lit_suffix : NumericLitKind → Text → LexerErrorKind
  invalid_float_exponent unclosed_char_lit empty_char_lit : LexerErrorKind
  unknown_escape_sequence : ℕ → LexerErrorKind
  multiple_char_code_points : ℕ → Text → Bool → LexerErrorKind
  unclosed_unicode_lit malformed_unicode_lit : LexerErrorKind
  invalid_unicode_escape : ℕ → LexerErrorKind
  unicode_lit_too_long : LexerErrorKind
  numeric_escape_sequence_too_short numeric_escape_sequence_too_large : LexerErrorKind
  invalid_numeric_escape_sequence : ℕ → LexerErrorKind
  unicode_lit_too_large unicode_escape_in_byte_lit : LexerErrorKind
  non_ascii_byte_lit : ℕ → LexerErrorKind

pub record LexerError : Type 0 where
  pub kind : LexerErrorKind
  pub span : ByteRange

pub data LexerResult (A : Type 0) : Type 0 where
  ok : A → LexerResult A
  failed : LexerError → LexerResult A

pub record TreeInfo : Type 0 where
  pub start : ℕ
  pub delimiter : Option Delimiter

pub record Lexer : Type 0 where
  pub offset : ℕ
  pub contents : Text
  pub tree : Option TreeInfo
  pub strings : List Text
  pub tokens : List Token
  pub errors : List LexerError
  pub has_fatal_error : Bool

unfoldable pub new : Text → Lexer
new contents = record {
  offset = 0;
  contents = contents;
  tree = none;
  strings = [];
  tokens = [];
  errors = [];
  has_fatal_error = false;
}

-- `undefined` is a read of the source outside it or inside a character, which the code does unchecked.
-- `unfinished` is a run that the fuel does not end.
pub data Ran (A : Type 0) : Type 0 where
  done : A → Ran A
  panicked undefined unfinished : Ran A

abbrev pub Lex : Type 0 → Type 0
Lex A = Lexer → Ran A × Lexer

abbrev pub continue : {A B : Type 0} → Ran A → (A → Lex B) → Lex B
continue (done a) f s = f a s
continue panicked f s = (panicked, s)
continue undefined f s = (undefined, s)
continue unfinished f s = (unfinished, s)

infixl 10 ◌>>=◌ ◌>>◌
abbrev pub ◌>>=◌ : {A B : Type 0} → Lex A → (A → Lex B) → Lex B
◌>>=◌ m f s = continue (m s).0 f (m s).1

abbrev pub ◌>>◌ : {B : Type 0} → Lex (Unit {0}) → Lex B → Lex B
m >> n = m >>= λ _. n

unfoldable pub pure : {A : Type 0} → A → Lex A
pure a s = (done a, s)

-- A read of the state.
unfoldable pub gets : {A : Type 0} → (Lexer → A) → Lex A
gets f s = (done (f s), s)

-- A change of the state.
unfoldable pub modify : (Lexer → Lexer) → Lex (Unit {0})
modify f s = (done tt, f s)

unfoldable pub panics : {A : Type 0} → Lex A
panics s = (panicked, s)

unfoldable pub runs_out : {A : Type 0} → Lex A
runs_out s = (unfinished, s)

abbrev pub eof_char : ℕ
eof_char = 0

abbrev pub or_undefined : Option Text → Lex Text
or_undefined none s = (undefined, s)
or_undefined (some cs) s = (done cs, s)

abbrev pub or_panic : {A : Type 0} → Option A → Lex A
or_panic none s = (panicked, s)
or_panic (some a) s = (done a, s)

unfoldable pub get_offset : Lex ℕ
get_offset = gets (λ s. s.offset)

-- `a - b` on `usize`.
unfoldable pub minus : ℕ → ℕ → Lex ℕ
minus a b = or_panic (if leb b a then some (a - b) else none)

unfoldable pub len_consumed : Lex ℕ
len_consumed = do o ← get_offset; minus o 1

-- The unchecked read of the source from the offset on.
unfoldable pub as_slice : Lex Text
as_slice s = or_undefined (suffix s.offset s.contents) s

abbrev pub or_eof : Option ℕ → ℕ
or_eof none = eof_char
or_eof (some c) = c

unfoldable pub nth_char : ℕ → Lex ℕ
nth_char n = do cs ← as_slice; pure (or_eof (get_elem? cs n))

unfoldable pub peek : Lex ℕ
peek = nth_char 0

unfoldable pub peek_second : Lex ℕ
peek_second = nth_char 1

unfoldable pub advance : ℕ → Lex (Unit {0})
advance n = modify (λ s. record s { offset = s.offset + n })

abbrev pub next_of : Text → Lex (Option ℕ)
next_of [] = pure none
next_of (c ∷ cs) = do advance (len_utf8 c); pure (some c)

unfoldable pub next : Lex (Option ℕ)
next = do cs ← as_slice; next_of cs

unfoldable pub skip_ascii : Lex (Unit {0})
skip_ascii = advance 1

abbrev pub skip_of : Option ℕ → Lex (Unit {0})
skip_of none = panics
skip_of (some c) = pure tt

unfoldable pub skip : Lex (Unit {0})
skip = do c ← next; skip_of c

unfoldable pub is_eof : Lex Bool
is_eof = gets (λ s. len s.contents == s.offset)

unfoldable pub eat_while_and_discard : (ℕ → Bool) → Lex (Unit {0})
eat_while_and_discard condition = do
  eof ← is_eof
  if eof then pure tt else (do cs ← as_slice; advance (len (take_while condition cs)))

-- `hunk` clamps the end to the length of the source.
unfoldable pub hunk : ByteRange → Lex Text
hunk range s = or_panic (slice s.contents range.start (min (len s.contents) (range.end + 1))) s

-- `&self.contents.0[start..end]`
unfoldable pub source_slice : ℕ → ℕ → Lex Text
source_slice start end s = or_panic (slice s.contents start end) s

-- The range has its end inside it, so where nothing was eaten it holds the next byte.
unfoldable pub eat_while_and_slice : (ℕ → Bool) → Lex Text
eat_while_and_slice condition = do
  eof ← is_eof
  if eof then pure [] else (do
    start ← get_offset
    eat_while_and_discard condition
    consumed ← get_offset
    hunk (record { start = start; end = if consumed == start then start else consumed - 1 }))

-- `ByteRange::new`, with its debug assertion.
unfoldable pub byte_range : ℕ → ℕ → Lex ByteRange
byte_range start end =
    or_panic (if leb start end then some (record { start = start; end = end }) else none)

abbrev pub singleton : ℕ → ByteRange
singleton start = record { start = start; end = start }

unfoldable pub add_error : LexerError → Lex (Unit {0})
add_error e = modify (λ s. record s { errors = s.errors ++ e ∷ [] })

unfoldable pub emit_error : LexerErrorKind → ByteRange → Lex TokenKind
emit_error kind span = do add_error (record { kind = kind; span = span }); pure TokenKind.error

unfoldable pub set_fatal : Lex (Unit {0})
set_fatal = modify (λ s. record s { has_fatal_error = true })

unfoldable pub emit_fatal_error : LexerErrorKind → ByteRange → Lex TokenKind
emit_fatal_error kind span = do set_fatal; emit_error kind span

-- `self.error(..)`, which only makes the error.
unfoldable pub fail : {A : Type 0} → LexerErrorKind → ByteRange → Lex (LexerResult A)
fail kind span = pure (failed (record { kind = kind; span = span }))

unfoldable pub push_token : Token → Lex (Unit {0})
push_token t = modify (λ s. record s { tokens = s.tokens ++ t ∷ [] })

abbrev pub index_of : Text → List Text → ℕ
index_of t [] = 0
index_of t (u ∷ us) = if text_eq t u then 0 else suc (index_of t us)

-- `LocalStringTable::add`: a string is entered once, and known by its place.
unfoldable pub add_string : Text → Lex ℕ
add_string t = do
  i ← gets (λ s. index_of t s.strings)
  modify (λ s. if ltb i (length s.strings) then s else record s { strings = s.strings ++ t ∷ [] })
  pure i
