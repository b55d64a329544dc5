-- ===== src/Lexer/Token.antt =====
-- compiler/hash-token/src: tokens, delimiters and keywords; Target/Primitives has the numeric types of
-- compiler/hash-target/src/primitives.rs that literals name. An identifier is its text, and an
-- interned string its place in the lexer's table.
use hashc.Target.Primitives.{
  IntTy, FloatTy, i8, i16, i32, i64, i128, isize, u8, u16, u32, u64, u128, usize, ibig, ubig, int,
  uint, big, f32, f64,
}
use hashc.Prelude.{ℕ, Option, none, some, List, [], ◌∷◌, Bool, ◌==◌, if◌then◌else◌}
use hashc.Lexer.Text.{Text, text_eq}

pub data Delimiter : Type 0 where
  paren brace bracket angle : Delimiter

unfoldable pub from_left : ℕ → Option Delimiter
from_left ch =
    if ch == b'('
    then some paren
    else if ch == b'['
    then some bracket
    else if ch == b'{'
    then some brace
    else if ch == b'<'
    then some angle
    else none

unfoldable pub from_right : ℕ → Option Delimiter
from_right ch =
    if ch == b')'
    then some paren
    else if ch == b']'
    then some bracket
    else if ch == b'}'
    then some brace
    else if ch == b'>'
    then some angle
    else none

unfoldable pub left : Delimiter → ℕ
left paren = b'('
left brace = b'{'
left bracket = b'['
left angle = b'<'

unfoldable pub right : Delimiter → ℕ
right paren = b')'
right brace = b'}'
right bracket = b']'
right angle = b'>'

unfoldable pub delimiter_eq : Delimiter → Delimiter → Bool
unfolding left
delimiter_eq d e = left d == left e

pub data Keyword : Type 0 where
  kw_for kw_while kw_loop kw_if kw_else kw_match kw_as kw_in kw_trait kw_enum kw_struct kw_continue
        kw_break kw_return kw_import kw_raw kw_false kw_true kw_unsafe kw_pub kw_priv kw_mut kw_mod
        kw_impl kw_type :
      Keyword

pub data FloatLitKind : Type 0 where
  suffixed_float : FloatTy → FloatLitKind
  unsuffixed_float : FloatLitKind

pub data IntLitKind : Type 0 where
  suffixed_int : IntTy → IntLitKind
  unsuffixed_int : IntLitKind

pub data Base : Type 0 where
  binary octal decimal hex unsupported : Base

unfoldable pub base_of_radix : ℕ → Base
base_of_radix radix =
    if radix == 2
    then binary
    else if radix == 8
    then octal
    else if radix == 10
    then decimal
    else if radix == 16
    then hex
    else unsupported

abbrev lookup_name {ℓ} : {A : Type ℓ} → List (Text × A) → Text → Option A
lookup_name [] name = none
lookup_name ((n, a) ∷ rest) name = if text_eq n name then some a else lookup_name rest name

-- The map `KEYWORDS`.
unfoldable pub keywords : List (Text × Keyword)
keywords =
    (b'f' ∷ b'o' ∷ b'r' ∷ [], kw_for)
    ∷ (b'w' ∷ b'h' ∷ b'i' ∷ b'l' ∷ b'e' ∷ [], kw_while)
    ∷ (b'l' ∷ b'o' ∷ b'o' ∷ b'p' ∷ [], kw_loop)
    ∷ (b'i' ∷ b'f' ∷ [], kw_if)
    ∷ (b'e' ∷ b'l' ∷ b's' ∷ b'e' ∷ [], kw_else)
    ∷ (b'm' ∷ b'a' ∷ b't' ∷ b'c' ∷ b'h' ∷ [], kw_match)
    ∷ (b'a' ∷ b's' ∷ [], kw_as)
    ∷ (b'i' ∷ b'n' ∷ [], kw_in)
    ∷ (b't' ∷ b'r' ∷ b'a' ∷ b'i' ∷ b't' ∷ [], kw_trait)
    ∷ (b'e' ∷ b'n' ∷ b'u' ∷ b'm' ∷ [], kw_enum)
    ∷ (b's' ∷ b't' ∷ b'r' ∷ b'u' ∷ b'c' ∷ b't' ∷ [], kw_struct)
    ∷ (b'c' ∷ b'o' ∷ b'n' ∷ b't' ∷ b'i' ∷ b'n' ∷ b'u' ∷ b'e' ∷ [], kw_continue)
    ∷ (b'b' ∷ b'r' ∷ b'e' ∷ b'a' ∷ b'k' ∷ [], kw_break)
    ∷ (b'r' ∷ b'e' ∷ b't' ∷ b'u' ∷ b'r' ∷ b'n' ∷ [], kw_return)
    ∷ (b'i' ∷ b'm' ∷ b'p' ∷ b'o' ∷ b'r' ∷ b't' ∷ [], kw_import)
    ∷ (b'r' ∷ b'a' ∷ b'w' ∷ [], kw_raw)
    ∷ (b'f' ∷ b'a' ∷ b'l' ∷ b's' ∷ b'e' ∷ [], kw_false)
    ∷ (b't' ∷ b'r' ∷ b'u' ∷ b'e' ∷ [], kw_true)
    ∷ (b'u' ∷ b'n' ∷ b's' ∷ b'a' ∷ b'f' ∷ b'e' ∷ [], kw_unsafe)
    ∷ (b'p' ∷ b'u' ∷ b'b' ∷ [], kw_pub)
    ∷ (b'p' ∷ b'r' ∷ b'i' ∷ b'v' ∷ [], kw_priv)
    ∷ (b'm' ∷ b'u' ∷ b't' ∷ [], kw_mut)
    ∷ (b'm' ∷ b'o' ∷ b'd' ∷ [], kw_mod)
    ∷ (b'i' ∷ b'm' ∷ b'p' ∷ b'l' ∷ [], kw_impl)
    ∷ (b't' ∷ b'y' ∷ b'p' ∷ b'e' ∷ [], kw_type)
    ∷ []

unfoldable pub ident_is_keyword : Text → Option Keyword
unfolding keywords text_eq
ident_is_keyword name = lookup_name keywords name

-- The identifiers that name an integer type.
unfoldable pub int_suffixes : List (Text × IntTy)
int_suffixes =
    (b'i' ∷ b'8' ∷ [], int i8)
    ∷ (b'i' ∷ b'1' ∷ b'6' ∷ [], int i16)
    ∷ (b'i' ∷ b'3' ∷ b'2' ∷ [], int i32)
    ∷ (b'i' ∷ b'6' ∷ b'4' ∷ [], int i64)
    ∷ (b'i' ∷ b'1' ∷ b'2' ∷ b'8' ∷ [], int i128)
    ∷ (b'i' ∷ b's' ∷ b'i' ∷ b'z' ∷ b'e' ∷ [], int isize)
    ∷ (b'u' ∷ b'8' ∷ [], uint u8)
    ∷ (b'u' ∷ b'1' ∷ b'6' ∷ [], uint u16)
    ∷ (b'u' ∷ b'3' ∷ b'2' ∷ [], uint u32)
    ∷ (b'u' ∷ b'6' ∷ b'4' ∷ [], uint u64)
    ∷ (b'u' ∷ b'1' ∷ b'2' ∷ b'8' ∷ [], uint u128)
    ∷ (b'u' ∷ b's' ∷ b'i' ∷ b'z' ∷ b'e' ∷ [], uint usize)
    ∷ (b'i' ∷ b'b' ∷ b'i' ∷ b'g' ∷ [], big ibig)
    ∷ (b'u' ∷ b'b' ∷ b'i' ∷ b'g' ∷ [], big ubig)
    ∷ []

unfoldable pub int_ty_of : Text → Option IntTy
unfolding int_suffixes text_eq
int_ty_of name = lookup_name int_suffixes name

-- The identifiers that name a float type.
unfoldable pub float_suffixes : List (Text × FloatTy)
float_suffixes = (b'f' ∷ b'3' ∷ b'2' ∷ [], f32) ∷ (b'f' ∷ b'6' ∷ b'4' ∷ [], f64) ∷ []

unfoldable pub float_ty_of : Text → Option FloatTy
unfolding float_suffixes text_eq
float_ty_of name = lookup_name float_suffixes name

pub data TokenKind : Type 0 where
  eq lt gt plus minus star slash percent caret amp tilde pipe question exclamation : TokenKind
  dot colon semi pound at dollar comma quote single_quote thin_arrow fat_arrow access : TokenKind
  ellipsis range range_exclusive : TokenKind
  int_lit : Base → IntLitKind → TokenKind
  byte : ℕ → TokenKind
  float_lit : FloatLitKind → TokenKind
  char : ℕ → TokenKind
  str : ℕ → TokenKind
  ident : Text → TokenKind
  tree : Delimiter → ℕ → TokenKind
  keyword : Keyword → TokenKind
  left_delim right_delim : Delimiter → TokenKind
  unexpected : ℕ → TokenKind
  error : TokenKind

-- Both ends of the range are inside it.
pub record ByteRange : Type 0 where
  pub start : ℕ
  pub end : ℕ

pub record Token : Type 0 where
  pub kind : TokenKind
  pub span : ByteRange
