-- ===== src/Lexer/Text.antt =====
-- Characters and strings as Rust has them, and compiler/hash-lexer/src/utils.rs. A character is its
-- code point and a string the list of its characters.
use hashc.Prelude.{
  ℕ, zero, suc, ◌+◌, ◌-◌, ◌*◌, Bool, true, false, ◌&&◌, ◌||◌, Option, none, some, List, [], ◌∷◌,
  leb, ltb, ◌==◌, if◌then◌else◌,
}

abbrev pub Text : Type 0
Text = List ℕ

abbrev pub between : ℕ → ℕ → ℕ → Bool
between low high c = leb low c && leb c high

-- `c.len_utf8()`
unfoldable pub len_utf8 : ℕ → ℕ
len_utf8 c = if ltb c 0x80 then 1 else if ltb c 0x800 then 2 else if ltb c 0x10000 then 3 else 4

-- `s.len()`, in bytes.
unfoldable pub len : Text → ℕ
len [] = 0
len (c ∷ cs) = len_utf8 c + len cs

-- `c.is_whitespace()`
unfoldable pub is_whitespace : ℕ → Bool
is_whitespace c =
    between 0x9 0xd c
    || c == 0x20
    || c == 0x85
    || c == 0xa0
    || c == 0x1680
    || between 0x2000 0x200a c
    || between 0x2028 0x2029 c
    || c == 0x202f
    || c == 0x205f
    || c == 0x3000

unfoldable pub is_ascii_digit : ℕ → Bool
is_ascii_digit c = between b'0' b'9' c

unfoldable pub is_ascii_alphabetic : ℕ → Bool
is_ascii_alphabetic c = between b'a' b'z' c || between b'A' b'Z' c

-- The value of a digit, of a letter from ten on.
unfoldable pub to_digit : ℕ → Option ℕ
unfolding is_ascii_digit
to_digit c =
    if is_ascii_digit c
    then some (c - b'0')
    else if between b'a' b'z' c
    then some (c - b'a' + 10)
    else if between b'A' b'Z' c
    then some (c - b'A' + 10)
    else none

abbrev below : ℕ → Option ℕ → Bool
below radix none = false
below radix (some d) = ltb d radix

-- `c.is_digit(radix)`
unfoldable pub is_digit : ℕ → ℕ → Bool
unfolding to_digit
is_digit radix c = below radix (to_digit c)

unfoldable pub is_ascii_hexdigit : ℕ → Bool
unfolding is_digit
is_ascii_hexdigit c = is_digit 16 c

unfoldable pub is_id_start : ℕ → Bool
unfolding is_ascii_alphabetic
is_id_start c = is_ascii_alphabetic c || c == b'_'

unfoldable pub is_id_continue : ℕ → Bool
unfolding is_ascii_alphabetic is_ascii_digit
is_id_continue c = (is_ascii_alphabetic c || is_ascii_digit c) || c == b'_'

-- The rest of a string from a byte on: `none` beyond the end and inside a character.
unfoldable pub suffix : ℕ → Text → Option Text
unfolding len_utf8
suffix zero cs = some cs
suffix (suc n) [] = none
suffix (suc n) (c ∷ cs) = if leb (len_utf8 c) (suc n) then suffix (suc n - len_utf8 c) cs else none

abbrev cons_char : ℕ → Option Text → Option Text
cons_char c none = none
cons_char c (some cs) = some (c ∷ cs)

-- The first bytes of a string.
unfoldable pub prefix : ℕ → Text → Option Text
unfolding len_utf8
prefix zero cs = some []
prefix (suc n) [] = none
prefix (suc n) (c ∷ cs) =
    cons_char c (if leb (len_utf8 c) (suc n) then prefix (suc n - len_utf8 c) cs else none)

abbrev prefix_of : ℕ → Option Text → Option Text
prefix_of n none = none
prefix_of n (some cs) = prefix n cs

-- `&s[start..end]`, which panics where a bound is no boundary of characters.
unfoldable pub slice : Text → ℕ → ℕ → Option Text
unfolding suffix prefix
slice cs start end = if leb start end then prefix_of (end - start) (suffix start cs) else none

unfoldable pub take_while : (ℕ → Bool) → Text → Text
take_while p [] = []
take_while p (c ∷ cs) = if p c then c ∷ take_while p cs else []

unfoldable pub text_eq : Text → Text → Bool
text_eq [] [] = true
text_eq [] (d ∷ ds) = false
text_eq (c ∷ cs) [] = false
text_eq (c ∷ cs) (d ∷ ds) = c == d && text_eq cs ds

abbrev push_digit : ℕ → Option ℕ → Option ℕ → Option ℕ
push_digit radix (some d) (some acc) = if ltb d radix then some (acc * radix + d) else none
push_digit radix _ _ = none

-- The value of a string of digits.
unfoldable pub digits_value : ℕ → Option ℕ → Text → Option ℕ
unfolding to_digit
digits_value radix acc [] = acc
digits_value radix acc (c ∷ cs) = digits_value radix (push_digit radix (to_digit c) acc) cs

abbrev at_most : ℕ → Option ℕ → Option ℕ
at_most bound none = none
at_most bound (some n) = if leb n bound then some n else none

-- `u32::from_str_radix(s, radix)` of a string that has no sign.
unfoldable pub from_str_radix : ℕ → Text → Option ℕ
unfolding digits_value
from_str_radix radix [] = none
from_str_radix radix (c ∷ cs) = at_most 0xffffffff (digits_value radix (some 0) (c ∷ cs))

-- Whether `s.parse::<i32>()` succeeds.
unfoldable pub parses_as_i32 : Text → Bool
unfolding digits_value
parses_as_i32 [] = false
parses_as_i32 (c ∷ []) = is_ascii_digit c
parses_as_i32 (c ∷ d ∷ cs) =
    elim (if c == b'-'
      then at_most 0x80000000 (digits_value 10 (some 0) (d ∷ cs))
      else at_most 0x7fffffff
          (digits_value 10 (some 0) (if c == b'+' then d ∷ cs else c ∷ d ∷ cs))) [
            | none ↦ false
            | some n ↦ true
          ]
