-- ===== src/Lexer/Tests.antt =====
-- compiler/hash-lexer/src/lib.rs: runs of the lexer.
use hashc.Prelude.{ℕ, ◌≡◌, refl, Bool, false, ◌≢◌, subst, some, ◌++◌, arith, List, [], ◌∷◌, map}
use hashc.Lexer.Text.{
  Text, len_utf8, len, is_whitespace, is_ascii_digit, is_ascii_alphabetic, to_digit, is_digit,
  is_ascii_hexdigit, is_id_start, is_id_continue, suffix, prefix, slice, take_while, text_eq,
  digits_value, from_str_radix, parses_as_i32,
}
use hashc.Lexer.Token.{
  from_left, from_right, left, right, delimiter_eq, base_of_radix, keywords, ident_is_keyword,
  int_suffixes, int_ty_of, float_suffixes, float_ty_of,
}
use hashc.Lexer.State.{
  new, pure, gets, modify, panics, runs_out, get_offset, minus, len_consumed, as_slice, nth_char,
  peek, peek_second, advance, next, skip_ascii, skip, is_eof, eat_while_and_discard, hunk,
  source_slice, eat_while_and_slice, byte_range, add_error, emit_error, set_fatal, emit_fatal_error,
  fail, push_token, add_string,
}
use hashc.Lexer.Number.{
  ident, maybe_eat_ident, create_int_const, eat_decimal_digits, eat_exponent, eat_float_lit,
  radix_number, decimal_number, number,
}
use hashc.Lexer.Literal.{
  from_u32, first_bad_digit, unicode_value, escaped_unicode, hex_digits, simple_escape,
  escaped_char, emit_char_lit_error, char, byte_literal, string_loop, string,
}
use hashc.Lexer.Trivia.{line_comment, comment_loop, block_comment, skip_trivia}
use hashc.Lexer.Tokens.{
  symbol, eat_if, dots, dash, eat_token_tree, open_tree, word_or_literal, lex_char, next_token,
  token_loop, strip_shebang, tokenise, advance_token, tree_loop,
}
use hashc.Lexer.Token.{TokenKind, Token, Delimiter}
use hashc.Lexer.State.{done, unfinished}
use hashc.Lexer.Token.{paren, brace, bracket, angle, decimal, unsuffixed_int}
use hashc.Lexer.At.{At, ahead}
use hashc.Lexer.Nested.{
  Body, empty, plain, nested, comment, is_plain, begins_nested, block_comment-comment,
}
use hashc.Lexer.Word.{all, begins, begins_byte, name_token, advance_token-name_kind}
use hashc.Lexer.Names.{Name, source_of, tokens_from_names, tokenise-tokens_from_names}
use hashc.Lexer.Unclosed.{advance_token-unfinished}

abbrev IsParen : Delimiter → Type 0
IsParen paren = Unit {0}
IsParen brace = ⊥
IsParen bracket = ⊥
IsParen angle = ⊥

abbrev no_marks : ℕ → Bool
no_marks c = false

abbrev kinds : Text → List TokenKind
kinds source = map (λ (t : Token). t.kind) (tokenise no_marks 40 source).1.tokens

-- `(a,1);`, a token tree; then a slash that begins and ends a comment; then a tree that stays open.
runs :
    (kinds (b'(' ∷ b'a' ∷ b',' ∷ b'1' ∷ b')' ∷ b';' ∷ [])
      ≡ TokenKind.tree paren 3
        ∷ TokenKind.ident (b'a' ∷ [])
        ∷ TokenKind.comma
        ∷ TokenKind.int_lit decimal unsuffixed_int
        ∷ TokenKind.semi
        ∷ [])
    × (kinds (b'/' ∷ b'*' ∷ b'/' ∷ b';' ∷ []) ≡ TokenKind.semi ∷ [])
    × ((tokenise no_marks 40 (b'(' ∷ [])).0 ≡ unfinished)
unfolding len_utf8 len is_whitespace is_ascii_digit is_ascii_alphabetic to_digit is_digit
    is_ascii_hexdigit is_id_start is_id_continue suffix prefix slice take_while text_eq digits_value
    from_str_radix parses_as_i32 from_left from_right left right delimiter_eq base_of_radix keywords
    ident_is_keyword int_suffixes int_ty_of float_suffixes float_ty_of pure gets modify panics
    runs_out get_offset minus len_consumed as_slice nth_char peek peek_second advance next
    skip_ascii skip is_eof eat_while_and_discard hunk source_slice eat_while_and_slice byte_range
    add_error emit_error set_fatal emit_fatal_error fail push_token add_string ident maybe_eat_ident
    create_int_const eat_decimal_digits eat_exponent eat_float_lit radix_number decimal_number
    number from_u32 first_bad_digit unicode_value escaped_unicode hex_digits simple_escape
    escaped_char emit_char_lit_error char byte_literal string_loop string line_comment comment_loop
    block_comment skip_trivia symbol eat_if dots dash eat_token_tree open_tree word_or_literal
    lex_char next_token token_loop strip_shebang tokenise advance_token tree_loop new
runs = (refl, refl, refl)

start : (source : Text) → At (new source) [] source
unfolding new len
start source = record { split = refl; place = refl }

-- `a/**/`
abbrev two_comments : Body
two_comments = plain b'a' (nested empty empty)

block_comment-comment_example :
    block_comment (new (comment two_comments ++ b';' ∷ []))
    ≡ (done tt, ahead (new (comment two_comments ++ b';' ∷ [])) (len (comment two_comments)))
unfolding is_plain begins_nested
block_comment-comment_example =
    block_comment-comment two_comments (new (comment two_comments ++ b';' ∷ [])) [] (b';' ∷ []) refl
      refl (start (comment two_comments ++ b';' ∷ []))

-- ` if;`
abbrev an_if : Text
an_if = b' ' ∷ b'i' ∷ b'f' ∷ b';' ∷ []

advance_token-name_kind_example : advance_token no_marks 1 (new an_if) ≡ (
  done (some (name_token (len (b' ' ∷ [])) (b'i' ∷ b'f' ∷ []))),
  ahead (new an_if) (len (b' ' ∷ b'i' ∷ b'f' ∷ [])),
)
unfolding all begins begins_byte is_whitespace is_id_start is_id_continue new
advance_token-name_kind_example =
    advance_token-name_kind no_marks (b' ' ∷ []) b'i' (b'f' ∷ []) (b';' ∷ []) (new an_if) [] 0 refl
      refl refl refl refl refl (start an_if)

abbrev two_names : List Name
two_names =
    (record { space = b' ' ∷ []; first = b'i'; more = b'f' ∷ [] })
    ∷ (record { space = b'\n' ∷ b' ' ∷ []; first = b'_'; more = b'x' ∷ b'1' ∷ [] })
    ∷ []

tokenise-tokens_from_names_example : tokenise no_marks 5 (source_of two_names) ≡ (
  done tt,
  record (new (source_of two_names)) {
    offset = len (source_of two_names);
    tokens = tokens_from_names 0 two_names;
  },
)
unfolding all begins is_whitespace is_id_start is_id_continue
tokenise-tokens_from_names_example = tokenise-tokens_from_names no_marks two_names 5 (omega arith) (
  record { blank = refl; apart = refl; starts = refl; continues = refl },
  (record { blank = refl; apart = refl; starts = refl; continues = refl }, tt),
)

paren-angle : paren ≢ angle
paren-angle h = subst IsParen h tt

advance_token-unfinished_example :
    (advance_token no_marks 30 (new (left paren ∷ []))).0 ≡ unfinished
unfolding new
advance_token-unfinished_example =
    advance_token-unfinished no_marks paren 30 (new (left paren ∷ [])) [] paren-angle refl
      (start (left paren ∷ []))
