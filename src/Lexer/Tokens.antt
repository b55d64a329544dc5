-- ===== src/Lexer/Tokens.antt =====
-- compiler/hash-lexer/src/lib.rs: the lexer's main functions `advance_token`, `eat_token_tree` and
-- `tokenise`. The first argument of the loops bounds their rounds.
use hashc.Prelude.{
  ℕ, zero, suc, Bool, true, false, ◌&&◌, not, Option, none, some, length, set, ltb, ◌==◌,
  if◌then◌else◌,
}
use hashc.Lexer.Text.{Text, len, is_ascii_digit, is_id_start}
use hashc.Lexer.Token.{Delimiter, TokenKind, Token, from_left, from_right, delimiter_eq}
use hashc.Lexer.State.{
  Lexer, TreeInfo, Ran, Lex, ◌>>=◌, ◌>>◌, pure, runs_out, gets, modify, or_panic, get_offset, minus,
  len_consumed, nth_char, peek, peek_second, next, skip_ascii, is_eof, eat_while_and_discard,
  byte_range, singleton, emit_error, push_token, unclosed, new,
}
use hashc.Lexer.Number.{ident, number}
use hashc.Lexer.Literal.{char, byte_literal, string}
use hashc.Lexer.Trivia.{skip_trivia}

-- The tokens of one character that begin no longer token.
unfoldable pub symbol : ℕ → Option TokenKind
symbol c =
    if c == b'~'
    then some TokenKind.tilde
    else if c == b'!'
    then some TokenKind.exclamation
    else if c == b'+'
    then some TokenKind.plus
    else if c == b'*'
    then some TokenKind.star
    else if c == b'%'
    then some TokenKind.percent
    else if c == b'>'
    then some TokenKind.gt
    else if c == b'<'
    then some TokenKind.lt
    else if c == b'|'
    then some TokenKind.pipe
    else if c == b'^'
    then some TokenKind.caret
    else if c == b'&'
    then some TokenKind.amp
    else if c == b';'
    then some TokenKind.semi
    else if c == b','
    then some TokenKind.comma
    else if c == b'#'
    then some TokenKind.pound
    else if c == b'@'
    then some TokenKind.at
    else if c == b'$'
    then some TokenKind.dollar
    else if c == b'?'
    then some TokenKind.question
    else none

-- What the `match` on a character comes to: a token's kind, no token, or another attempt.
pub data Lexed : Type 0 where
  lexed : TokenKind → Lexed
  stopped again : Lexed

-- The next character, eaten where it is `c`.
unfoldable pub eat_if : ℕ → TokenKind → TokenKind → Lex TokenKind
eat_if c longer shorter = do d ← peek; if d == c then (do skip_ascii; pure longer) else pure shorter

unfoldable pub dots : Lex TokenKind
dots = do
  c ← peek
  if c == b'.'
      then (do
        skip_ascii
        d ← peek
        if d == b'.'
            then (do skip_ascii; pure TokenKind.ellipsis)
            else if d == b'<'
            then (do skip_ascii; pure TokenKind.range_exclusive)
            else pure TokenKind.range)
      else pure TokenKind.dot

unfoldable pub dash : Lex TokenKind
dash = do
  c ← peek
  if c == b'>'
      then (do skip_ascii; pure TokenKind.thin_arrow)
      else if is_ascii_digit c
      then number c true
      else pure TokenKind.minus

abbrev swap_tree : Option TreeInfo → Lex (Option TreeInfo)
swap_tree tree = do old ← gets (λ s. s.tree); modify (λ s. record s { tree = tree }); pure old

abbrev closing : Option TreeInfo → Option Delimiter
closing none = none
closing (some info) = info.delimiter

-- The tree's token gets its length and its span.
abbrev close_tree : Delimiter → ℕ → ℕ → Lex TokenKind
close_tree delimiter delim_offset start = do
  index ← minus start 1
  size ← gets (λ s. length s.tokens)
  count ← minus size start
  end ← len_consumed
  span ← byte_range delim_offset end
  checked ← or_panic (if ltb index size then some index else none)
  modify (λ s. record s {
    tokens = set s.tokens checked (record { kind = TokenKind.tree delimiter count; span = span });
  })
  pure (TokenKind.right_delim delimiter)

-- The offset goes back a byte, whatever was read last.
abbrev unclosed_tree : Delimiter → ℕ → Lex TokenKind
unclosed_tree delimiter delim_offset = do
  o ← get_offset
  back ← minus o 1
  modify (λ s. record s { offset = back })
  emit_error (unclosed delimiter) (singleton delim_offset)

abbrev end_tree : Delimiter → ℕ → Option TreeInfo → Option Delimiter → Lex TokenKind
end_tree delimiter delim_offset none d = unclosed_tree delimiter delim_offset
end_tree delimiter delim_offset (some info) none = unclosed_tree delimiter delim_offset
end_tree delimiter delim_offset (some info) (some d) =
    if delimiter_eq d delimiter
    then close_tree delimiter delim_offset info.start
    else unclosed_tree delimiter delim_offset

-- The first argument reads the tokens of the tree.
unfoldable pub eat_token_tree : Lex (Unit {0}) → Delimiter → Lex TokenKind
eat_token_tree inner delimiter = do
  o ← get_offset
  delim_offset ← minus o 1
  start ← gets (λ s. length s.tokens)
  outer ← swap_tree (some (record { start = start; delimiter = none }))
  inner
  tree ← swap_tree outer
  fatal ← gets (λ s. s.has_fatal_error)
  if fatal then pure TokenKind.error else end_tree delimiter delim_offset tree (closing tree)

unfoldable pub open_tree : Lex (Unit {0}) → ℕ → Delimiter → Lex Lexed
open_tree inner offset delimiter = do
  end ← len_consumed
  span ← byte_range offset end
  push_token (record { kind = TokenKind.tree delimiter 0; span = span })
  k ← eat_token_tree inner delimiter
  fatal ← gets (λ s. s.has_fatal_error)
  pure (if fatal then stopped else again)

abbrev as_lexed : Lex TokenKind → Lex Lexed
as_lexed m = do k ← m; pure (lexed k)

abbrev leave_tree : Delimiter → Option TreeInfo → Lex Lexed
leave_tree d none = pure (lexed (TokenKind.right_delim d))
leave_tree d (some info) = do
  modify (λ s. record s { tree = some (record info { delimiter = some d }) })
  pure stopped

-- A closing delimiter ends the tree that it stands in; the angle is no delimiter here.
abbrev close_or_unexpected : ℕ → Option Delimiter → Lex Lexed
close_or_unexpected ch none = pure (lexed (TokenKind.unexpected ch))
close_or_unexpected ch (some d) = do tree ← gets (λ s. s.tree); leave_tree d tree

module _ (is_combining_mark : ℕ → Bool) where
  unfoldable pub word_or_literal : ℕ → Lex Lexed
  word_or_literal ch =
      if is_ascii_digit ch
      then as_lexed (number ch false)
      else if ch == b'\''
      then as_lexed (char is_combining_mark false)
      else if ch == b'"'
      then as_lexed string
      else if ch == b'b'
      then (do
        d ← peek
        if d == b'\''
            then (do skip_ascii; as_lexed (byte_literal is_combining_mark))
            else as_lexed (ident ch))
      else if is_id_start ch
      then as_lexed (ident ch)
      else close_or_unexpected ch (from_right ch)

  abbrev by_symbol : Lex (Unit {0}) → ℕ → ℕ → Option TokenKind → Option Delimiter → Lex Lexed
  by_symbol inner offset ch (some k) d = pure (lexed k)
  by_symbol inner offset ch none (some d) = open_tree inner offset d
  by_symbol inner offset ch none none =
      if ch == b'.'
      then as_lexed dots
      else if ch == b':'
      then as_lexed (eat_if b':' TokenKind.access TokenKind.colon)
      else if ch == b'='
      then as_lexed (eat_if b'>' TokenKind.fat_arrow TokenKind.eq)
      else if ch == b'-'
      then as_lexed dash
      else word_or_literal ch

  -- The `match` on the character at `offset`, which was read. The symbols come first, so `<` and `>`
  -- are no delimiters.
  unfoldable pub lex_char : Lex (Unit {0}) → ℕ → ℕ → Lex Lexed
  lex_char inner offset ch = by_symbol inner offset ch (symbol ch) (from_left ch)

  abbrev pub finish : Lex (Option Token) → ℕ → Lexed → Lex (Option Token)
  finish retry offset stopped = pure none
  finish retry offset again = retry
  finish retry offset (lexed k) = do
    fatal ← gets (λ s. s.has_fatal_error)
    if fatal then pure none else (do
      end ← len_consumed
      span ← byte_range offset end
      pure (some (record { kind = k; span = span })))

  abbrev after_trivia : Lex (Unit {0}) → Lex (Option Token) → Option Token → Lex (Option Token)
  after_trivia inner retry (some t) = pure (some t)
  after_trivia inner retry none = do
    offset ← get_offset
    first ← next
    elim first [
      | none ↦ pure none
      | some ch ↦ (do r ← lex_char inner offset ch; finish retry offset r)
    ]

  -- One call of `advance_token`, with what reads the tokens of a tree and what is called after one.
  unfoldable pub next_token : Lex (Unit {0}) → Lex (Option Token) → Lex (Option Token)
  next_token inner retry = do
    fuel ← gets (λ s. suc (len s.contents))
    slash ← skip_trivia fuel
    after_trivia inner retry slash

  abbrev push_or_stop : Lex (Unit {0}) → Option Token → Lex (Unit {0})
  push_or_stop more none = pure tt
  push_or_stop more (some t) = do push_token t; more

  unfoldable mutual
    pub advance_token : ℕ → Lex (Option Token)
    advance_token zero = runs_out
    advance_token (suc fuel) = next_token (tree_loop fuel) (advance_token fuel)

    -- The tokens of a tree, up to its end or the source's.
    pub tree_loop : ℕ → Lex (Unit {0})
    tree_loop zero = runs_out
    tree_loop (suc fuel) = do
      eof ← is_eof
      if eof then pure tt else (do t ← advance_token fuel; push_or_stop (tree_loop fuel) t)

  unfoldable pub token_loop : ℕ → Lex (Unit {0})
  token_loop zero = runs_out
  token_loop (suc fuel) = do t ← advance_token fuel; push_or_stop (token_loop fuel) t

  -- A shebang is skipped, unless it is a module's attribute.
  unfoldable pub strip_shebang : Lex (Unit {0})
  strip_shebang = do
    c ← peek
    d ← peek_second
    if c == b'#' && d == b'!'
        then (do
          e ← nth_char 2
          if e == b'[' then pure tt else eat_while_and_discard (λ c. not (c == b'\n')))
        else pure tt

  abbrev tokens_from : ℕ → Lex (Unit {0})
  tokens_from fuel = do strip_shebang; token_loop fuel

  unfoldable pub tokenise : ℕ → Text → Ran (Unit {0}) × Lexer
  tokenise fuel contents = tokens_from fuel (new contents)
