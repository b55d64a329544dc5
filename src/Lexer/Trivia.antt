-- ===== src/Lexer/Trivia.antt =====
-- compiler/hash-lexer/src/lib.rs: white space and comments. The first argument of the loops bounds their
-- rounds.
use hashc.Prelude.{ℕ, zero, suc, ◌+◌, ◌-◌, ◌&&◌, not, Option, none, some, ◌==◌, if◌then◌else◌}
use hashc.Lexer.Text.{len, is_whitespace}
use hashc.Lexer.Token.{TokenKind, Token}
use hashc.Lexer.State.{
  Lex, ◌>>=◌, ◌>>◌, pure, runs_out, gets, get_offset, peek, peek_second, next, skip_ascii,
  eat_while_and_discard, byte_range,
}

unfoldable pub line_comment : Lex (Unit {0})
line_comment = eat_while_and_discard (λ c. not (c == b'\n'))

-- What a round does at a character `c` that is followed by `d`.
abbrev pub comment_step : (ℕ → Lex (Unit {0})) → ℕ → ℕ → ℕ → Lex (Unit {0})
comment_step more depth c d =
    if c == b'/' && d == b'*'
    then (do skip_ascii; more (suc depth))
    else if c == b'*' && d == b'/'
    then (do skip_ascii; if depth == 1 then pure tt else more (depth - 1))
    else more depth

-- A round reads a character, and with it the second one of a `/*` or a `*/`.
unfoldable pub comment_loop : ℕ → ℕ → Lex (Unit {0})
comment_loop zero depth = runs_out
comment_loop (suc fuel) depth = do
  first ← next
  elim first [ none ↦ pure tt | some c ↦ (do d ← peek; comment_step (comment_loop fuel) depth c d) ]

unfoldable pub block_comment : Lex (Unit {0})
block_comment = do skip_ascii; fuel ← gets (λ s. suc (len s.contents)); comment_loop fuel 1

-- The slash's span begins after it.
abbrev slash_token : Lex (Option Token)
slash_token = do
  skip_ascii
  o ← get_offset
  span ← byte_range o (o + 1)
  pure (some (record { kind = TokenKind.slash; span = span }))

-- White space and comments. A slash that begins no comment is a token at once.
unfoldable pub skip_trivia : ℕ → Lex (Option Token)
skip_trivia zero = runs_out
skip_trivia (suc fuel) = do
  c ← peek
  if is_whitespace c
      then (do eat_while_and_discard is_whitespace; skip_trivia fuel)
      else if c == b'/'
      then (do
        d ← peek_second
        if d == b'*'
            then (do block_comment; skip_trivia fuel)
            else if d == b'/'
            then (do line_comment; skip_trivia fuel)
            else slash_token)
      else pure none
