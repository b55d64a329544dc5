-- ===== src/Lexer/Step.antt =====
-- compiler/hash-lexer/src/lib.rs: a step of `advance_token` at a character that begins a token.
use hashc.Prelude.{
  ℕ, suc, ◌-◌, ◌≡◌, refl, ap, ◌∙◌, Bool, true, false, Option, none, some, ◌∷◌, ◌==◌, leb,
  if◌then◌else◌, arith,
}
use hashc.Lexer.Text.{Text, len, len_utf8, is_whitespace}
use hashc.Lexer.State.{
  Lexer, done, Lex, ◌>>=◌, pure, gets, get_offset, minus, len_consumed, byte_range, next, peek,
}
use hashc.Lexer.Token.{TokenKind, Token}
use hashc.Lexer.Trivia.{skip_trivia}
use hashc.Lexer.Tokens.{next_token, advance_token, tree_loop, lex_char, finish, lexed}
use hashc.Lexer.At.{At, ahead, bind_done, peek-At, next-At}

-- Nothing is skipped at a character that is neither white space nor a slash.
pub skip_trivia-At :
    (fuel : ℕ) (s : Lexer) (before : Text) (c : ℕ) (rest : Text)
    → is_whitespace c ≡ false
    → (c == b'/') ≡ false
    → At s before (c ∷ rest)
    → skip_trivia (suc fuel) s ≡ (done none, s)
unfolding skip_trivia pure
skip_trivia-At fuel s before c rest h n there =
    bind_done peek _ (peek-At s before (c ∷ rest) there) ∙ rw (h, n) refl

pub len_consumed-suc : (s : Lexer) (n : ℕ) → s.offset ≡ suc n → len_consumed s ≡ (done n, s)
unfolding len_consumed get_offset gets minus
len_consumed-suc s n e =
    let fits : leb 1 s.offset ≡ true = ground (arith, e) in
    let less : s.offset - 1 ≡ n = omega (arith, e) in rw (fits, less) refl

pub byte_range-le :
    (a b : ℕ) (s : Lexer)
    → leb a b ≡ true
    → byte_range a b s ≡ (done (record { start = a; end = b }), s)
unfolding byte_range
byte_range-le a b s h = rw h refl

-- A test in the lexer that fails.
pub if-false :
    {A : Type 0} (b : Bool) (m n : Lex A) (s : Lexer) → b ≡ false → (if b then m else n) s ≡ n s
if-false b m n s h = ap (λ b. (if b then m else n) s) h

module _ (is_combining_mark : ℕ → Bool) where
  -- Once white space and comments are skipped the character is read, and `lex_char` goes on from behind it.
  pub advance_token-skip_trivia :
      (fuel : ℕ) (s t : Lexer) (before : Text) (c : ℕ) (rest : Text)
      → skip_trivia (suc (len s.contents)) s ≡ (done none, t)
      → At t before (c ∷ rest)
      → advance_token is_combining_mark (suc fuel) s
        ≡ (lex_char is_combining_mark (tree_loop is_combining_mark fuel) t.offset c
              >>= finish is_combining_mark (advance_token is_combining_mark fuel) t.offset)
            (ahead t (len_utf8 c))
  unfolding advance_token next_token gets get_offset
  advance_token-skip_trivia fuel s t before c rest skipped there =
      bind_done (skip_trivia (suc (len s.contents))) _ skipped
      ∙ bind_done next _ (next-At t before c rest there)

  pub advance_token-lex_char :
      (fuel : ℕ) (s : Lexer) (before : Text) (c : ℕ) (rest : Text)
      → is_whitespace c ≡ false
      → (c == b'/') ≡ false
      → At s before (c ∷ rest)
      → advance_token is_combining_mark (suc fuel) s
        ≡ (lex_char is_combining_mark (tree_loop is_combining_mark fuel) s.offset c
              >>= finish is_combining_mark (advance_token is_combining_mark fuel) s.offset)
            (ahead s (len_utf8 c))
  advance_token-lex_char fuel s before c rest h n there =
      advance_token-skip_trivia fuel s s before c rest
        (skip_trivia-At (len s.contents) s before c rest h n there) there

  -- A token ends before the offset.
  pub finish-lexed :
      (retry : Lex (Option Token)) (start n : ℕ) (k : TokenKind) (s : Lexer)
      → s.has_fatal_error ≡ false
      → s.offset ≡ suc n
      → leb start n ≡ true
      → finish is_combining_mark retry start (lexed k) s
        ≡ (done (some (record { kind = k; span = record { start = start; end = n } })), s)
  unfolding gets pure
  finish-lexed retry start n k s calm e h =
      if-false s.has_fatal_error _ _ s calm
      ∙ bind_done len_consumed _ (len_consumed-suc s n e)
      ∙ bind_done (byte_range start n) _ (byte_range-le start n s h)
