-- ===== src/Lexer/Word.antt =====
-- compiler/hash-lexer/src/lib.rs: names are read whole, and told from keywords.
use hashc.Prelude.{
  ℕ, zero, suc, ◌+◌, ◌-◌, ◌<◌, ◌≡◌, refl, ap, ◌∙◌, Bool, true, false, Bool-cases, ◌&&◌, none, some,
  [], ◌∷◌, ◌++◌, ◌==◌, leb, get_elem?, inl, inr, arith,
}
use hashc.Lexer.Text.{
  Text, len, len_utf8, take_while, slice, is_id_start, is_id_continue, is_whitespace,
  is_ascii_digit,
}
use hashc.Lexer.Token.{Token, ident_is_keyword, from_left}
use hashc.Lexer.State.{
  Lexer, done, Lex, pure, gets, get_offset, minus, source_slice, or_eof, or_panic, peek,
  eat_while_and_discard,
}
use hashc.Lexer.Number.{name_kind, ident}
use hashc.Lexer.Trivia.{skip_trivia}
use hashc.Lexer.Tokens.{symbol, lex_char, word_or_literal, advance_token, tree_loop, lexed}
use hashc.Lexer.At.{
  At, ahead, bind_done, peek-At, At-next, eat-At, At-ahead, len-append, len_utf8-pos, slice-append,
}
use hashc.Lexer.Step.{advance_token-skip_trivia, skip_trivia-At, finish-lexed}
use hashc.Lexer.Comment.{len-cons, and-left, and-right}

unfoldable pub all : (ℕ → Bool) → Text → Bool
all p [] = true
all p (c ∷ cs) = p c && all p cs

-- Whether the text begins with such a character.
unfoldable pub begins : (ℕ → Bool) → Text → Bool
begins p [] = false
begins p (c ∷ cs) = p c

take_while-append :
    (p : ℕ → Bool) (w rest : Text)
    → all p w ≡ true
    → begins p rest ≡ false
    → take_while p (w ++ rest) ≡ w
unfolding all begins take_while
take_while-append p [] [] h n = refl
take_while-append p [] (c ∷ rest) h n = rw n refl
take_while-append p (c ∷ w) rest h n =
    rw (and-left (p c) (all p w) h)
      (ap (λ t. c ∷ t) (take_while-append p w rest (and-right (p c) (all p w) h) n))

start-symbol : (c : ℕ) → is_id_start c ≡ true → symbol c ≡ none
unfolding is_id_start symbol
start-symbol c h = ground (arith, h)

start-from_left : (c : ℕ) → is_id_start c ≡ true → from_left c ≡ none
unfolding is_id_start from_left
start-from_left c h = ground (arith, h)

start-is_whitespace : (c : ℕ) → is_id_start c ≡ true → is_whitespace c ≡ false
unfolding is_id_start is_whitespace
start-is_whitespace c h = ground (arith, h)

start-above : (c : ℕ) → is_id_start c ≡ true → 64 < c
unfolding is_id_start
start-above c h = ground (arith, h)

start-other : (c d : ℕ) → is_id_start c ≡ true → d < 65 → (c == d) ≡ false
start-other c d h lt = ground (arith, start-above c h)

start-is_ascii_digit : (c : ℕ) → is_id_start c ≡ true → is_ascii_digit c ≡ false
unfolding is_id_start is_ascii_digit
start-is_ascii_digit c h = ground (arith, h)

start-len_utf8 : (c : ℕ) → is_id_start c ≡ true → len_utf8 c ≡ 1
unfolding is_id_start len_utf8
start-len_utf8 c h = ground (arith, h)

minus_lem : (a b : ℕ) (s : Lexer) → minus (a + b) b s ≡ (done a, s)
unfolding minus
minus_lem a b s =
    let fits : leb b (a + b) ≡ true = ground arith in
    let size : a + b - b ≡ a = omega arith in rw (fits, size) refl

source_slice-At :
    (s t : Lexer) (before name rest : Text) (end : ℕ)
    → At s before (name ++ rest)
    → t.contents ≡ s.contents
    → end ≡ s.offset + len name
    → source_slice s.offset end t ≡ (done name, t)
unfolding source_slice
source_slice-At s t before name rest end h same e =
    ap (λ r. or_panic r t)
      (ap (λ cs. slice cs s.offset end) (same ∙ h.split)
        ∙ ap (slice (before ++ (name ++ rest)) s.offset) e
        ∙ ap (λ o. slice (before ++ (name ++ rest)) o (o + len name)) h.place
        ∙ slice-append before name rest)

ident-At :
    (c : ℕ) (w rest : Text) (s : Lexer) (before : Text)
    → all is_id_continue w ≡ true
    → begins is_id_continue rest ≡ false
    → At s before (c ∷ w ++ rest)
    → ident c (ahead s (len_utf8 c))
      ≡ (done (name_kind (ident_is_keyword (c ∷ w)) (c ∷ w)), ahead s (len (c ∷ w)))
unfolding ident get_offset gets pure
ident-At c w rest s before h n there =
    let t = ahead s (len_utf8 c) in
    bind_done (minus t.offset (len_utf8 c)) _ (minus_lem s.offset (len_utf8 c) t)
    ∙ bind_done (eat_while_and_discard is_id_continue) _ (
        eat-At is_id_continue t (before ++ c ∷ []) (w ++ rest)
          (At-next s before c (w ++ rest) there)
        ∙ ap (λ v. (done tt, ahead t (len v))) (take_while-append is_id_continue w rest h n)
        ∙ ap (λ (o : ℕ). (done tt, record s { offset = o })) (omega (arith, len-cons c w)))
    ∙ bind_done (source_slice s.offset (s.offset + len (c ∷ w))) _ (
        source_slice-At s (ahead s (len (c ∷ w))) before (c ∷ w) rest (s.offset + len (c ∷ w)) there
          refl refl)

-- The token of a name that stands at an offset.
abbrev pub name_token : ℕ → Text → Token
name_token o name = record {
  kind = name_kind (ident_is_keyword name) name;
  span = record { start = o; end = o + len name - 1 };
}

skip_trivia-pos :
    (fuel : ℕ) (s : Lexer) (before : Text) (c : ℕ) (rest : Text)
    → 0 < fuel
    → is_whitespace c ≡ false
    → (c == b'/') ≡ false
    → At s before (c ∷ rest)
    → skip_trivia fuel s ≡ (done none, s)
skip_trivia-pos zero s before c rest lt h n there = absurd (omega (arith, lt))
skip_trivia-pos (suc fuel) s before c rest lt h n there =
    skip_trivia-At fuel s before c rest h n there

skip_trivia-space :
    (space : Text) (c : ℕ) (rest : Text) (s : Lexer) (before : Text)
    → all is_whitespace space ≡ true
    → is_whitespace c ≡ false
    → (c == b'/') ≡ false
    → At s before (space ++ c ∷ rest)
    → skip_trivia (suc (len s.contents)) s ≡ (done none, ahead s (len space))
unfolding skip_trivia all begins len
skip_trivia-space [] c rest s before blank h n there =
    skip_trivia-At (len s.contents) s before c rest h n there
    ∙ ap (λ (o : ℕ). (done none, record s { offset = o })) (omega arith)
skip_trivia-space (d ∷ space) c rest s before blank h n there =
    bind_done peek _ (peek-At s before (d ∷ space ++ c ∷ rest) there)
    ∙ rw (and-left (is_whitespace d) (all is_whitespace space) blank) (
        bind_done (eat_while_and_discard is_whitespace) _ (
          eat-At is_whitespace s before (d ∷ space ++ c ∷ rest) there
          ∙ ap (λ v. (done tt, ahead s (len v)))
              (take_while-append is_whitespace (d ∷ space) (c ∷ rest) blank h))
        ∙ skip_trivia-pos (len s.contents) (ahead s (len (d ∷ space))) (before ++ d ∷ space) c rest
            (omega (
              arith,
              len_utf8-pos d,
              ap len there.split ∙ len-append before (d ∷ space ++ c ∷ rest),
            ))
            h n (At-ahead s before (d ∷ space) (c ∷ rest) there))

-- Whether the text begins with `b'`, a byte literal.
unfoldable pub begins_byte : Text → Bool
begins_byte [] = false
begins_byte (c ∷ cs) = c == b'b' && or_eof (get_elem? cs 0) == b'\''

module _ (is_combining_mark : ℕ → Bool) where
  word-At :
      (c : ℕ) (w rest : Text) (s : Lexer) (before : Text)
      → is_id_start c ≡ true
      → all is_id_continue w ≡ true
      → begins is_id_continue rest ≡ false
      → begins_byte (c ∷ w ++ rest) ≡ false
      → At s before (c ∷ w ++ rest)
      → word_or_literal is_combining_mark c (ahead s (len_utf8 c))
        ≡ (done (lexed (name_kind (ident_is_keyword (c ∷ w)) (c ∷ w))), ahead s (len (c ∷ w)))
  unfolding word_or_literal begins_byte pure
  word-At c w rest s before b h n lit there =
      rw
        (
          start-is_ascii_digit c b,
          start-other c b'\'' b (omega arith),
          start-other c b'"' b (omega arith),
        )
        (elim (Bool-cases (c == b'b')) [
          | inl e ↦
              let other : (or_eof (get_elem? (w ++ rest) 0) == b'\'') ≡ false =
                ground (arith, e, lit) in
              rw e (
                bind_done peek _ (
                  peek-At (ahead s (len_utf8 c)) (before ++ c ∷ []) (w ++ rest)
                    (At-next s before c (w ++ rest) there))
                ∙ rw other (bind_done (ident c) _ (ident-At c w rest s before h n there)))
          | inr e ↦ rw (e, b) (bind_done (ident c) _ (ident-At c w rest s before h n there))
        ])

  lex_char-At :
      (inner : Lex (Unit {0})) (o c : ℕ)
      → is_id_start c ≡ true
      → lex_char is_combining_mark inner o c ≡ word_or_literal is_combining_mark c
  unfolding lex_char
  lex_char-At inner o c b =
      rw
        (
          start-symbol c b,
          start-from_left c b,
          start-other c b'.' b (omega arith),
          start-other c b':' b (omega arith),
          start-other c b'=' b (omega arith),
          start-other c b'-' b (omega arith),
        )
        refl

  -- A name is read whole: where a letter or an underscore begins it and what follows it neither goes
  -- on with it nor makes a byte literal of it, `advance_token` skips the white space before the name
  -- and gives the name or its keyword, with the name's bytes as the span. Nothing but the offset changes.
  pub advance_token-name_kind :
      (space : Text) (c : ℕ) (w rest : Text) (s : Lexer) (before : Text) (fuel : ℕ)
      → all is_whitespace space ≡ true
      → is_id_start c ≡ true
      → all is_id_continue w ≡ true
      → begins is_id_continue rest ≡ false
      → begins_byte (c ∷ w ++ rest) ≡ false
      → s.has_fatal_error ≡ false
      → At s before (space ++ (c ∷ w ++ rest))
      → advance_token is_combining_mark (suc fuel) s
        ≡ (done (some (name_token (len (before ++ space)) (c ∷ w))), ahead s (len (space ++ c ∷ w)))
  advance_token-name_kind space c w rest s before fuel blank b h n lit calm there =
      let k = name_kind (ident_is_keyword (c ∷ w)) (c ∷ w) in
      let u = ahead s (len space) in
      let t = ahead u (len (c ∷ w)) in
      let here = At-ahead s before space (c ∷ w ++ rest) there in
      advance_token-skip_trivia is_combining_mark fuel s u (before ++ space) c (w ++ rest)
        (skip_trivia-space space c (w ++ rest) s before blank (start-is_whitespace c b)
          (start-other c b'/' b (omega arith)) there)
        here
      ∙ bind_done (lex_char is_combining_mark (tree_loop is_combining_mark fuel) u.offset c) _ (
          ap (λ m. m (ahead u (len_utf8 c)))
            (lex_char-At (tree_loop is_combining_mark fuel) u.offset c b)
          ∙ word-At c w rest u (before ++ space) b h n lit here)
      ∙ finish-lexed is_combining_mark (advance_token is_combining_mark fuel) u.offset
          (u.offset + len w) k t calm (omega (arith, len-cons c w, start-len_utf8 c b))
          (ground arith)
      ∙ ap
          (λ (o : ℕ).
            (done (some (record { kind = k; span = record { start = o; end = o + len w } })), t))
          here.place
      ∙ ap
          (λ (o : ℕ). (
            done (
                some
                  (record { kind = k; span = record { start = len (before ++ space); end = o } })),
            t,
          ))
          (omega (arith, len-cons c w, start-len_utf8 c b))
      ∙ ap
          (λ (o : ℕ).
            (done (some (name_token (len (before ++ space)) (c ∷ w))), record s { offset = o }))
          (omega (arith, len-append space (c ∷ w)))
