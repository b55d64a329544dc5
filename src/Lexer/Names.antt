-- ===== src/Lexer/Names.antt =====
-- compiler/hash-lexer/src/lib.rs: the tokens of a source that is made of names.
use hashc.Prelude.{
  ℕ, zero, suc, ◌+◌, ◌<◌, ◌≡◌, refl, sym, ap, ◌∙◌, subst, Bool, true, false, none, some, List, [],
  ◌∷◌, ◌++◌, append_assoc, append-nil, ◌==◌, get_elem?, length, arith,
}
use hashc.Prelude.Bytes.{All}
use hashc.Lexer.Text.{Text, len, is_id_start, is_id_continue, is_whitespace}
use hashc.Lexer.Token.{Token}
use hashc.Lexer.State.{
  Lexer, done, pure, gets, modify, get_offset, push_token, or_eof, peek, peek_second, next, new,
}
use hashc.Lexer.Trivia.{skip_trivia}
use hashc.Lexer.Tokens.{next_token, advance_token, token_loop, strip_shebang, tokenise}
use hashc.Lexer.At.{At, At-ahead, ahead, bind_done, peek-At, peek_second-At, next-end, len-append}
use hashc.Lexer.Comment.{and-left}
use hashc.Lexer.Word.{all, begins, begins_byte, name_token, advance_token-name_kind}

-- A name and the white space before it.
pub record Name : Type 0 where
  pub space : Text
  pub first : ℕ
  pub more : Text

pub record IsName (n : Name) : Type 0 where
  pub blank : all is_whitespace n.space ≡ true
  pub apart : begins is_whitespace n.space ≡ true
  pub starts : is_id_start n.first ≡ true
  pub continues : all is_id_continue n.more ≡ true

abbrev pub written : Name → Text
written n = n.space ++ n.first ∷ n.more

unfoldable pub source_of : List Name → Text
source_of [] = []
source_of (n ∷ ns) = n.space ++ (n.first ∷ n.more ++ source_of ns)

-- The tokens of names that begin at an offset.
unfoldable pub tokens_from_names : ℕ → List Name → List Token
tokens_from_names o [] = []
tokens_from_names o (n ∷ ns) =
    name_token (o + len n.space) (n.first ∷ n.more) ∷ tokens_from_names (o + len (written n)) ns

advance_token-end :
    (is_combining_mark : ℕ → Bool) (fuel : ℕ) (s : Lexer) (before : Text)
    → At s before (source_of [])
    → advance_token is_combining_mark (suc fuel) s ≡ (done none, s)
unfolding advance_token next_token gets get_offset skip_trivia pure is_whitespace source_of
advance_token-end is_combining_mark fuel s before there =
    bind_done (skip_trivia (suc (len s.contents))) _ (bind_done peek _ (peek-At s before [] there))
    ∙ bind_done next _ (next-end s before there)

space-is_id_continue : (c : ℕ) → is_whitespace c ≡ true → is_id_continue c ≡ false
unfolding is_whitespace is_id_continue
space-is_id_continue c h = ground (arith, h)

space-pound : (c : ℕ) → is_whitespace c ≡ true → (c == b'#') ≡ false
unfolding is_whitespace
space-pound c h = ground (arith, h)

space-quote : (c : ℕ) → is_whitespace c ≡ true → (c == b'\'') ≡ false
unfolding is_whitespace
space-quote c h = ground (arith, h)

continue-quote : (c : ℕ) → is_id_continue c ≡ true → (c == b'\'') ≡ false
unfolding is_id_continue
continue-quote c h = ground (arith, h)

begins-append :
    (p q : ℕ → Bool) (xs ys : Text)
    → ((c : ℕ) → p c ≡ true → q c ≡ false)
    → begins p xs ≡ true
    → begins q (xs ++ ys) ≡ false
unfolding begins
begins-append p q [] ys k h = absurd (ground (arith, h))
begins-append p q (x ∷ xs) ys k h = k x h

-- White space follows a name, or nothing.
source-begins :
    (q : ℕ → Bool) (ns : List Name)
    → ((c : ℕ) → is_whitespace c ≡ true → q c ≡ false)
    → All IsName ns
    → begins q (source_of ns) ≡ false
unfolding begins source_of
source-begins q [] k h = refl
source-begins q (n ∷ ns) k (a, h) =
    begins-append is_whitespace q n.space (n.first ∷ n.more ++ source_of ns) k a.apart

abbrev is_quote : ℕ → Bool
is_quote c = c == b'\''

more-is_quote :
    (w : Text) (ns : List Name)
    → all is_id_continue w ≡ true
    → All IsName ns
    → begins is_quote (w ++ source_of ns) ≡ false
unfolding begins all
more-is_quote [] ns a h = source-begins is_quote ns space-quote h
more-is_quote (c ∷ w) ns a h =
    continue-quote c (and-left (is_id_continue c) (all is_id_continue w) a)

peek-begins :
    (d : ℕ) (t : Text)
    → 0 < d
    → begins (λ c. c == d) t ≡ false
    → (or_eof (get_elem? t 0) == d) ≡ false
unfolding begins
peek-begins d [] lt h = ground (arith, lt)
peek-begins d (c ∷ t) lt h = h

start_lem : (t : Text) → At (new t) [] t
unfolding new len
start_lem t = record { split = refl; place = refl }

source-begins_byte :
    (n : Name) (ns : List Name)
    → IsName n
    → All IsName ns
    → begins_byte (n.first ∷ n.more ++ source_of ns) ≡ false
unfolding begins_byte
source-begins_byte n ns a h = ground (
  arith,
  peek-begins b'\'' (n.more ++ source_of ns) (omega arith) (more-is_quote n.more ns a.continues h),
)

-- The state once the names are read.
abbrev read_names : Lexer → List Name → Lexer
read_names s ns = record s {
  offset = s.offset + len (source_of ns);
  tokens = s.tokens ++ tokens_from_names s.offset ns;
}

read-nil : (s : Lexer) → s ≡ read_names s []
unfolding source_of tokens_from_names len
read-nil s =
    ap (λ (o : ℕ). record s { offset = o }) (omega arith)
    ∙ ap (λ ts. record s { offset = s.offset + 0; tokens = ts }) (sym (append-nil s.tokens))

written-source : (n : Name) (ns : List Name) → written n ++ source_of ns ≡ source_of (n ∷ ns)
unfolding source_of
written-source n ns = append_assoc n.space (n.first ∷ n.more) (source_of ns)

-- The state behind the first name, and then behind the rest.
abbrev read_name : Lexer → Name → Lexer
read_name s n = record s {
  offset = s.offset + len (written n);
  tokens = s.tokens ++ name_token (s.offset + len n.space) (n.first ∷ n.more) ∷ [];
}

read-cons :
    (s : Lexer) (n : Name) (ns : List Name) → read_names (read_name s n) ns ≡ read_names s (n ∷ ns)
unfolding tokens_from_names
read-cons s n ns =
    ap
      (λ (o : ℕ). record s {
        offset = o;
        tokens = (read_name s n).tokens ++ tokens_from_names (s.offset + len (written n)) ns;
      })
      (omega (arith, ap len (written-source n ns), len-append (written n) (source_of ns)))
    ∙ ap (λ ts. record s { offset = s.offset + len (source_of (n ∷ ns)); tokens = ts })
        (append_assoc s.tokens (name_token (s.offset + len n.space) (n.first ∷ n.more) ∷ [])
          (tokens_from_names (s.offset + len (written n)) ns))

module _ (is_combining_mark : ℕ → Bool) where
  advance_token-name :
      (n : Name) (ns : List Name) (fuel : ℕ) (s : Lexer) (before : Text)
      → IsName n
      → All IsName ns
      → s.has_fatal_error ≡ false
      → At s before (source_of (n ∷ ns))
      → advance_token is_combining_mark (suc fuel) s ≡ (
        done (some (name_token (s.offset + len n.space) (n.first ∷ n.more))),
        ahead s (len (written n)),
      )
  unfolding source_of
  advance_token-name n ns fuel s before a h calm there =
      advance_token-name_kind is_combining_mark n.space n.first n.more (source_of ns) s before fuel
        a.blank a.starts a.continues (source-begins is_id_continue ns space-is_id_continue h)
        (source-begins_byte n ns a h) calm there
      ∙ ap (λ (o : ℕ). (done (some (name_token o (n.first ∷ n.more))), ahead s (len (written n))))
          (omega (arith, there.place, len-append before n.space))

  token_loop-names :
      (ns : List Name) (fuel : ℕ) (s : Lexer) (before : Text)
      → suc (length ns) < fuel
      → All IsName ns
      → s.has_fatal_error ≡ false
      → At s before (source_of ns)
      → token_loop is_combining_mark fuel s ≡ (done tt, read_names s ns)
  unfolding token_loop push_token modify pure
  token_loop-names ns zero s before lt h calm there = absurd (omega (arith, lt))
  token_loop-names ns (suc zero) s before lt h calm there = absurd (omega (arith, lt))
  token_loop-names [] (suc (suc fuel)) s before lt h calm there =
      bind_done (advance_token is_combining_mark (suc fuel)) _
        (advance_token-end is_combining_mark fuel s before there)
      ∙ ap (λ t. (done tt, t)) (read-nil s)
  token_loop-names (n ∷ ns) (suc (suc fuel)) s before lt (a, h) calm there =
      let there' =
        At-ahead s before (written n) (source_of ns)
          (subst (At s before) (sym (written-source n ns)) there) in
      bind_done (advance_token is_combining_mark (suc fuel)) _
        (advance_token-name n ns fuel s before a h calm there)
      ∙ token_loop-names ns (suc fuel) (read_name s n) (before ++ written n) (omega (arith, lt)) h
          calm (record { split = there'.split; place = there'.place })
      ∙ ap (λ t. (done tt, t)) (read-cons s n ns)

  strip_shebang-names :
      (ns : List Name) (s : Lexer) (before : Text)
      → All IsName ns
      → At s before (source_of ns)
      → strip_shebang is_combining_mark s ≡ (done tt, s)
  unfolding strip_shebang pure
  strip_shebang-names ns s before h there =
      let other : (or_eof (get_elem? (source_of ns) 0) == b'#') ≡ false =
        peek-begins b'#' (source_of ns) (omega arith)
          (source-begins (λ c. c == b'#') ns space-pound h) in
      bind_done peek _ (peek-At s before (source_of ns) there)
      ∙ bind_done peek_second _ (peek_second-At s before (source_of ns) there)
      ∙ rw other refl

  -- A source that is a sequence of names with white space before each gives the tokens of these
  -- names, in order, with their keywords told apart and their places in the source as spans, and
  -- nothing else: no error, and the whole source is read. The rounds it takes are two more than the names.
  pub tokenise-tokens_from_names :
      (ns : List Name) (fuel : ℕ)
      → suc (length ns) < fuel
      → All IsName ns
      → tokenise is_combining_mark fuel (source_of ns) ≡ (
        done tt,
        record (new (source_of ns)) {
          offset = len (source_of ns);
          tokens = tokens_from_names 0 ns;
        },
      )
  unfolding tokenise new
  tokenise-tokens_from_names ns fuel lt h =
      let s = new (source_of ns) in
      let start = start_lem (source_of ns) in
      bind_done (strip_shebang is_combining_mark) _ (strip_shebang-names ns s [] h start)
      ∙ token_loop-names ns fuel s [] lt h refl start
      ∙ ap (λ (o : ℕ). (done tt, record s { offset = o; tokens = tokens_from_names 0 ns }))
          (omega arith)
