-- ===== src/Lexer/Unclosed.antt =====
-- compiler/hash-lexer/src/lib.rs: a delimiter that the end of the source leaves open.
use hashc.Prelude.{
  ℕ, zero, suc, ◌+◌, ◌-◌, ◌≡◌, ◌≢◌, refl, ap, ◌∙◌, Bool, true, false, none, some, [], ◌∷◌, ◌++◌,
  length, ◌==◌, leb, if◌then◌else◌, arith,
}
use hashc.Lexer.Text.{Text, len, len_utf8, is_whitespace}
use hashc.Lexer.State.{
  Lexer, done, unfinished, continue, Lex, ◌>>=◌, pure, gets, modify, get_offset, minus,
  len_consumed, byte_range, push_token, emit_error, add_error, unclosed, is_eof, runs_out,
  singleton,
}
use hashc.Lexer.Token.{Delimiter, paren, brace, bracket, angle, left, from_left, TokenKind}
use hashc.Lexer.Tokens.{
  open_tree, eat_token_tree, lex_char, symbol, advance_token, tree_loop, stopped, again,
}
use hashc.Lexer.At.{At, ahead, bind_done, len-append}
use hashc.Lexer.Step.{advance_token-lex_char, len_consumed-suc, byte_range-le, if-false}

minus-suc : (a n : ℕ) (s : Lexer) → a ≡ suc n → minus a 1 s ≡ (done n, s)
unfolding minus
minus-suc a n s e =
    let fits : leb 1 a ≡ true = ground (arith, e) in
    let less : a - 1 ≡ n = omega (arith, e) in rw (fits, less) refl

if-true :
    {A : Type 0} (b : Bool) (m n : Lex A) (s : Lexer) → b ≡ true → (if b then m else n) s ≡ m s
if-true b m n s h = ap (λ b. (if b then m else n) s) h

-- The tree's token and the error are left, and the offset is at the delimiter again.
abbrev reported : Lexer → ℕ → Delimiter → Lexer
reported s o d = record s {
  offset = o;
  tokens =
      s.tokens ++ (record { kind = TokenKind.tree d 0; span = record { start = o; end = o } }) ∷ [];
  errors = s.errors ++ (record { kind = unclosed d; span = singleton o }) ∷ [];
}

-- What reads the tokens of the tree has nothing to do.
abbrev Idle : Lex (Unit {0}) → ℕ → Text → Type 0
Idle inner o cs = (u : Lexer) → u.offset ≡ o → u.contents ≡ cs → inner u ≡ (done tt, u)

open_tree-reported :
    (inner : Lex (Unit {0})) (s : Lexer) (o : ℕ) (d : Delimiter)
    → s.has_fatal_error ≡ false
    → s.offset ≡ suc o
    → Idle inner s.offset s.contents
    → open_tree inner o d s ≡ (done again, reported s o d)
unfolding open_tree eat_token_tree get_offset gets modify pure push_token emit_error add_error
open_tree-reported inner s o d calm e idle =
    let opened = record s {
      tokens =
          s.tokens
          ++ (record { kind = TokenKind.tree d 0; span = record { start = o; end = o } }) ∷ [];
    } in
    let within = record opened {
      tree = some (record { start = length opened.tokens; delimiter = none });
    } in
    bind_done len_consumed _ (len_consumed-suc s o e)
    ∙ bind_done (byte_range o o) _ (byte_range-le o o s (ground arith))
    ∙ bind_done (eat_token_tree inner d) _ (
        bind_done (minus s.offset 1) _ (minus-suc s.offset o opened e)
        ∙ bind_done inner _ (idle within refl refl)
        ∙ if-false s.has_fatal_error _ _ opened calm
        ∙ bind_done (minus s.offset 1) _ (minus-suc s.offset o opened e))
    ∙ ap (λ b. (done (if b then stopped else again), reported s o d)) calm

tree_loop-Idle :
    (is_combining_mark : ℕ → Bool) (fuel : ℕ) (cs : Text)
    → Idle (tree_loop is_combining_mark (suc fuel)) (len cs) cs
unfolding tree_loop is_eof gets pure
tree_loop-Idle is_combining_mark fuel cs u e f =
    let over : (len u.contents == u.offset) ≡ true = ground (arith, e, ap len f) in
    if-true (len u.contents == u.offset) _ _ u over

left-lex_char :
    (is_combining_mark : ℕ → Bool) (inner : Lex (Unit {0})) (o : ℕ) (d : Delimiter)
    → d ≢ angle
    → lex_char is_combining_mark inner o (left d) ≡ open_tree inner o d
unfolding lex_char symbol from_left left
left-lex_char is_combining_mark inner o paren n = refl
left-lex_char is_combining_mark inner o brace n = refl
left-lex_char is_combining_mark inner o bracket n = refl
left-lex_char is_combining_mark inner o angle n = absurd (n refl)

left-is_whitespace : (d : Delimiter) → is_whitespace (left d) ≡ false
unfolding is_whitespace left
left-is_whitespace paren = refl
left-is_whitespace brace = refl
left-is_whitespace bracket = refl
left-is_whitespace angle = refl

left-slash : (d : Delimiter) → (left d == b'/') ≡ false
unfolding left
left-slash paren = refl
left-slash brace = refl
left-slash bracket = refl
left-slash angle = refl

left-len_utf8 : (d : Delimiter) → len_utf8 (left d) ≡ 1
unfolding len_utf8 left
left-len_utf8 paren = refl
left-len_utf8 brace = refl
left-len_utf8 bracket = refl
left-len_utf8 angle = refl

bind_unfinished :
    {A B : Type 0} (m : Lex A) (f : A → Lex B) (s : Lexer)
    → (m s).0 ≡ unfinished
    → ((m >>= f) s).0 ≡ unfinished
bind_unfinished m f s e = ap (λ r. (continue r f (m s).1).0) e

open_tree-unfinished :
    (inner : Lex (Unit {0})) (s : Lexer) (o : ℕ) (d : Delimiter)
    → s.offset ≡ suc o
    → ((u : Lexer) → (inner u).0 ≡ unfinished)
    → (open_tree inner o d s).0 ≡ unfinished
unfolding open_tree eat_token_tree get_offset gets modify pure push_token
open_tree-unfinished inner s o d e never =
    let opened = record s {
      tokens =
          s.tokens
          ++ (record { kind = TokenKind.tree d 0; span = record { start = o; end = o } }) ∷ [];
    } in
    let within = record opened {
      tree = some (record { start = length opened.tokens; delimiter = none });
    } in
    ap (λ p. p.0)
      (bind_done len_consumed _ (len_consumed-suc s o e)
        ∙ bind_done (byte_range o o) _ (byte_range-le o o s (ground arith)))
    ∙ bind_unfinished (eat_token_tree inner d) _ opened (
        ap (λ p. p.0) (bind_done (minus s.offset 1) _ (minus-suc s.offset o opened e))
        ∙ bind_unfinished inner _ within (never within))

never :
    (is_combining_mark : ℕ → Bool) (s : Lexer)
    → (advance_token is_combining_mark zero s).0 ≡ unfinished
unfolding advance_token runs_out
never is_combining_mark s = refl

behind : (s : Lexer) (d : Delimiter) → s.offset + len_utf8 (left d) ≡ suc s.offset
behind s d = omega (arith, left-len_utf8 d)

at_end :
    (s : Lexer) (before : Text) (d : Delimiter)
    → At s before (left d ∷ [])
    → s.offset + len_utf8 (left d) ≡ len s.contents
unfolding len
at_end s before d there =
    omega (arith, there.place, ap len there.split ∙ len-append before (left d ∷ []))

-- `advance_token` never returns where the source's last character is an opening delimiter and the
-- offset stands at it: with any number of rounds it is not finished.
pub advance_token-unfinished :
    (is_combining_mark : ℕ → Bool) (d : Delimiter) (fuel : ℕ) (s : Lexer) (before : Text)
    → d ≢ angle
    → s.has_fatal_error ≡ false
    → At s before (left d ∷ [])
    → (advance_token is_combining_mark fuel s).0 ≡ unfinished
unfolding tree_loop runs_out
advance_token-unfinished is_combining_mark d zero s before n calm there = never is_combining_mark s
advance_token-unfinished is_combining_mark d (suc zero) s before n calm there =
    ap (λ p. p.0)
      (advance_token-lex_char is_combining_mark zero s before (left d) [] (left-is_whitespace d)
        (left-slash d) there)
    ∙ bind_unfinished
        (lex_char is_combining_mark (tree_loop is_combining_mark zero) s.offset (left d)) _
        (ahead s (len_utf8 (left d)))
        (ap (λ m. (m (ahead s (len_utf8 (left d)))).0)
            (left-lex_char is_combining_mark (tree_loop is_combining_mark zero) s.offset d n)
          ∙ open_tree-unfinished (tree_loop is_combining_mark zero) (ahead s (len_utf8 (left d)))
              s.offset d (behind s d) (λ u. refl))
advance_token-unfinished is_combining_mark d (suc (suc fuel)) s before n calm there =
    let t = ahead s (len_utf8 (left d)) in
    ap (λ p. p.0)
      (advance_token-lex_char is_combining_mark (suc fuel) s before (left d) []
          (left-is_whitespace d) (left-slash d) there
        ∙ bind_done
            (lex_char is_combining_mark (tree_loop is_combining_mark (suc fuel)) s.offset (left d))
            _
            (ap (λ m. m t)
                (left-lex_char is_combining_mark (tree_loop is_combining_mark (suc fuel)) s.offset d
                  n)
              ∙ open_tree-reported (tree_loop is_combining_mark (suc fuel)) t s.offset d calm
                  (behind s d)
                  (λ u e f.
                    tree_loop-Idle is_combining_mark fuel s.contents u (e ∙ at_end s before d there)
                      f)))
    ∙ advance_token-unfinished is_combining_mark d (suc fuel) (reported t s.offset d) before n calm
        (record { split = there.split; place = there.place })
