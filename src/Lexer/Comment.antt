-- ===== src/Lexer/Comment.antt =====
-- compiler/hash-lexer/src/lib.rs: block comments nest, and where one ends.
use hashc.Prelude.{
  ℕ, zero, suc, ◌+◌, ◌-◌, ◌<◌, ◌≡◌, refl, sym, ap, ◌∙◌, subst, Bool, true, false, Bool-cases, ◌&&◌,
  [], ◌∷◌, ◌++◌, append_assoc, ◌==◌, if◌then◌else◌, get_elem?, inl, inr, arith,
}
use hashc.Lexer.Text.{Text, len, len_utf8}
use hashc.Lexer.State.{
  Lexer, Ran, done, Lex, ◌>>=◌, or_eof, next, peek, skip_ascii, advance, pure, modify, gets,
}
use hashc.Lexer.Trivia.{comment_step, comment_loop, block_comment}
use hashc.Lexer.At.{
  At, At-ahead, At-next, len-one, ahead, bind_done, next-At, next-end, peek-At, len_utf8-pos,
  len-append,
}

-- What follows a comment in a text that starts inside it, at a depth.
unfoldable pub comment_rest : ℕ → Text → Text
comment_rest depth [] = []
comment_rest depth (c ∷ []) = []
comment_rest depth (c ∷ d ∷ cs) =
    if c == b'/' && d == b'*'
    then comment_rest (suc depth) cs
    else if c == b'*' && d == b'/'
    then (if depth == 1 then cs else comment_rest (depth - 1) cs)
    else comment_rest depth (d ∷ cs)

-- The lexer went over the text up to `rest`.
pub record Ate (w rest : Text) (s : Lexer) (m : Ran (Unit {0}) × Lexer) : Type 0 where
  pub eaten : Text
  pub split : w ≡ eaten ++ rest
  pub result : m ≡ (done tt, ahead s (len eaten))

ahead-add : (s : Lexer) (a b : ℕ) → ahead (ahead s a) b ≡ ahead s (a + b)
ahead-add s a b = ap (λ (o : ℕ). record s { offset = o }) (omega arith)

-- More of the text in front.
Ate-append :
    (v w rest : Text) (s : Lexer) (m : Ran (Unit {0}) × Lexer)
    → Ate w rest (ahead s (len v)) m
    → Ate (v ++ w) rest s m
Ate-append v w rest s m h = record {
  eaten = v ++ h.eaten;
  split = ap (λ t. v ++ t) h.split ∙ sym (append_assoc v h.eaten rest);
  result =
      h.result
      ∙ ap (λ t. (done tt, t))
          (ahead-add s (len v) (len h.eaten) ∙ ap (ahead s) (sym (len-append v h.eaten)));
}

step_lem :
    (fuel depth : ℕ) (s : Lexer) (before : Text) (c : ℕ) (cs : Text)
    → At s before (c ∷ cs)
    → comment_loop (suc fuel) depth s
      ≡ comment_step (comment_loop fuel) depth c (or_eof (get_elem? cs 0)) (ahead s (len_utf8 c))
unfolding comment_loop
step_lem fuel depth s before c cs h =
    bind_done next _ (next-At s before c cs h)
    ∙ bind_done peek _
        (peek-At (ahead s (len_utf8 c)) (before ++ c ∷ []) cs (At-next s before c cs h))

abbrev opens : ℕ → ℕ → Bool
opens c d = c == b'/' && d == b'*'

abbrev closes : ℕ → ℕ → Bool
closes c d = c == b'*' && d == b'/'

pub and-left : (a b : Bool) → (a && b) ≡ true → a ≡ true
and-left true b h = refl
and-left false b h = h

pub and-right : (a b : Bool) → (a && b) ≡ true → b ≡ true
and-right true b h = h
and-right false b h = absurd (ground arith)

ascii_len : (c : ℕ) → c < 0x80 → len_utf8 c ≡ 1
unfolding len_utf8
ascii_len c h = ground arith

skip-At :
    (s : Lexer) (before : Text) (d : ℕ) (cs : Text)
    → d < 0x80
    → At s before (d ∷ cs)
    → (skip_ascii s ≡ (done tt, ahead s (len (d ∷ []))))
      × At (ahead s (len (d ∷ []))) (before ++ d ∷ []) cs
unfolding skip_ascii advance modify
skip-At s before d cs h a = (
  ap (λ (n : ℕ). (done tt, ahead s n)) (sym (len-one d ∙ ascii_len d h)),
  At-ahead s before (d ∷ []) cs a,
)

-- One character more in front.
Ate-cons :
    (c : ℕ) (w rest : Text) (s : Lexer) (m : Ran (Unit {0}) × Lexer)
    → Ate w rest (ahead s (len_utf8 c)) m
    → Ate (c ∷ w) rest s m
Ate-cons c w rest s m h =
    Ate-append (c ∷ []) w rest s m (subst (λ n. Ate w rest (ahead s n) m) (sym (len-one c)) h)

pub len-cons : (c : ℕ) (cs : Text) → len (c ∷ cs) ≡ len_utf8 c + len cs
unfolding len
len-cons c cs = refl

-- Nothing is left to read.
Ate-nil : (s : Lexer) (m : Ran (Unit {0}) × Lexer) → m ≡ (done tt, s) → Ate [] [] s m
unfolding len
Ate-nil s m h = record {
  eaten = [];
  split = refl;
  result = h ∙ ap (λ (o : ℕ). (done tt, record s { offset = o })) (omega arith);
}

-- The comment ends before `rest`.
Ate-here :
    (rest : Text) (s : Lexer) (m : Ran (Unit {0}) × Lexer) → m ≡ (done tt, s) → Ate rest rest s m
unfolding len
Ate-here rest s m h = record {
  eaten = [];
  split = refl;
  result = h ∙ ap (λ (o : ℕ). (done tt, record s { offset = o })) (omega arith);
}

end_lem :
    (fuel depth : ℕ) (s : Lexer) (before : Text)
    → At s before []
    → comment_loop (suc fuel) depth s ≡ (done tt, s)
unfolding comment_loop pure
end_lem fuel depth s before h = bind_done next _ (next-end s before h)

-- A second character of one byte is skipped.
Ate-skip :
    (s : Lexer) (before : Text) (d : ℕ) (cs rest : Text) (m : Lex (Unit {0}))
    → d < 0x80
    → At s before (d ∷ cs)
    → Ate cs rest (ahead s (len (d ∷ []))) (m (ahead s (len (d ∷ []))))
    → Ate (d ∷ cs) rest s ((skip_ascii >>= λ _. m) s)
Ate-skip s before d cs rest m ascii h ate =
    rw (bind_done skip_ascii (λ _. m) (skip-At s before d cs ascii h).0)
      (Ate-append (d ∷ []) cs rest s _ ate)

one_lem :
    (fuel depth : ℕ) (s : Lexer) (before : Text) (c : ℕ)
    → 0 < fuel
    → At s before []
    → comment_step (comment_loop fuel) depth c 0 s ≡ (done tt, s)
one_lem zero depth s before c lt h = absurd (omega arith)
one_lem (suc fuel) depth s before c lt h =
    let a : opens c 0 ≡ false = ground arith in
    let b : closes c 0 ≡ false = ground arith in rw (a, b) (end_lem fuel depth s before h)

opened_ascii : (c d : ℕ) → opens c d ≡ true → d < 0x80
opened_ascii c d e = ground (arith, and-right (c == b'/') (d == b'*') e)

closed_ascii : (c d : ℕ) → closes c d ≡ true → d < 0x80
closed_ascii c d e = ground (arith, and-right (c == b'*') (d == b'/') e)

loop-Ate :
    (fuel depth : ℕ) (s : Lexer) (before w : Text)
    → len w < fuel
    → At s before w
    → Ate w (comment_rest depth w) s (comment_loop fuel depth s)
unfolding comment_rest pure
loop-Ate zero depth s before w lt h = absurd (omega arith)
loop-Ate (suc fuel) depth s before [] lt h = Ate-here [] s _ (end_lem fuel depth s before h)
loop-Ate (suc fuel) depth s before (c ∷ []) lt h =
    let h' = At-next s before c [] h in
    let enough : 0 < fuel = omega (arith, lt, len-cons c [], len_utf8-pos c) in
    Ate-cons c [] [] s _ (
      rw (step_lem fuel depth s before c [] h) (
        Ate-here [] (ahead s (len_utf8 c)) _
          (one_lem fuel depth (ahead s (len_utf8 c)) (before ++ c ∷ []) c enough h')))
loop-Ate (suc fuel) depth s before (c ∷ d ∷ cs) lt h =
    let h' = At-next s before c (d ∷ cs) h in
    let t = ahead s (len_utf8 c) in
    let u = ahead t (len (d ∷ [])) in
    let seen = (before ++ c ∷ []) ++ d ∷ [] in
    let enough : len (d ∷ cs) < fuel = omega (arith, lt, len-cons c (d ∷ cs), len_utf8-pos c) in
    let after : len cs < fuel = omega (arith, enough, len-cons d cs, len_utf8-pos d) in
    let there : At u seen cs = At-ahead t (before ++ c ∷ []) (d ∷ []) cs h' in
    Ate-cons c (d ∷ cs) (comment_rest depth (c ∷ d ∷ cs)) s _ (
      rw (step_lem fuel depth s before c (d ∷ cs) h) (elim (Bool-cases (opens c d)) [
        | inl e ↦ rw e (
            Ate-skip t (before ++ c ∷ []) d cs _ _ (opened_ascii c d e) h'
              (loop-Ate fuel (suc depth) u seen cs after there))
        | inr e ↦ elim (Bool-cases (closes c d)) [
          | inl f ↦
              rw (e, f)
                (Ate-skip t (before ++ c ∷ []) d cs _ _ (closed_ascii c d f) h'
                  (elim (Bool-cases (depth == 1)) [
                    | inl g ↦ rw g (Ate-here cs u _ refl)
                    | inr g ↦ rw g (loop-Ate fuel (depth - 1) u seen cs after there)
                  ]))
          | inr f ↦ rw (e, f) (loop-Ate fuel depth t (before ++ c ∷ []) (d ∷ cs) enough h')
        ]
      ]))

-- A block comment whose slash is read at a place of the source always ends, without running out of
-- fuel or reading outside the source. It goes over exactly the text that `comment_rest` takes from
-- behind the slash, at depth one, and changes nothing but the offset.
pub block_comment-Ate :
    (s : Lexer) (before w : Text)
    → At s before (b'/' ∷ w)
    → Ate (b'/' ∷ w) (comment_rest 1 w) s (block_comment s)
unfolding block_comment gets
block_comment-Ate s before w h =
    Ate-skip s before b'/' w (comment_rest 1 w)
      (gets (λ s. suc (len s.contents)) >>= λ fuel. comment_loop fuel 1) (ground arith) h
      (loop-Ate (suc (len s.contents)) 1 (ahead s (len (b'/' ∷ []))) (before ++ b'/' ∷ []) w
        (omega (arith, ap len h.split ∙ len-append before (b'/' ∷ w), len-cons b'/' w))
        (At-ahead s before (b'/' ∷ []) w h))
