-- ===== src/Lexer/At.antt =====
-- compiler/hash-lexer/src/lib.rs: what the steps over the source do at a place between two parts of it.
use hashc.Prelude.{
  ℕ, zero, suc, ◌+◌, ◌-◌, ◌<◌, ◌≡◌, refl, sym, ap, ◌∙◌, subst, Bool, true, Bool-cases, none, some,
  [], ◌∷◌, ◌++◌, append_assoc, leb, ◌==◌, get_elem?, inl, inr, arith,
}
use hashc.Lexer.Text.{Text, len, len_utf8, suffix, prefix, slice, take_while}
use hashc.Lexer.State.{
  Lexer, done, Lex, continue, ◌>>=◌, or_eof, or_undefined, next_of, as_slice, nth_char, peek,
  peek_second, next, is_eof, eat_while_and_discard, advance, pure, modify, gets,
}

pub len_utf8-pos : (c : ℕ) → 0 < len_utf8 c
unfolding len_utf8
len_utf8-pos c = ground arith

pub len-append : (xs ys : Text) → len (xs ++ ys) ≡ len xs + len ys
unfolding len
len-append [] ys = omega arith
len-append (x ∷ xs) ys = omega (arith, len-append xs ys)

suffix-cons : (n c : ℕ) (cs : Text) → suffix (len_utf8 c + n) (c ∷ cs) ≡ suffix n cs
unfolding suffix
suffix-cons n c cs = step (len_utf8 c + n) refl
  where
    step : (m : ℕ) → m ≡ len_utf8 c + n → suffix m (c ∷ cs) ≡ suffix n cs
    step zero e = absurd (omega (arith, e, len_utf8-pos c))
    step (suc m) e =
        let fits : leb (len_utf8 c) (suc m) ≡ true = ground (arith, e) in
        let rest : suc m - len_utf8 c ≡ n = omega (arith, e) in rw (fits, rest) refl

suffix-zero : (cs : Text) → suffix 0 cs ≡ some cs
unfolding suffix
suffix-zero cs = refl

pub suffix-append : (xs ys : Text) → suffix (len xs) (xs ++ ys) ≡ some ys
unfolding len
suffix-append [] ys = suffix-zero ys
suffix-append (x ∷ xs) ys = suffix-cons (len xs) x (xs ++ ys) ∙ suffix-append xs ys

prefix-cons :
    (n c : ℕ) (cs ds : Text)
    → prefix n cs ≡ some ds
    → prefix (len_utf8 c + n) (c ∷ cs) ≡ some (c ∷ ds)
unfolding prefix
prefix-cons n c cs ds h = step (len_utf8 c + n) refl
  where
    step : (m : ℕ) → m ≡ len_utf8 c + n → prefix m (c ∷ cs) ≡ some (c ∷ ds)
    step zero e = absurd (omega (arith, e, len_utf8-pos c))
    step (suc m) e =
        let fits : leb (len_utf8 c) (suc m) ≡ true = ground (arith, e) in
        let rest : suc m - len_utf8 c ≡ n = omega (arith, e) in rw (fits, rest, h) refl

prefix-zero : (cs : Text) → prefix 0 cs ≡ some []
unfolding prefix
prefix-zero cs = refl

pub prefix-append : (xs ys : Text) → prefix (len xs) (xs ++ ys) ≡ some xs
unfolding len
prefix-append [] ys = prefix-zero ys
prefix-append (x ∷ xs) ys = prefix-cons (len xs) x (xs ++ ys) xs (prefix-append xs ys)

pub slice-append : (xs ys zs : Text) → slice (xs ++ (ys ++ zs)) (len xs) (len xs + len ys) ≡ some ys
unfolding slice
slice-append xs ys zs =
    let ordered : leb (len xs) (len xs + len ys) ≡ true = ground arith in
    let size : len xs + len ys - len xs ≡ len ys = omega arith in
    rw (ordered, size, suffix-append xs (ys ++ zs)) (prefix-append ys zs)

-- The source is `before` and then `rest`, and the offset stands between them.
pub record At (s : Lexer) (before rest : Text) : Type 0 where
  pub split : s.contents ≡ before ++ rest
  pub place : s.offset ≡ len before

-- The state after `n` more bytes.
abbrev pub ahead : Lexer → ℕ → Lexer
ahead s n = record s { offset = s.offset + n }

pub At-ahead :
    (s : Lexer) (before w rest : Text)
    → At s before (w ++ rest)
    → At (ahead s (len w)) (before ++ w) rest
At-ahead s before w rest h = record {
  split = h.split ∙ sym (append_assoc before w rest);
  place = ap (λ n. n + len w) h.place ∙ sym (len-append before w);
}

pub len-one : (c : ℕ) → len (c ∷ []) ≡ len_utf8 c
unfolding len
len-one c = omega arith

pub At-next :
    (s : Lexer) (before : Text) (c : ℕ) (rest : Text)
    → At s before (c ∷ rest)
    → At (ahead s (len_utf8 c)) (before ++ c ∷ []) rest
At-next s before c rest h =
    subst (λ n. At (ahead s n) (before ++ c ∷ []) rest) (len-one c)
      (At-ahead s before (c ∷ []) rest h)

pub bind_done :
    {A B : Type 0} (m : Lex A) (f : A → Lex B) {a : A} {s s' : Lexer}
    → m s ≡ (done a, s')
    → (m >>= f) s ≡ f a s'
bind_done m f e = ap (λ p. continue p.0 f p.1) e

module _ (s : Lexer) (before rest : Text) (h : At s before rest) where
  pub as_slice-At : as_slice s ≡ (done rest, s)
  unfolding as_slice
  as_slice-At =
      ap (λ o. or_undefined o s)
        (ap (λ n. suffix n s.contents) h.place
          ∙ ap (suffix (len before)) h.split
          ∙ suffix-append before rest)

  pub nth_char-At : (n : ℕ) → nth_char n s ≡ (done (or_eof (get_elem? rest n)), s)
  unfolding nth_char pure
  nth_char-At n = bind_done as_slice _ as_slice-At

  pub peek-At : peek s ≡ (done (or_eof (get_elem? rest 0)), s)
  unfolding peek
  peek-At = nth_char-At 0

  pub peek_second-At : peek_second s ≡ (done (or_eof (get_elem? rest 1)), s)
  unfolding peek_second
  peek_second-At = nth_char-At 1

  pub eof-At : is_eof s ≡ (done (len rest == 0), s)
  unfolding is_eof gets
  eof-At = ap (λ b. (done b, s)) same
    where
      same : (len s.contents == s.offset) ≡ (len rest == 0)
      same = ground (arith, ap len h.split ∙ len-append before rest, h.place)

pub next-At :
    (s : Lexer) (before : Text) (c : ℕ) (rest : Text)
    → At s before (c ∷ rest)
    → next s ≡ (done (some c), ahead s (len_utf8 c))
unfolding next advance pure modify
next-At s before c rest h = bind_done as_slice next_of (as_slice-At s before (c ∷ rest) h)

pub next-end : (s : Lexer) (before : Text) → At s before [] → next s ≡ (done none, s)
unfolding next pure
next-end s before h = bind_done as_slice next_of (as_slice-At s before [] h)

take_while-nil : (p : ℕ → Bool) (cs : Text) → (len cs == 0) ≡ true → len (take_while p cs) ≡ 0
unfolding len take_while
take_while-nil p [] h = refl
take_while-nil p (c ∷ cs) h = absurd (ground (arith, len_utf8-pos c))

pub eat-At :
    (p : ℕ → Bool) (s : Lexer) (before rest : Text)
    → At s before rest
    → eat_while_and_discard p s ≡ (done tt, ahead s (len (take_while p rest)))
unfolding eat_while_and_discard pure advance modify
eat-At p s before rest h =
    bind_done is_eof _ (eof-At s before rest h) ∙ elim (Bool-cases (len rest == 0)) [
      | inl e ↦ rw e (stay _ (take_while-nil p rest e))
      | inr e ↦ rw e (bind_done as_slice _ (as_slice-At s before rest h))
    ]
  where
    stay : (n : ℕ) → n ≡ 0 → pure tt s ≡ (done tt, ahead s n)
    stay n e = ap (λ (o : ℕ). (done tt, record s { offset = o })) (omega (arith, e))
