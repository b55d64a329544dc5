-- ===== src/Lexer/Nested.antt =====
-- compiler/hash-lexer/src/lib.rs: a block comment is skipped whole, with the comments inside it.
use hashc.Prelude.{
  ℕ, zero, suc, ◌-◌, ◌<◌, ◌≡◌, refl, ap, ◌∙◌, Bool, true, false, ◌&&◌, not, [], ◌∷◌, ◌++◌,
  append_assoc, ◌==◌, arith,
}
use hashc.Lexer.Text.{Text, len}
use hashc.Lexer.State.{Lexer, done}
use hashc.Lexer.Trivia.{block_comment}
use hashc.Lexer.At.{At, ahead, len-append}
use hashc.Lexer.Comment.{comment_rest, block_comment-Ate, and-left, and-right}

-- What stands between `/*` and `*/`: characters, and comments.
pub data Body : Type 0 where
  empty : Body
  plain : ℕ → Body → Body
  nested : Body → Body → Body

abbrev comment_end : Text
comment_end = b'*' ∷ b'/' ∷ []

unfoldable pub text : Body → Text
text empty = []
text (plain c b) = c ∷ text b
text (nested a b) = b'/' ∷ b'*' ∷ text a ++ (comment_end ++ text b)

-- The comment itself.
unfoldable pub comment : Body → Text
comment b = b'/' ∷ b'*' ∷ text b ++ comment_end

-- No character is a slash or a star.
unfoldable pub is_plain : Body → Bool
is_plain empty = true
is_plain (plain c b) = (not (c == b'/') && not (c == b'*')) && is_plain b
is_plain (nested a b) = is_plain a && is_plain b

unfoldable pub begins_nested : Body → Bool
begins_nested empty = false
begins_nested (plain c b) = false
begins_nested (nested a b) = true

plain_lem :
    (depth c : ℕ) (t : Text)
    → (not (c == b'/') && not (c == b'*')) ≡ true
    → comment_rest depth (c ∷ t) ≡ comment_rest depth t
unfolding comment_rest
plain_lem depth c [] h = refl
plain_lem depth c (d ∷ t) h =
    let a : (c == b'/') ≡ false = ground (arith, h) in
    let b : (c == b'*') ≡ false = ground (arith, h) in rw (a, b) refl

open_lem :
    (depth : ℕ) (t : Text) → comment_rest depth (b'/' ∷ b'*' ∷ t) ≡ comment_rest (suc depth) t
unfolding comment_rest
open_lem depth t = refl

close_lem :
    (depth : ℕ) (t : Text)
    → 0 < depth
    → comment_rest (suc depth) (b'*' ∷ b'/' ∷ t) ≡ comment_rest depth t
unfolding comment_rest
close_lem zero t h = absurd (omega (arith, h))
close_lem (suc depth) t h =
    let deep : (suc (suc depth) == 1) ≡ false = ground arith in
    let less : suc (suc depth) - 1 ≡ suc depth = omega arith in rw (deep, less) refl

-- A body is gone over at the same depth.
text-comment_rest :
    (b : Body) (depth : ℕ) (t : Text)
    → is_plain b ≡ true
    → 0 < depth
    → comment_rest depth (text b ++ t) ≡ comment_rest depth t
unfolding text is_plain
text-comment_rest empty depth t h lt = refl
text-comment_rest (plain c b) depth t h lt =
    plain_lem depth c (text b ++ t) (and-left (not (c == b'/') && not (c == b'*')) (is_plain b) h)
    ∙ text-comment_rest b depth t (and-right (not (c == b'/') && not (c == b'*')) (is_plain b) h) lt
text-comment_rest (nested a b) depth t h lt =
    open_lem depth ((text a ++ (comment_end ++ text b)) ++ t)
    ∙ ap (comment_rest (suc depth)) (append_assoc (text a) (comment_end ++ text b) t)
    ∙ text-comment_rest a (suc depth) (comment_end ++ (text b ++ t))
        (and-left (is_plain a) (is_plain b) h) (omega arith)
    ∙ close_lem depth (text b ++ t) lt
    ∙ text-comment_rest b depth t (and-right (is_plain a) (is_plain b) h) lt

star_lem :
    (b : Body) (rest : Text)
    → is_plain b ≡ true
    → begins_nested b ≡ false
    → comment_rest 1 (b'*' ∷ text b ++ (comment_end ++ rest))
      ≡ comment_rest 1 (text b ++ (comment_end ++ rest))
unfolding comment_rest text is_plain begins_nested
star_lem empty rest h n = refl
star_lem (plain c b) rest h n =
    let a : (c == b'/') ≡ false =
      ground (arith, and-left (not (c == b'/') && not (c == b'*')) (is_plain b) h) in
    rw a refl
star_lem (nested a b) rest h n = absurd (ground (arith, n))

end_lem : (rest : Text) → comment_rest 1 (comment_end ++ rest) ≡ rest
unfolding comment_rest
end_lem rest = refl

rest_lem :
    (b : Body) (rest : Text)
    → is_plain b ≡ true
    → begins_nested b ≡ false
    → comment_rest 1 (b'*' ∷ (text b ++ comment_end) ++ rest) ≡ rest
rest_lem b rest h n =
    ap (λ t. comment_rest 1 (b'*' ∷ t)) (append_assoc (text b) comment_end rest)
    ∙ star_lem b rest h n
    ∙ text-comment_rest b 1 (comment_end ++ rest) h (omega arith)
    ∙ end_lem rest

-- A comment is skipped whole and nothing behind it, whatever comments stand inside it, unless one of
-- them follows the opening `/*` at once.
pub block_comment-comment :
    (b : Body) (s : Lexer) (before rest : Text)
    → is_plain b ≡ true
    → begins_nested b ≡ false
    → At s before (comment b ++ rest)
    → block_comment s ≡ (done tt, ahead s (len (comment b)))
unfolding comment
block_comment-comment b s before rest h n there =
    let w = b'*' ∷ (text b ++ comment_end) ++ rest in
    let ate = block_comment-Ate s before w there in
    ate.result
    ∙ ap (λ size. (done tt, ahead s size))
        (omega (
          arith,
          ap len (ate.split ∙ ap (λ t. ate.eaten ++ t) (rest_lem b rest h n)),
          len-append ate.eaten rest,
          len-append (comment b) rest,
        ))
