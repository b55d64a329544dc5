-- ===== src/Exhaustiveness/Array/Lengths.antt =====
-- compiler/hash-exhaustiveness/src/list.rs: the arrays that a split pattern of variable length gives divide
-- the lengths it matches.
use hashc.Prelude.{
  ℕ, zero, suc, ◌+◌, ◌-◌, ◌^◌, ◌≤◌, ◌<◌, ◌≡◌, refl, sym, ap, ◌∙◌, Bool, true, Bool-cases, ◌&&◌,
  some, List, [], ◌∷◌, ◌++◌, leb, ltb, ◌==◌, if◌then◌else◌, inl, inr, arith, some_injective, subst,
}
use hashc.Prelude.Bytes.{All}
use hashc.Exhaustiveness.Array.{
  Array, ArrayKind, LengthsSeen, fixed, var, longest, new, split, split_max, iter, split_arrays,
  fixed_arrays, kind_arity, covers_length, is_covered_by, bind, ◌>>=◌,
}
use hashc.Exhaustiveness.Array.Growth.{
  bound, IsShort, IsSeen, longest-Grows, longest-AreShort, longest-IsSeen, max_list_of-TopList,
  usize_add-lt,
}

-- Whether a kind of pattern matches arrays of a length.
unfoldable pub has_length : ArrayKind → ℕ → Bool
has_length (fixed len) n = len == n
has_length (var prefix suffix) n = leb (prefix + suffix) n

-- How many of the arrays match a length.
unfoldable pub count : List Array → ℕ → ℕ
count [] n = 0
count (a ∷ arrays) n = let rest = count arrays n in if has_length a.kind n then suc rest else rest

covers_length-has_length :
    (k : ArrayKind) (n : ℕ) → IsShort k → covers_length k n ≡ some (has_length k n)
unfolding covers_length has_length
covers_length-has_length (fixed len) n h = refl
covers_length-has_length (var prefix suffix) n (h, i) =
    rw (usize_add-lt prefix suffix (omega (arith, h, i))) refl

count-append_fixed :
    (start m n : ℕ) (rest : List Array)
    → count (fixed_arrays start m ++ rest) n
      ≡ (if leb start n && ltb n (start + m) then 1 else 0) + count rest n
unfolding count fixed_arrays has_length
count-append_fixed start zero n rest = ground arith
count-append_fixed start (suc m) n rest = ground (arith, count-append_fixed (suc start) m n rest)

-- What the splitting comes to.
record Divides (prefix suffix : ℕ) (slices : List ArrayKind) : Type 0 where
  longest_prefix : ℕ
  longest_suffix : ℕ
  longest_fixed : ℕ
  result :
      split_arrays prefix suffix slices
      ≡ some (
          fixed_arrays (prefix + suffix) (longest_prefix + longest_suffix - (prefix + suffix))
          ++ (record { kind = var longest_prefix longest_suffix }) ∷ [])
  longer : prefix + suffix ≤ longest_prefix + longest_suffix
  above : longest_fixed < longest_prefix + longest_suffix
  fits : longest_prefix + longest_suffix < 2 ^ 64
  seen :
      All
        (IsSeen (record {
          fixed_len = longest_fixed;
          prefix_len = longest_prefix;
          suffix_len = longest_suffix;
        }))
        slices

All-map :
    (P Q : ArrayKind → Type 0) (ks : List ArrayKind)
    → ((k : ArrayKind) → P k → Q k)
    → All P ks
    → All Q ks
All-map P Q [] f h = tt
All-map P Q (k ∷ ks) f (h, hs) = (f k h, All-map P Q ks f hs)

IsSeen-room :
    (l : LengthsSeen) (p : ℕ) (k : ArrayKind)
    → l.prefix_len ≤ p
    → IsSeen l k
    → IsSeen (record l { prefix_len = p }) k
IsSeen-room l p (fixed len) h s = s
IsSeen-room l p (var prefix suffix) h (s, t) = (omega (arith, h, s), t)

split_arrays-Divides :
    (prefix suffix : ℕ) (slices : List ArrayKind)
    → prefix < bound
    → suffix < bound
    → All IsShort slices
    → Divides prefix suffix slices
unfolding split_arrays new split split_max iter kind_arity
split_arrays-Divides prefix suffix slices h i hs =
    let start : LengthsSeen = record { fixed_len = 0; prefix_len = prefix; suffix_len = suffix } in
    let l = longest slices start in
    let grows = longest-Grows slices start in
    let top = max_list_of-TopList l (
      longest-AreShort slices start hs
        (record { fixed_short = omega arith; prefix_short = h; suffix_short = i })) in
    record {
      longest_prefix = top.prefix;
      longest_suffix = l.suffix_len;
      longest_fixed = l.fixed_len;
      result =
          rw
            (
              usize_add-lt prefix suffix (omega (arith, h, i)),
              top.result,
              usize_add-lt top.prefix l.suffix_len top.fits,
            )
            refl;
      longer = omega (arith, grows.prefix_grows, grows.suffix_grows, top.room);
      above = top.above;
      fits = top.fits;
      seen =
          All-map (IsSeen l) (IsSeen (record l { prefix_len = top.prefix })) slices
            (λ k. IsSeen-room l top.prefix k top.room) (longest-IsSeen slices start);
    }

pub split_arrays-some :
    (prefix suffix : ℕ) (slices : List ArrayKind)
    → prefix < bound
    → suffix < bound
    → All IsShort slices
    → (arrays : List Array) × (split_arrays prefix suffix slices ≡ some arrays)
split_arrays-some prefix suffix slices h i hs =
    let s = split_arrays-Divides prefix suffix slices h i hs in (_, s.result)

-- An array pattern of variable length is split without a panic, whatever was seen, where all lengths
-- are below 2^62: each length that the pattern matches is matched by exactly one of the arrays, and no
-- other length is.
pub split_arrays-count :
    (prefix suffix : ℕ) (slices : List ArrayKind) (n : ℕ)
    → prefix < bound
    → suffix < bound
    → All IsShort slices
    → (split_arrays prefix suffix slices >>= λ arrays. some (count arrays n))
      ≡ some (if has_length (var prefix suffix) n then 1 else 0)
unfolding has_length count
split_arrays-count prefix suffix slices n h i hs =
    let s = split_arrays-Divides prefix suffix slices h i hs in
    ap (λ r. bind r (λ arrays. some (count arrays n))) s.result
    ∙ ap some (
        count-append_fixed (prefix + suffix)
          (s.longest_prefix + s.longest_suffix - (prefix + suffix)) n
          ((record { kind = var s.longest_prefix s.longest_suffix }) ∷ [])
        ∙ ground (arith, s.longer))

-- `is_covered_by` tells of a seen pattern whether it matches the length `n`, if `n` is one of the array's.
abbrev pub Agrees : ℕ → Array → ArrayKind → Type 0
Agrees n a k =
    (if has_length a.kind n then is_covered_by a (record { kind = k }) else some (has_length k n))
    ≡ some (has_length k n)

pub fixed-Agrees : (m n : ℕ) (k : ArrayKind) → IsShort k → Agrees n (record { kind = fixed m }) k
unfolding has_length is_covered_by
fixed-Agrees m n k h = elim (Bool-cases (m == n)) [
  | inl e ↦
      rw e (covers_length-has_length k m h ∙ ap (λ o. some (has_length k o)) (ground (arith, e)))
  | inr e ↦ rw e refl
]

-- Longer arrays are matched or not as the longest list is.
has_length-longer :
    (l : LengthsSeen) (k : ArrayKind) (n : ℕ)
    → l.fixed_len < l.prefix_len + l.suffix_len
    → l.prefix_len + l.suffix_len ≤ n
    → IsSeen l k
    → has_length k (l.prefix_len + l.suffix_len) ≡ has_length k n
unfolding has_length
has_length-longer l (fixed len) n h le s = ground (arith, s)
has_length-longer l (var prefix suffix) n h le (s, t) = ground (arith, s, t)

var-le : (p q n : ℕ) → has_length (var p q) n ≡ true → p + q ≤ n
unfolding has_length
var-le p q n e = ground (arith, e)

var-Agrees :
    (l : LengthsSeen) (n : ℕ) (k : ArrayKind)
    → l.fixed_len < l.prefix_len + l.suffix_len
    → l.prefix_len + l.suffix_len < 2 ^ 64
    → IsShort k
    → IsSeen l k
    → Agrees n (record { kind = var l.prefix_len l.suffix_len }) k
unfolding is_covered_by
var-Agrees l n k h fits short s = elim (Bool-cases (has_length (var l.prefix_len l.suffix_len) n)) [
  | inl e ↦
      rw (e, usize_add-lt l.prefix_len l.suffix_len fits)
        (covers_length-has_length k (l.prefix_len + l.suffix_len) short
          ∙ ap some (has_length-longer l k n h (var-le l.prefix_len l.suffix_len n e) s))
  | inr e ↦ rw e refl
]

fixed_arrays-Agree :
    (start m n : ℕ) (slices : List ArrayKind)
    → All IsShort slices
    → All (λ a. All (Agrees n a) slices) (fixed_arrays start m)
unfolding fixed_arrays
fixed_arrays-Agree start zero n slices h = tt
fixed_arrays-Agree start (suc m) n slices h = (
  All-map IsShort (Agrees n (record { kind = fixed start })) slices (fixed-Agrees start n) h,
  fixed_arrays-Agree (suc start) m n slices h,
)

All-append : (P : Array → Type 0) (xs ys : List Array) → All P xs → All P ys → All P (xs ++ ys)
All-append P [] ys h i = i
All-append P (x ∷ xs) ys (h, hs) i = (h, All-append P xs ys hs i)

All-var :
    (l : LengthsSeen) (n : ℕ) (slices : List ArrayKind)
    → l.fixed_len < l.prefix_len + l.suffix_len
    → l.prefix_len + l.suffix_len < 2 ^ 64
    → All IsShort slices
    → All (IsSeen l) slices
    → All (Agrees n (record { kind = var l.prefix_len l.suffix_len })) slices
All-var l n [] h fits short seen = tt
All-var l n (k ∷ ks) h fits (a, more) (b, rest) =
    (var-Agrees l n k h fits a b, All-var l n ks h fits more rest)

-- No seen pattern straddles an array of the split one, where all lengths are below 2^62: if the array
-- matches the length `n`, `is_covered_by` does not panic and tells of each seen pattern whether it
-- matches `n`, so the answer is the same for all lengths of the array.
pub split_arrays-Agrees :
    (prefix suffix : ℕ) (slices : List ArrayKind) (n : ℕ) (arrays : List Array)
    → prefix < bound
    → suffix < bound
    → All IsShort slices
    → split_arrays prefix suffix slices ≡ some arrays
    → All (λ a. All (Agrees n a) slices) arrays
split_arrays-Agrees prefix suffix slices n arrays h i hs e =
    let s = split_arrays-Divides prefix suffix slices h i hs in
    let l : LengthsSeen = record {
      fixed_len = s.longest_fixed;
      prefix_len = s.longest_prefix;
      suffix_len = s.longest_suffix;
    } in
    let size = l.prefix_len + l.suffix_len - (prefix + suffix) in
    subst (All (λ a. All (Agrees n a) slices)) (some_injective (sym s.result ∙ e)) (
      All-append (λ a. All (Agrees n a) slices) (fixed_arrays (prefix + suffix) size)
        ((record { kind = var l.prefix_len l.suffix_len }) ∷ [])
        (fixed_arrays-Agree (prefix + suffix) size n slices hs)
        (All-var l n slices s.above s.fits hs s.seen, tt))
