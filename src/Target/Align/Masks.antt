-- ===== src/Target/Align/Masks.antt =====
-- compiler/hash-target/src/size.rs: the mask of `align_to` rounds up.
use Prim.Native.Nat.{bit_and, bit_and-bitwise, digits}
use native.Mathlib.Nat.{pow-suc, mod-lt, mod-add-div'}
use hashc.Prelude.{
  ℕ, zero, suc, ◌+◌, ◌-◌, ◌*◌, ◌/◌, ◌%◌, ◌^◌, ◌≤◌, ◌<◌, ◌≡◌, refl, sym, ap, ◌∙◌, min, Option, none,
  some, ltb, ltb→lt, inl, inr, Bool-cases, arith,
}
use hashc.Target.Size.{Size}
use hashc.Target.Alignment.{Alignment}
use hashc.Target.Alignment as Alignment
use hashc.Target.Size.Bits.{pow-pos, pow-split, mul-le}
use hashc.Target.Align.{align_to, complement}

-- `w` ones and then `k` zeros.
abbrev ones : ℕ → ℕ → ℕ
ones w k = (2 ^ w - 1) * 2 ^ k

mul_two : (a p : ℕ) → a * (2 * p) ≡ 2 * (a * p)
mul_two a p = grind arith

two_pow-suc : (k : ℕ) → 2 ^ suc k ≡ 2 * 2 ^ k
two_pow-suc k = omega (arith, pow-suc 2 k)

ones-zeros : (w k : ℕ) → ones w (suc k) ≡ 2 * ones w k
ones-zeros w k = ap (λ p. (2 ^ w - 1) * p) (two_pow-suc k) ∙ mul_two (2 ^ w - 1) (2 ^ k)

ones-suc : (w : ℕ) → ones (suc w) 0 ≡ 2 * ones w 0 + 1
ones-suc w = omega (arith, pow-suc 2 w, pow-pos w)

digits-ones :
    (n a k w q r : ℕ)
    → a ≡ q * 2 ^ k + r
    → a ≤ n
    → q < 2 ^ w
    → r < 2 ^ k
    → digits (λ b. zero) min n a (ones w k) ≡ q * 2 ^ k
digits-ones zero a k w q r e h lt less = omega (arith, e, h)
digits-ones (suc n) zero k w q r e h lt less = omega (arith, e, h)
digits-ones (suc n) (suc a) zero zero q r e h lt less = absurd (omega (arith, e, lt, less))
digits-ones (suc n) (suc a) zero (suc w) q r e h lt less =
    let half : ones (suc w) 0 / 2 ≡ ones w 0 = omega (arith, ones-suc w) in
    let low : ones (suc w) 0 % 2 ≡ 1 = omega (arith, ones-suc w) in
    let ih =
      digits-ones n (suc a / 2) zero w (suc a / 2) 0 (omega arith) (omega (arith, h))
        (omega (arith, e, lt, less, two_pow-suc w)) (omega arith) in
    rw (half, low, ih) (omega (arith, e, less))
digits-ones (suc n) (suc a) (suc k) w q r e h lt less =
    let half : ones w (suc k) / 2 ≡ ones w k = omega (arith, ones-zeros w k) in
    let low : ones w (suc k) % 2 ≡ 0 = omega (arith, ones-zeros w k) in
    let twice : q * 2 ^ suc k ≡ 2 * (q * 2 ^ k) =
      ap (λ p. q * p) (two_pow-suc k) ∙ mul_two q (2 ^ k) in
    let ih =
      digits-ones n (suc a / 2) k w q (r / 2) (omega (arith, e, twice)) (omega (arith, h)) lt
        (omega (arith, less, two_pow-suc k)) in
    rw (half, low, ih) (omega (arith, twice))

bit_and-ones :
    (k w q r : ℕ) → q < 2 ^ w → r < 2 ^ k → bit_and (q * 2 ^ k + r) (ones w k) ≡ q * 2 ^ k
bit_and-ones k w q r lt less =
    bit_and-bitwise (q * 2 ^ k + r) (ones w k)
    ∙ digits-ones (q * 2 ^ k + r) (q * 2 ^ k + r) k w q r refl (omega arith) lt less

pow-parts : (e : ℕ) → e ≤ 64 → 2 ^ (64 - e) * 2 ^ e ≡ 2 ^ 64
pow-parts e h = sym (pow-split (64 - e) e) ∙ ap (λ n. 2 ^ n) {y = 64} (omega (arith, h))

minus_one : (a b : ℕ) → (a - 1) * b ≡ a * b - b
minus_one zero b = omega arith
minus_one (suc a) b = grind arith

complement-ones : (e : ℕ) → e ≤ 64 → complement (2 ^ e - 1) ≡ ones (64 - e) e
complement-ones e h = omega (arith, pow-pos e, pow-parts e h, minus_one (2 ^ (64 - e)) (2 ^ e))

lt-of_mul : (p q b : ℕ) → q * b < p * b → q < p
lt-of_mul p q b h = elim (Bool-cases (ltb q p)) [
  | inl e ↦ ltb→lt q p e
  | inr e ↦ absurd (omega (arith, h, mul-le p q b (ground (arith, e))))
]

-- What the aligned size is: the least multiple of the alignment from the size on, or a panic where the
-- sum does not fit.
pub data Rounded (self : Size) (alignment : Alignment) : Option Size → Type 0 where
  rounded :
      (q : ℕ)
      → self.value ≤ q * Alignment.bytes alignment
      → q * Alignment.bytes alignment < self.value + Alignment.bytes alignment
      → Rounded self alignment (some (record { value = q * Alignment.bytes alignment }))
  overflow : 2 ^ 64 < self.value + Alignment.bytes alignment → Rounded self alignment none

-- Aligning to an alignment of less than 2^64 bytes gives the least multiple of the alignment that is
-- not below the size, or panics, which happens only where the size and the alignment are together
-- above 2^64.
pub align_to-Rounded :
    (self : Size) (alignment : Alignment)
    → alignment.value < 64
    → Rounded self alignment (align_to self alignment)
unfolding align_to Alignment.bytes
align_to-Rounded self alignment lt =
    let h : alignment.value ≤ 64 = omega (arith, lt) in
    let b = 2 ^ alignment.value in
    let t = self.value + (b - 1) in
    elim (Bool-cases (ltb t (2 ^ 64))) [
      | inl e ↦
          let q = t / b in
          let r = t % b in
          let parts : q * b + r ≡ t = omega (arith, mod-add-div' t b) in
          let less : r < b = mod-lt t (pow-pos alignment.value) in
          let small : q < 2 ^ (64 - alignment.value) =
            lt-of_mul (2 ^ (64 - alignment.value)) q b
              (ground (arith, e, parts, pow-parts alignment.value h)) in
          let masked : bit_and t (complement (b - 1)) ≡ q * b =
            ap (bit_and t) (complement-ones alignment.value h)
            ∙ ap (λ n. bit_and n (ones (64 - alignment.value) alignment.value)) (sym parts)
            ∙ bit_and-ones alignment.value (64 - alignment.value) q r small less in
          rw (e, masked)
            (rounded q (omega (arith, parts, less, pow-pos alignment.value))
              (omega (arith, parts, less, pow-pos alignment.value)))
      | inr e ↦ rw e (overflow (ground (arith, e, pow-pos alignment.value)))
    ]
