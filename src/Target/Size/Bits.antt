-- ===== src/Target/Size/Bits.antt =====
-- compiler/hash-target/src/size.rs: cutting a number to a size and extending its sign, as arithmetic.
use native.Mathlib.Nat.{
  add-mul, mul-add-div_right, div-eq_of_lt, mod-one, add-zero, pow-zero, add-suc, mul_assoc,
  mod-add-div', add-mul-mod_self_right, pow-suc, mul-div_cancel, one-le-pow, mod-lt, mod-eq_of_lt,
}
use hashc.Prelude.{
  ℕ, zero, suc, ◌+◌, ◌-◌, ◌*◌, ◌/◌, ◌%◌, ◌^◌, ◌≤◌, ◌<◌, ◌≡◌, refl, sym, ap, ◌∙◌, subst, false,
  Bool-cases, some, inl, inr, ltb, lt→ltb, ltb→lt, ◌==◌, if◌then◌else◌, arith,
}
use hashc.Target.Size.{
  Size, bits, shift_of, shift_left, shift_right_signed, sign_extend, truncate, u128,
}

pub pow-split : (k n : ℕ) → 2 ^ (k + n) ≡ 2 ^ k * 2 ^ n
pow-split k zero = rw (add-zero k, pow-zero 2) (omega arith)
pow-split k (suc n) =
    ap (λ m. 2 ^ m) (add-suc k n)
    ∙ pow-suc 2 (k + n)
    ∙ ap (λ m. m * 2) (pow-split k n)
    ∙ mul_assoc (2 ^ k) (2 ^ n) 2
    ∙ ap (λ m. 2 ^ k * m) (sym (pow-suc 2 n))

pub pow-pos : (n : ℕ) → 0 < 2 ^ n
pow-pos n = one-le-pow n 2 (omega arith)

mul-lt : (a b c : ℕ) → a < b → 0 < c → a * c < b * c
mul-lt a b c h k = grind arith

pub mul-le : (a b c : ℕ) → a ≤ b → a * c ≤ b * c
mul-le a b c h = grind arith

-- A product with a common factor keeps it under the modulus.
mul-mod_common : (v q p : ℕ) → 0 < q → 0 < p → (v * p) % (q * p) ≡ (v % q) * p
mul-mod_common v q p hq hp =
    let whole : v * p ≡ (v % q) * p + (v / q) * (q * p) =
      ap (λ n. n * p) (sym (mod-add-div' v q)) ∙ grind arith in
    let small : (v % q) * p < q * p = mul-lt (v % q) q p (mod-lt v hq) hp in
    ap (λ n. n % (q * p)) whole
    ∙ add-mul-mod_self_right ((v % q) * p) (v / q) (q * p)
    ∙ mod-eq_of_lt small

-- The two parts of a word of 128 bits.
pub pow-parts : (n : ℕ) → n ≤ 128 → 2 ^ n * 2 ^ (128 - n) ≡ u128
pow-parts n h =
    let sum : n + (128 - n) ≡ 128 = omega arith in sym (pow-split n (128 - n)) ∙ ap (λ m. 2 ^ m) sum

shift_left-mod : (v n : ℕ) → n ≤ 128 → shift_left v (128 - n) ≡ (v % 2 ^ n) * 2 ^ (128 - n)
shift_left-mod v n h =
    ap (λ m. (v * 2 ^ (128 - n)) % m) (sym (pow-parts n h))
    ∙ mul-mod_common v (2 ^ n) (2 ^ (128 - n)) (pow-pos n) (pow-pos (128 - n))

pub bits-some : (self : Size) → self.value ≤ 16 → bits self ≡ some (self.value * 8)
unfolding bits
bits-some self h = ground arith

pub shift_of-some : (n : ℕ) → 0 < n → n ≤ 128 → shift_of n ≡ some (128 - n)
unfolding shift_of
shift_of-some n h k = ground arith

pub test_false : (n : ℕ) → 0 < n → (n == 0) ≡ false
test_false n h = ground arith

-- For a size of up to 16 bytes, zero included, `truncate` never panics and keeps the number's lowest
-- bits, as many as the size has.
pub truncate-mod :
    (self : Size) (v : ℕ) → self.value ≤ 16 → truncate self v ≡ some (v % 2 ^ (self.value * 8))
unfolding truncate
truncate-mod self v h = rw (bits-some self h) (elim (Bool-cases (self.value * 8 == 0)) [
  | inl z ↦
      let zero_bits : self.value * 8 ≡ 0 = ground arith in
      rw (z, zero_bits) (ap some (sym (mod-one v)))
  | inr z ↦
      let n = self.value * 8 in
      let pos : 0 < n = ground arith in
      rw (z, shift_of-some n pos (omega arith))
        (ap some (
          ap (λ m. m / 2 ^ (128 - n)) (shift_left-mod v n (omega arith))
          ∙ mul-div_cancel (v % 2 ^ n) (pow-pos (128 - n))))
])

-- The number that the lowest `n` bits of `v` stand for in two's complement, as 128 bits.
abbrev pub extended : ℕ → ℕ → ℕ
extended n v = if ltb (v % 2 ^ n) (2 ^ (n - 1)) then v % 2 ^ n else u128 - (2 ^ n - v % 2 ^ n)

shift_right-low :
    (t half s : ℕ) → half * 2 ^ s ≡ 2 ^ 127 → t < half → shift_right_signed (t * 2 ^ s) s ≡ t
unfolding shift_right_signed
shift_right-low t half s k lt =
    let small : t * 2 ^ s < 2 ^ 127 =
      subst (λ m. t * 2 ^ s < m) k (mul-lt t half (2 ^ s) lt (pow-pos s)) in
    rw (lt→ltb (t * 2 ^ s) (2 ^ 127) small) (mul-div_cancel t (pow-pos s))

pub ge→ltb : (a b : ℕ) → b ≤ a → ltb a b ≡ false
ge→ltb a b h = ground arith

round_up : (t q s : ℕ) → t < q → (q * 2 ^ s - t * 2 ^ s + (2 ^ s - 1)) / 2 ^ s ≡ q - t
round_up t q s lt =
    let d = q - t in
    let whole : q ≡ d + t = omega arith in
    let split : q * 2 ^ s ≡ d * 2 ^ s + t * 2 ^ s =
      ap (λ m. m * 2 ^ s) whole ∙ add-mul d t (2 ^ s) in
    let rest : q * 2 ^ s - t * 2 ^ s ≡ d * 2 ^ s = omega (arith, split) in
    ap (λ m. (m + (2 ^ s - 1)) / 2 ^ s) rest
    ∙ mul-add-div_right (pow-pos s) d (2 ^ s - 1)
    ∙ ap (λ m. d + m) (div-eq_of_lt (omega (arith, pow-pos s)))
    ∙ omega arith

shift_right-high :
    (t q half s : ℕ)
    → half * 2 ^ s ≡ 2 ^ 127
    → q * 2 ^ s ≡ u128
    → half ≤ t
    → t < q
    → shift_right_signed (t * 2 ^ s) s ≡ u128 - (q - t)
unfolding shift_right_signed
shift_right-high t q half s k w le lt =
    let large : 2 ^ 127 ≤ t * 2 ^ s = subst (λ m. m ≤ t * 2 ^ s) k (mul-le half t (2 ^ s) le) in
    rw (ge→ltb (t * 2 ^ s) (2 ^ 127) large) (
      ap (λ m. u128 - m)
        (ap (λ m. (m - t * 2 ^ s + (2 ^ s - 1)) / 2 ^ s) (sym w) ∙ round_up t q s lt))

pub half_word : (n : ℕ) → 0 < n → n ≤ 128 → 2 ^ (n - 1) * 2 ^ (128 - n) ≡ 2 ^ 127
half_word n pos h =
    let sum : (n - 1) + (128 - n) ≡ 127 = omega arith in
    sym (pow-split (n - 1) (128 - n)) ∙ ap (λ m. 2 ^ m) sum

shift_right-extended :
    (n v : ℕ)
    → 0 < n
    → n ≤ 128
    → shift_right_signed ((v % 2 ^ n) * 2 ^ (128 - n)) (128 - n) ≡ extended n v
shift_right-extended n v pos h = elim (Bool-cases (ltb (v % 2 ^ n) (2 ^ (n - 1)))) [
  | inl e ↦
      rw e (shift_right-low (v % 2 ^ n) (2 ^ (n - 1)) (128 - n) (half_word n pos h) (ltb→lt _ _ e))
  | inr e ↦ rw e (
      shift_right-high (v % 2 ^ n) (2 ^ n) (2 ^ (n - 1)) (128 - n) (half_word n pos h)
        (pow-parts n h) (ground arith) (mod-lt v (pow-pos n)))
]

-- For a size of one to 16 bytes `sign_extend` never panics and gives the number that the lowest bits
-- stand for in two's complement, as 128 bits. For a size of zero it gives zero.
pub sign_extend-extended :
    (self : Size) (v : ℕ)
    → self.value ≤ 16
    → sign_extend self v ≡ some (if self.value == 0 then 0 else extended (self.value * 8) v)
unfolding sign_extend
sign_extend-extended self v h = rw (bits-some self h) (elim (Bool-cases (self.value == 0)) [
  | inl z ↦ let zero_bits : self.value ≡ 0 = ground arith in rw zero_bits refl
  | inr z ↦
      let n = self.value * 8 in
      let pos : 0 < n = ground arith in
      rw (z, test_false n pos, shift_of-some n pos (omega arith))
        (ap some (
          ap (λ m. shift_right_signed m (128 - n)) (shift_left-mod v n (omega arith))
          ∙ shift_right-extended n v pos (omega arith)))
])
