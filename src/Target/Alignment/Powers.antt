-- ===== src/Target/Alignment/Powers.antt =====
-- compiler/hash-target/src/alignment.rs: which sizes are alignments, and what an offset allows.
use native.Mathlib.Nat.{pow-suc, zero-add, mod-add-div, mul-mod_right, zero-mod}
use mathlib.Core.Bool.{true≢false}
use hashc.Prelude.{
  ℕ, zero, suc, ◌+◌, ◌*◌, ◌/◌, ◌%◌, ◌^◌, ◌≤◌, ◌<◌, ◌≡◌, ◌≢◌, refl, sym, ap, ◌∙◌, subst, true, false,
  Bool-cases, inl, inr, min, leb, ◌==◌, arith,
}
use hashc.Target.Size.{Size}
use hashc.Target.Alignment.{
  Alignment, AlignmentResult, ok, err, too_large, not_power_of_two, one, halve, from_bytes, bytes,
  trailing_zeros, restrict_to,
}

pow_two-mul : (k b : ℕ) → 2 ^ suc k * b ≡ 2 * (2 ^ k * b)
pow_two-mul k b = rw (pow-suc 2 k) (grind arith)

-- The loop takes out the powers of two and counts them.
pub record Halved (n fuel value : ℕ) : Type 0 where
  pub odd : ℕ
  pub count : ℕ
  pub result : halve fuel n value ≡ (odd, value + count)
  pub product : n ≡ 2 ^ count * odd
  pub is_odd : odd % 2 ≡ 1

halve-Halved : (fuel n value : ℕ) → 0 < n → n ≤ fuel → Halved n fuel value
unfolding halve
halve-Halved zero n value pos le = absurd (omega arith)
halve-Halved (suc fuel) n value pos le = elim (Bool-cases (n % 2 == 0)) [
  | inl e ↦
      let even : n % 2 ≡ 0 = ground arith in
      let h = halve-Halved fuel (n / 2) (suc value) (omega (arith, even)) (omega arith) in
      record {
        odd = h.odd;
        count = suc h.count;
        result = rw (e, h.result) (ap (λ t. (h.odd, t)) (omega arith));
        product = rw (pow_two-mul h.count h.odd) (omega (arith, even, h.product));
        is_odd = h.is_odd;
      }
  | inr e ↦ record {
    odd = n;
    count = 0;
    result = rw e (ap (λ t. (n, t)) (omega arith));
    product = omega arith;
    is_odd = ground arith;
  }
]

odd_one : (j k b : ℕ) → b % 2 ≡ 1 → 2 ^ j ≡ 2 ^ k * b → b ≡ 1
odd_one zero zero b o e = omega arith
odd_one zero (suc k) b o e = absurd (omega (arith, e, pow_two-mul k b))
odd_one (suc j) zero b o e = absurd (omega (arith, e, pow-suc 2 j))
odd_one (suc j) (suc k) b o e = odd_one j k b o (omega (arith, e, pow-suc 2 j, pow_two-mul k b))

multiple_le : (j k q b : ℕ) → b % 2 ≡ 1 → 2 ^ j * q ≡ 2 ^ k * b → j ≤ k
multiple_le zero k q b o e = omega arith
multiple_le (suc j) zero q b o e = absurd (omega (arith, e, pow_two-mul j q))
multiple_le (suc j) (suc k) q b o e =
    omega (arith, multiple_le j k q b o (omega (arith, e, pow_two-mul j q, pow_two-mul k b)))

-- What `from_bytes` answers for each size.
pub data Parsed (size : ℕ) (result : AlignmentResult) : Type 0 where
  is_zero : size ≡ 0 → result ≡ ok one → Parsed size result
  is_power : (a : Alignment) → a.value ≤ 32 → size ≡ bytes a → result ≡ ok a → Parsed size result
  is_large : (k : ℕ) → 32 < k → size ≡ 2 ^ k → result ≡ err too_large → Parsed size result
  is_other : ((k : ℕ) → size ≢ 2 ^ k) → result ≡ err not_power_of_two → Parsed size result

from_bytes-Halved :
    (size : ℕ) → (size == 0) ≡ false → Halved size size 0 → Parsed size (from_bytes size)
unfolding from_bytes bytes
from_bytes-Halved size z h =
    let result = rw zero-add at h.result in
    elim (Bool-cases (h.odd == 1)) [
      | inr o ↦
          is_other
            (λ k e. absurd (
              true≢false (
                sym (ap (λ n. n == 1) (odd_one k h.count h.odd h.is_odd (sym e ∙ h.product))) ∙ o)))
            (rw (z, result, o) refl)
      | inl o ↦
          let is_one : h.odd ≡ 1 = ground arith in
          let product : size ≡ 2 ^ h.count =
            h.product ∙ ap (λ n. 2 ^ h.count * n) is_one ∙ omega arith in
          elim (Bool-cases (leb h.count 32)) [
            | inl l ↦
                is_power record { value = h.count } (ground arith) product
                  (rw (z, result, o, l) refl)
            | inr l ↦ is_large h.count (ground arith) product (rw (z, result, o, l) refl)
          ]
    ]

from_bytes-zero : (size : ℕ) → (size == 0) ≡ true → from_bytes size ≡ ok one
unfolding from_bytes
from_bytes-zero size z = rw z refl

-- `from_bytes` always ends and answers by the size alone: a size of zero is the alignment one, a
-- power of two up to 2 ^ 32 is the alignment with that many bytes, a larger power is too large, and
-- any other size is refused as no power of two.
pub from_bytes-Parsed : (size : ℕ) → Parsed size (from_bytes size)
from_bytes-Parsed size = elim (Bool-cases (size == 0)) [
  | inl z ↦ is_zero (ground arith) (from_bytes-zero size z)
  | inr z ↦ from_bytes-Halved size z (halve-Halved size size 0 (ground arith) (omega arith))
]

-- The alignment that an offset allows divides the offset, and no larger one up to the given
-- alignment does.
pub record IsRestricted (self : Alignment) (offset : Size) (r : Alignment) : Type 0 where
  pub divides : offset.value % bytes r ≡ 0
  pub below : r.value ≤ self.value
  pub largest : (j : ℕ) → j ≤ self.value → offset.value % 2 ^ j ≡ 0 → j ≤ r.value

pow_divides : (r k b : ℕ) → r ≤ k → (q : ℕ) × (2 ^ k * b ≡ 2 ^ r * q)
pow_divides zero k b h = (2 ^ k * b, omega arith)
pow_divides (suc r) zero b h = absurd (omega arith)
pow_divides (suc r) (suc k) b h =
    let (q, e) = pow_divides r k b (omega arith) in
    (q, pow_two-mul k b ∙ ap (λ n. 2 * n) e ∙ sym (pow_two-mul r q))

restrict_to-zero :
    (self : Alignment)
    → self.value ≤ 32
    → (restrict_to self record { value = 0 }).value ≡ self.value
unfolding restrict_to trailing_zeros
restrict_to-zero self h = omega arith

restrict_to-Halved :
    (self : Alignment) (n : ℕ)
    → (n == 0) ≡ false
    → (h : Halved n n 0) → (restrict_to self record { value = n }).value ≡ min self.value h.count
unfolding restrict_to trailing_zeros
restrict_to-Halved self n z h = rw (z, h.result) (omega arith)

restrict_to-nonzero :
    (self : Alignment) (n : ℕ)
    → (n == 0) ≡ false
    → Halved n n 0
    → IsRestricted self record { value = n } (restrict_to self record { value = n })
unfolding bytes
restrict_to-nonzero self n z h =
    let r = restrict_to-Halved self n z h in
    let (q, e) =
      pow_divides (restrict_to self record { value = n }).value h.count h.odd (omega (arith, r)) in
    record {
      divides =
          ap (λ m. m % 2 ^ (restrict_to self record { value = n }).value) (h.product ∙ e)
          ∙ mul-mod_right (2 ^ (restrict_to self record { value = n }).value) q;
      below = omega (arith, r);
      largest = λ j le d.
          let whole : 2 ^ j * (n / 2 ^ j) ≡ n = omega (arith, d, mod-add-div n (2 ^ j)) in
          omega
            (arith, r, le, multiple_le j h.count (n / 2 ^ j) h.odd h.is_odd (whole ∙ h.product));
    }

-- For an alignment of at most 2 ^ 32 bytes and any offset, zero included, `restrict_to` gives the
-- largest alignment up to it of which the offset is a multiple.
pub restrict_to-IsRestricted :
    (self : Alignment) (offset : Size)
    → self.value ≤ 32
    → IsRestricted self offset (restrict_to self offset)
unfolding bytes
restrict_to-IsRestricted self offset h = elim (Bool-cases (offset.value == 0)) [
  | inl z ↦
      let is_zero : offset.value ≡ 0 = ground arith in
      subst (λ n. IsRestricted self record { value = n } (restrict_to self record { value = n }))
        (sym is_zero)
        record {
          divides = zero-mod _;
          below = omega (arith, restrict_to-zero self h);
          largest = λ j le d. omega (arith, le, restrict_to-zero self h);
        }
  | inr z ↦
      restrict_to-nonzero self offset.value z
        (halve-Halved offset.value offset.value 0 (ground arith) (omega arith))
]
