-- ===== src/Target/Size/Limits.antt =====
-- compiler/hash-target/src/size.rs: the least and the greatest integers of a size.
use native.Mathlib.Nat.{mul-add-div_right, div-eq_of_lt, mod-eq_of_lt, pow-suc}
use hashc.Prelude.{
  ℕ, zero, suc, ◌+◌, ◌-◌, ◌*◌, ◌/◌, ◌%◌, ◌^◌, ◌≤◌, ◌<◌, ◌≡◌, sym, ap, ◌∙◌, true, some, leb, arith,
}
use hashc.Target.Size.{Size, u128, unsigned_int_max, signed_int_max, signed_int_min}
use hashc.Target.Size.Bits.{
  pow-pos, pow-parts, half_word, bits-some, shift_of-some, test_false, extended,
  sign_extend-extended, ge→ltb,
}

-- What is left of a full word of `q * 2 ^ s` less one.
full-shift : (q s : ℕ) {m : ℕ} → 0 < q → q * 2 ^ s ≡ m → (m - 1) / 2 ^ s ≡ q - 1
full-shift zero s h e = absurd (omega arith)
full-shift (suc q) s {m} h e =
    let rest : m - 1 ≡ q * 2 ^ s + (2 ^ s - 1) = omega (arith, sym e, pow-pos s, split q (2 ^ s)) in
    ap (λ n. n / 2 ^ s) rest
    ∙ mul-add-div_right (pow-pos s) q (2 ^ s - 1)
    ∙ ap (λ n. q + n) (div-eq_of_lt (omega (arith, pow-pos s)))
    ∙ omega arith
  where
    split : (q p : ℕ) → suc q * p ≡ q * p + p
    split q p = grind arith

module _ (self : Size) (pos : 0 < self.value) (h : self.value ≤ 16) where
  unsigned_int_max-eq : unsigned_int_max self ≡ some (2 ^ (self.value * 8) - 1)
  unfolding unsigned_int_max
  unsigned_int_max-eq =
      rw (bits-some self h, shift_of-some (self.value * 8) (omega arith) (omega arith))
        (ap some (
          full-shift (2 ^ (self.value * 8)) (128 - self.value * 8) (pow-pos _)
            (pow-parts (self.value * 8) (omega arith))))

  signed_int_max-eq : signed_int_max self ≡ some (2 ^ (self.value * 8 - 1) - 1)
  unfolding signed_int_max
  signed_int_max-eq =
      rw (bits-some self h, shift_of-some (self.value * 8) (omega arith) (omega arith))
        (ap some (
          full-shift (2 ^ (self.value * 8 - 1)) (128 - self.value * 8) (pow-pos _)
            (half_word (self.value * 8) (omega arith) (omega arith))))

double : (n : ℕ) → 0 < n → 2 ^ n ≡ 2 ^ (n - 1) * 2
double zero h = absurd (omega arith)
double (suc n) h = let back : suc n - 1 ≡ n = omega arith in rw back (pow-suc 2 n)

extended-least : (n : ℕ) → 0 < n → extended n (2 ^ (n - 1)) ≡ u128 - 2 ^ (n - 1)
extended-least n h =
    let twice = double n h in
    let same : 2 ^ (n - 1) % 2 ^ n ≡ 2 ^ (n - 1) =
      mod-eq_of_lt (omega (arith, twice, pow-pos (n - 1))) in
    rw (same, ge→ltb (2 ^ (n - 1)) (2 ^ (n - 1)) (omega arith))
      (ap (λ m. u128 - m) (omega (arith, twice)))

signed_int_min-eq :
    (self : Size)
    → 0 < self.value
    → self.value ≤ 16
    → signed_int_min self ≡ some (u128 - 2 ^ (self.value * 8 - 1))
unfolding signed_int_min
signed_int_min-eq self pos h =
    rw (bits-some self h, test_false (self.value * 8) (omega arith), fits)
      (sign_extend-extended self (2 ^ (self.value * 8 - 1)) h
        ∙ rw (test_false self.value pos) (ap some (extended-least (self.value * 8) (omega arith))))
  where
    fits : leb (self.value * 8) 128 ≡ true
    fits = ground arith

-- For a size of one to 16 bytes the limits of its integers never panic: the greatest unsigned one is
-- `2 ^ N - 1` for the `N` bits of the size, the greatest signed one `2 ^ (N - 1) - 1`, and the least
-- signed one the pattern of 128 bits of `- 2 ^ (N - 1)`.
pub int_limits :
    (self : Size)
    → 0 < self.value
    → self.value ≤ 16
    → (unsigned_int_max self ≡ some (2 ^ (self.value * 8) - 1))
      × (signed_int_max self ≡ some (2 ^ (self.value * 8 - 1) - 1))
      × (signed_int_min self ≡ some (u128 - 2 ^ (self.value * 8 - 1)))
int_limits self pos h =
    (unsigned_int_max-eq self pos h, signed_int_max-eq self pos h, signed_int_min-eq self pos h)
