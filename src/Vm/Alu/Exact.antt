-- ===== src/Vm/Alu/Exact.antt =====
-- `checked_*` and `wrapping_*` against the exact result over the integers.
use native.Mathlib.Nat.{mod-eq_of_lt, div-le_self}
use hashc.Prelude.{
  ℕ, ◌+◌, ◌-◌, ◌*◌, ◌/◌, ◌%◌, ◌≤◌, ◌<◌, ◌≡◌, ◌⊎◌, inl, inr, refl, sym, ap, ◌∙◌, Bool, true, false,
  Option, none, some, arith, ltb, leb, ◌==◌, if◌then◌else◌, Bool-cases, ltb→lt,
}
use hashc.Prelude.Int.{ℤ, pos, negsuc, sub_ℕ}
use hashc.Vm.Alu.{ArithOp, add, sub, div, mul, rem, checked, wrapping}

-- The result over the integers; there is none for a zero divisor.
abbrev pub exact : ArithOp → ℕ → ℕ → Option ℤ
exact add a b = some (pos (a + b))
exact sub a b = some (sub_ℕ a b)
exact div a b = if b == 0 then none else some (pos (a / b))
exact mul a b = some (pos (a * b))
exact rem a b = if b == 0 then none else some (pos (a % b))

-- The number below `m` that agrees with an integer modulo `m`.
abbrev pub residue : ℕ → ℤ → ℕ
residue m (pos n) = n % m
residue m (negsuc n) = m - 1 - n % m

abbrev pub in_range : ℕ → ℤ → Bool
in_range m (pos n) = ltb n m
in_range m (negsuc n) = false

-- An exact result in range is what the checked operation returns; for one out of range it returns
-- `None`, and the wrapping operation returns the residue. With no exact result both have none.
abbrev pub Agrees : ℕ → Option ℤ → Option ℕ → Option ℕ → Type 0
Agrees m (some z) c w =
    ((in_range m z ≡ true) × (c ≡ some (residue m z)))
    ⊎ ((in_range m z ≡ false) × (c ≡ none) × (w ≡ some (residue m z)))
Agrees m none c w = (c ≡ none) × (w ≡ none)

module _ (m a b : ℕ) (ha : a < m) (hb : b < m) where
  pos-Agrees :
      (x : ℕ) (c w : Option ℕ)
      → c ≡ (if ltb x m then some x else none)
      → w ≡ some (x % m)
      → Agrees m (some (pos x)) c w
  pos-Agrees x c w hc hw = elim (Bool-cases (ltb x m)) [
    | inl e ↦ inl (e, hc ∙ rw (e, mod-eq_of_lt (ltb→lt x m e)))
    | inr e ↦ inr (e, hc ∙ rw e, hw)
  ]

  borrow : a < b → (a + m - b) % m ≡ m - 1 - (b - a - 1) % m
  borrow h =
      let l : (a + m - b) % m ≡ a + m - b = mod-eq_of_lt (omega arith) in
      let r : (b - a - 1) % m ≡ b - a - 1 = mod-eq_of_lt (omega arith) in l ∙ rw r (omega arith)

  rem-le : a % b ≤ a
  rem-le = grind arith

  pub checked-wrapping-Agrees :
      (op : ArithOp) → Agrees m (exact op a b) (checked op m a b) (wrapping op m a b)
  unfolding checked wrapping
  checked-wrapping-Agrees add = pos-Agrees (a + b) _ _ refl refl
  checked-wrapping-Agrees mul = pos-Agrees (a * b) _ _ refl refl
  checked-wrapping-Agrees sub = elim (Bool-cases (leb b a)) [
    | inl e ↦
        let small : a - b < m = omega arith in
        rw e (inl (ground arith, ap some (sym (mod-eq_of_lt small))))
    | inr e ↦ rw e (inr (refl, refl, ap some (borrow (ground arith))))
  ]
  checked-wrapping-Agrees div = elim (Bool-cases (b == 0)) [
    | inl e ↦ rw e (refl, refl)
    | inr e ↦
        let small : a / b < m = omega (arith, div-le_self a b) in
        rw e (inl (ground arith, ap some (sym (mod-eq_of_lt small))))
  ]
  checked-wrapping-Agrees rem = elim (Bool-cases (b == 0)) [
    | inl e ↦ rw e (refl, refl)
    | inr e ↦
        let small : a % b < m = omega (arith, rem-le) in
        rw e (inl (ground arith, ap some (sym (mod-eq_of_lt small))))
  ]
