-- ===== src/Vm/Arms/Signed.antt =====
-- What a signed arithmetic arm does to the machine.
use native.Mathlib.Nat.{mod-lt}
use hashc.Prelude.{
  ℕ, ◌+◌, ◌-◌, ◌/◌, ◌%◌, ◌<◌, ◌≡◌, ◌≢◌, ◌⊎◌, inl, inr, refl, true, false, not, Option, none, some,
  arith, if◌then◌else◌, Bool-cases,
}
use hashc.Prelude.Bytes.{from_be_bytes, to_be_bytes, from-to_be_bytes}
use hashc.Prelude.Int.{ℤ, pos, negsuc, is_zero, ◌*ℤ◌}
use hashc.Vm.Error.{Outcome, ok, panic}
use hashc.Vm.Register.{
  Register, RegisterSet, IsRegisterFile, Width, w8, w16, w32, w64, modulus, byte_count,
  get_register_bytes, set_register_bytes, get_register_8b,
}
use hashc.Vm.Register.RoundTrip.{
  to_be_bytes-IsBytes, get-set_register_bytes, get_register_8b-set_bytes_ne, pow-byte_count,
}
use hashc.Vm.Alu.{
  SignedOp, idiv, imul, checked_signed, wrapping_signed, quotient, to_signed, of_signed,
  fits_signed, wrap_signed,
}
use hashc.Vm.Interpreter.{Interpreter, read, write, set_overflow, panicked}
use hashc.Vm.Arms.{settle, signed_arith}

-- The signed result over the integers, rounded towards zero; there is none for a zero divisor.
abbrev pub exact_signed : SignedOp → ℤ → ℤ → Option ℤ
exact_signed idiv a b = if is_zero b then none else some (quotient a b)
exact_signed imul a b = some (a *ℤ b)

-- The signed value of the low word of a register.
abbrev pub signed_value : Width → RegisterSet → Register → ℤ
signed_value w rs r = to_signed (modulus w) (from_be_bytes (get_register_bytes w rs r))

abbrev pub SignedOutcome :
    Width → Register → Register → Interpreter → Option ℤ → Outcome (Unit {0}) × Interpreter → Type 0
SignedOutcome w l1 q vm (some z) r =
    (r.0 ≡ ok tt)
    × (signed_value w r.1.registers l1
        ≡ (if fits_signed (modulus w) z then z else wrap_signed (modulus w) z))
    × (r.1.flags.overflow ≡ not (fits_signed (modulus w) z))
    × (r.1.stack ≡ vm.stack)
    × (get_register_8b r.1.registers q ≡ get_register_8b vm.registers q)
SignedOutcome w l1 q vm none r = r ≡ (panic, vm)

even : (w : Width) → modulus w / 2 + modulus w / 2 ≡ modulus w
even w8 = refl
even w16 = refl
even w32 = refl
even w64 = refl

module _ (w : Width) where
  of_signed-lt : (z : ℤ) → fits_signed (modulus w) z ≡ true → of_signed (modulus w) z < modulus w
  unfolding of_signed fits_signed
  of_signed-lt (pos n) e = ground (arith, even w)
  of_signed-lt (negsuc n) e = ground (arith, even w)

  to-of_signed :
      (z : ℤ)
      → fits_signed (modulus w) z ≡ true
      → to_signed (modulus w) (of_signed (modulus w) z) ≡ z
  unfolding to_signed of_signed fits_signed
  to-of_signed (pos n) e = ground (arith, even w)
  to-of_signed (negsuc n) e = ground (arith, even w)

  to_signed-fits :
      (v : ℕ) → v < modulus w → fits_signed (modulus w) (to_signed (modulus w) v) ≡ true
  unfolding to_signed fits_signed
  to_signed-fits v h = ground (arith, even w)

  modulus_pos : 0 < modulus w
  modulus_pos = grind (arith, even w)

  wrap_signed-fits : (z : ℤ) → fits_signed (modulus w) (wrap_signed (modulus w) z) ≡ true
  unfolding wrap_signed
  wrap_signed-fits (pos n) = to_signed-fits (n % modulus w) (mod-lt n modulus_pos)
  wrap_signed-fits (negsuc n) =
      to_signed-fits (modulus w - 1 - n % modulus w) (grind (arith, modulus_pos))

-- What the two operations return, by the exact result.
abbrev Settles : ℕ → Option ℤ → Option ℤ → Option ℤ → Type 0
Settles m (some z) c o =
    ((fits_signed m z ≡ true) × (c ≡ some z))
    ⊎ ((fits_signed m z ≡ false) × (c ≡ none) × (o ≡ some (wrap_signed m z)))
Settles m none c o = (c ≡ none) × (o ≡ none)

fits_cases :
    (m : ℕ) (z : ℤ)
    → Settles m (some z) (if fits_signed m z then some z else none) (some (wrap_signed m z))
fits_cases m z = elim (Bool-cases (fits_signed m z)) [
  | inl e ↦ inl (e, rw e)
  | inr e ↦ inr (e, rw e, refl)
]

checked-Settles :
    (m : ℕ) (op : SignedOp) (a b : ℤ)
    → Settles m (exact_signed op a b) (checked_signed op m a b) (wrapping_signed op m a b)
unfolding checked_signed wrapping_signed
checked-Settles m imul a b = fits_cases m (a *ℤ b)
checked-Settles m idiv a b = elim (Bool-cases (is_zero b)) [
  | inl e ↦ rw e (refl, refl)
  | inr e ↦ rw e (fits_cases m (quotient a b))
]

module _ (w : Width) (l1 q : Register) (vm : Interpreter) (h : IsRegisterFile vm.registers)
    (hr : l1.index < 256) (ne : l1.index ≢ q.index) where
  abbrev put : ℤ → RegisterSet → RegisterSet
  put z rs = set_register_bytes w rs l1 (to_be_bytes (byte_count w) (of_signed (modulus w) z))

  value_put :
      (z : ℤ) → fits_signed (modulus w) z ≡ true → signed_value w (put z vm.registers) l1 ≡ z
  value_put z e =
      rw
        (get-set_register_bytes vm.registers l1 h w _
          (to_be_bytes-IsBytes w (of_signed (modulus w) z)) hr)
        (rw
          (from-to_be_bytes (byte_count w) (of_signed (modulus w) z)
            (rw (pow-byte_count w) (of_signed-lt w z e)))
          (to-of_signed w z e))

  other_put : (z : ℤ) → get_register_8b (put z vm.registers) q ≡ get_register_8b vm.registers q
  other_put z = get_register_8b-set_bytes_ne vm.registers l1 h w _ (to_be_bytes-IsBytes w _) q ne

  settle-outcome :
      (e c o : Option ℤ) → Settles (modulus w) e c o → SignedOutcome w l1 q vm e (settle put c o vm)
  unfolding settle write set_overflow panicked
  settle-outcome (some z) c o (inl (fits, e)) =
      rw (e, fits) (refl, value_put z fits, refl, refl, other_put z)
  settle-outcome (some z) c o (inr (out, e, e')) =
      rw (e, e', out)
        (
          refl,
          value_put (wrap_signed (modulus w) z) (wrap_signed-fits w z),
          refl,
          refl,
          other_put (wrap_signed (modulus w) z),
        )
  settle-outcome none c o (e, e') = rw (e, e') refl

  pub signed_arith-outcome :
      (op : SignedOp) (l2 : Register)
      → SignedOutcome w l1 q vm
          (exact_signed op (signed_value w vm.registers l1) (signed_value w vm.registers l2))
          (signed_arith w op l1 l2 vm)
  unfolding signed_arith read
  signed_arith-outcome op l2 = settle-outcome _ _ _ (
      checked-Settles (modulus w) op (signed_value w vm.registers l1)
        (signed_value w vm.registers l2))
