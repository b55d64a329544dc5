-- ===== src/Vm/Arms/Unsigned.antt =====
-- What an unsigned arithmetic arm does to the machine.
use hashc.Prelude.{ℕ, ◌<◌, ◌≡◌, ◌≢◌, inl, inr, refl, not, Option, none, some}
use hashc.Prelude.Int.{ℤ}
use hashc.Vm.Error.{Outcome, ok, panic}
use hashc.Vm.Register.{
  Register, IsRegisterFile, Width, modulus, get_register, set_register, get_register_8b,
}
use hashc.Vm.Register.RoundTrip.{get_register-lt, get-set_register, get_register_8b-set_register_ne}
use hashc.Vm.Alu.{ArithOp}
use hashc.Vm.Alu.Bounds.{modulus-pos, checked-lt, wrapping-lt}
use hashc.Vm.Alu.Exact.{exact, residue, in_range, Agrees, checked-wrapping-Agrees}
use hashc.Vm.Interpreter.{Interpreter, read, write, set_overflow, panicked}
use hashc.Vm.Arms.{settle, unsigned_arith}

-- With an exact result the arm succeeds, the low word of `l1` is its residue, the overflow flag says
-- whether it was out of range, and the stack and the register `q` are as before. With none the arm
-- panics before it writes anything.
abbrev pub ArithOutcome :
    Width → Register → Register → Interpreter → Option ℤ → Outcome (Unit {0}) × Interpreter → Type 0
ArithOutcome w l1 q vm (some z) r =
    (r.0 ≡ ok tt)
    × (get_register w r.1.registers l1 ≡ residue (modulus w) z)
    × (r.1.flags.overflow ≡ not (in_range (modulus w) z))
    × (r.1.stack ≡ vm.stack)
    × (get_register_8b r.1.registers q ≡ get_register_8b vm.registers q)
ArithOutcome w l1 q vm none r = r ≡ (panic, vm)

module _ (w : Width) (l1 q : Register) (vm : Interpreter) (h : IsRegisterFile vm.registers)
    (hr : l1.index < 256) (ne : l1.index ≢ q.index) where
  settle-outcome :
      (e : Option ℤ) (c o : Option ℕ)
      → ((v : ℕ) → c ≡ some v → v < modulus w)
      → ((v : ℕ) → o ≡ some v → v < modulus w)
      → Agrees (modulus w) e c o
      → ArithOutcome w l1 q vm e (settle (λ v rs. set_register w rs l1 v) c o vm)
  unfolding settle write set_overflow panicked
  settle-outcome (some z) c o hc ho (inl (fits, e)) =
      rw (e, fits)
        (
          refl,
          get-set_register w vm.registers l1 _ h hr (hc _ e),
          refl,
          refl,
          get_register_8b-set_register_ne w vm.registers l1 q _ h (hc _ e) ne,
        )
  settle-outcome (some z) c o hc ho (inr (out, e, e')) =
      rw (e, e', out)
        (
          refl,
          get-set_register w vm.registers l1 _ h hr (ho _ e'),
          refl,
          refl,
          get_register_8b-set_register_ne w vm.registers l1 q _ h (ho _ e') ne,
        )
  settle-outcome none c o hc ho (e, e') = rw (e, e') refl

  pub unsigned_arith-outcome :
      (op : ArithOp) (l2 : Register)
      → ArithOutcome w l1 q vm
          (exact op (get_register w vm.registers l1) (get_register w vm.registers l2))
          (unsigned_arith w op l1 l2 vm)
  unfolding unsigned_arith read
  unsigned_arith-outcome op l2 =
      let a = get_register w vm.registers l1 in
      let b = get_register w vm.registers l2 in
      let ha = get_register-lt vm.registers l1 h w in
      let hb = get_register-lt vm.registers l2 h w in
      settle-outcome (exact op a b) _ _ (checked-lt (modulus w) a b (modulus-pos w) ha hb op)
        (wrapping-lt (modulus w) a b (modulus-pos w) ha hb op)
        (checked-wrapping-Agrees (modulus w) a b ha hb op)
