-- ===== src/Vm/Run/Loop.antt =====
-- What the loop of `run` executes, and when it ends.
use hashc.Prelude.{
  ℕ, zero, suc, ◌+◌, ◌-◌, ◌^◌, ◌<◌, ◌≡◌, ◌≢◌, ◌∙◌, ap, refl, Bool, true, false, Option, none, some,
  List, arith, length, get_elem?, ltb, ◌==◌, subst,
}
use hashc.Vm.Error.{Outcome, ok, err, panic}
use hashc.Vm.Register.{instruction_pointer}
use hashc.Vm.Register.Words.{get-set_register64, set_register64-IsRegisterFile}
use hashc.Vm.Bytecode.{Instruction}
use hashc.Vm.Float.{FloatUnit}
use hashc.Vm.Interpreter.{Interpreter, get_instruction_pointer, set_instruction_pointer}
use hashc.Vm.Interpreter.Keeps.{IsInterpreter}
use hashc.Vm.Step.{step}
use hashc.Vm.Step.Valid.{step-IsInterpreter}
use hashc.Vm.Run.{Run, run_next_instruction, fetched, proceed, loop, run}

module _ (floats : FloatUnit) (checks : Bool) (fuel ip : ℕ) (vm : Interpreter) where
  loop_inside :
      ltb ip (length vm.instructions) ≡ true
      → loop floats checks (suc fuel) ip vm
        ≡ proceed ip
            (loop floats checks fuel ip)
            (run_next_instruction floats checks vm).0
            (run_next_instruction floats checks vm).1
  unfolding loop
  loop_inside e = rw (e, loop)

module _ (floats : FloatUnit) (checks : Bool) (program : List Instruction) (capacity : ℕ) where
  abbrev Good : Interpreter → Type 0
  Good = IsInterpreter program capacity

  fetched-Good :
      (i : Option Instruction) (vm : Interpreter) → Good vm → Good (fetched floats checks i vm).1
  fetched-Good none vm h = h
  fetched-Good (some i) vm h = step-IsInterpreter floats checks i program capacity vm h

  next-Good : (vm : Interpreter) → Good vm → Good (run_next_instruction floats checks vm).1
  unfolding run_next_instruction
  next-Good vm h = fetched-Good _ vm h

  set_ip-Good : (n : ℕ) (vm : Interpreter) → Good vm → Good (set_instruction_pointer n vm)
  unfolding set_instruction_pointer
  set_ip-Good n vm h = record {
    file = set_register64-IsRegisterFile vm.registers instruction_pointer h.file n;
    stack_valid = h.stack_valid;
    same_program = h.same_program;
    same_capacity = h.same_capacity;
  }

  module _ (ip : ℕ) (more : ip + 1 < length program) where
    not_last : (vm : Interpreter) → Good vm → (ip == length vm.instructions - 1) ≡ false
    not_last vm h = rw h.same_program (ground arith)

    proceed-ne_ok :
        (next : Interpreter → Run) (o : Outcome (Unit {0})) (vm : Interpreter)
        → ((u : Interpreter) → Good u → (next u).0 ≢ some (ok tt))
        → Good vm
        → (proceed ip next o vm).0 ≢ some (ok tt)
    proceed-ne_ok next (ok _) vm k h = rw (not_last vm h) (k _ (set_ip-Good (ip + 1) vm h))
    proceed-ne_ok next (err e) vm k h = λ e. cc
    proceed-ne_ok next panic vm k h = λ e. cc

    loop-ne_ok :
        (fuel : ℕ) (vm : Interpreter) → Good vm → (loop floats checks fuel ip vm).0 ≢ some (ok tt)
    unfolding loop
    loop-ne_ok zero vm h = λ e. cc
    loop-ne_ok (suc fuel) vm h =
        let inside : ltb ip (length vm.instructions) ≡ true = rw h.same_program (ground arith) in
        rw (loop_inside floats checks fuel ip vm inside) (
          proceed-ne_ok (loop floats checks fuel ip) _ _ (λ u g. loop-ne_ok fuel u g)
            (next-Good vm h))

  -- One round in which the instruction at the register's position is `i`.
  next_step :
      (vm : Interpreter) (ip : ℕ) (i : Instruction)
      → Good vm
      → get_instruction_pointer vm ≡ ip
      → get_elem? program ip ≡ some i
      → run_next_instruction floats checks vm ≡ step floats checks i vm
  unfolding run_next_instruction
  next_step vm ip i h e at =
      let found : get_elem? vm.instructions (get_instruction_pointer vm) ≡ some i =
        simp (h.same_program, e) at in
      ap (λ (o : Option Instruction). fetched floats checks o vm) found

-- From a valid state whose program has an instruction after the one that `run` starts at, `run` does
-- not return `Ok`, whatever the instructions and however many rounds it is given.
pub run-ne_ok :
    (floats : FloatUnit) (checks : Bool) (program : List Instruction) (capacity fuel : ℕ)
    (vm : Interpreter)
    → IsInterpreter program capacity vm
    → get_instruction_pointer vm + 1 < length program
    → (run floats checks fuel vm).0 ≢ some (ok tt)
unfolding run
run-ne_ok floats checks program capacity fuel vm h more =
    loop-ne_ok floats checks program capacity (get_instruction_pointer vm) more fuel vm h

proceed-last :
    (ip : ℕ) (next : Interpreter → Run) (o : Outcome (Unit {0})) (vm : Interpreter)
    → (ip == length vm.instructions - 1) ≡ true
    → proceed ip next o vm ≡ (some o, vm)
proceed-last ip next (ok _) vm e = rw e
proceed-last ip next (err x) vm e = refl
proceed-last ip next panic vm e = refl

-- From a valid state at the last instruction of the program, `run` executes it once and returns its
-- outcome, given a round or more.
pub run-last :
    (floats : FloatUnit) (checks : Bool) (program : List Instruction) (capacity fuel : ℕ)
    (i : Instruction) (vm : Interpreter)
    → IsInterpreter program capacity vm
    → get_instruction_pointer vm + 1 ≡ length program
    → get_elem? program (get_instruction_pointer vm) ≡ some i
    → run floats checks (suc fuel) vm
      ≡ (some (step floats checks i vm).0, (step floats checks i vm).1)
unfolding run
run-last floats checks program capacity fuel i vm h last at =
    let ip = get_instruction_pointer vm in
    let inside : ltb ip (length vm.instructions) ≡ true = rw h.same_program (ground arith) in
    loop_inside floats checks fuel ip vm inside
    ∙ rw (next_step floats checks program capacity vm ip i h refl at) (
        proceed-last ip (loop floats checks fuel ip) (step floats checks i vm).0
          (step floats checks i vm).1
          (rw (step-IsInterpreter floats checks i program capacity vm h).same_program
            (ground arith)))

abbrev resume : ℕ → (Interpreter → Run) → Outcome (Unit {0}) → Interpreter → Run
resume j next (ok _) vm = next (set_instruction_pointer j vm)
resume j next (err e) vm = (some (err e), vm)
resume j next panic vm = (some panic, vm)

-- The machine that executes `i` alone, with the instruction pointer at `j` before each round.
pub again : FloatUnit → Bool → ℕ → ℕ → Instruction → Interpreter → Run
again floats checks zero j i vm = (none, vm)
again floats checks (suc fuel) j i vm =
    resume j (again floats checks fuel j i) (step floats checks i vm).0 (step floats checks i vm).1

module _ (floats : FloatUnit) (checks : Bool) (program : List Instruction) (capacity : ℕ) (ip : ℕ)
    (i : Instruction) (more : ip + 1 < length program) (bound : length program < 2 ^ 64)
    (at : get_elem? program (ip + 1) ≡ some i) where
  ip_back :
      (vm : Interpreter)
      → IsInterpreter program capacity vm
      → get_instruction_pointer (set_instruction_pointer (ip + 1) vm) ≡ ip + 1
  unfolding get_instruction_pointer set_instruction_pointer
  ip_back vm h =
      get-set_register64 vm.registers instruction_pointer (ip + 1) h.file (omega arith)
        (omega arith)

  proceed-resume :
      (f g : Interpreter → Run) (o : Outcome (Unit {0})) (vm : Interpreter)
      → ((u : Interpreter)
          → IsInterpreter program capacity u
          → get_instruction_pointer u ≡ ip + 1
          → f u ≡ g u)
      → IsInterpreter program capacity vm
      → proceed ip f o vm ≡ resume (ip + 1) g o vm
  proceed-resume f g (ok _) vm k h =
      rw (not_last floats checks program capacity ip more vm h)
        (k _ (set_ip-Good floats checks program capacity (ip + 1) vm h) (ip_back vm h))
  proceed-resume f g (err e) vm k h = refl
  proceed-resume f g panic vm k h = refl

  loop-again :
      (fuel : ℕ) (vm : Interpreter)
      → IsInterpreter program capacity vm
      → get_instruction_pointer vm ≡ ip + 1
      → loop floats checks fuel ip vm ≡ again floats checks fuel (ip + 1) i vm
  unfolding again
  loop-again zero vm h e = unfold loop in refl
  loop-again (suc fuel) vm h e =
      let inside : ltb ip (length vm.instructions) ≡ true = rw h.same_program (ground arith) in
      loop_inside floats checks fuel ip vm inside
      ∙ rw (next_step floats checks program capacity vm (ip + 1) i h e at) (
          proceed-resume _ _ (step floats checks i vm).0 (step floats checks i vm).1
            (λ u g p. loop-again fuel u g p)
            (step-IsInterpreter floats checks i program capacity vm h))

-- From a valid state whose program has fewer than `2^64` instructions, and an instruction `i` after
-- the first, `run` executes the first and, if that succeeds, then `i` over and over: jumps and every
-- later instruction are without effect.
pub run-again :
    (floats : FloatUnit) (checks : Bool) (program : List Instruction) (capacity fuel : ℕ)
    (first i : Instruction) (vm vm' : Interpreter)
    → IsInterpreter program capacity vm
    → get_instruction_pointer vm + 1 < length program
    → length program < 2 ^ 64
    → get_elem? program (get_instruction_pointer vm) ≡ some first
    → get_elem? program (get_instruction_pointer vm + 1) ≡ some i
    → step floats checks first vm ≡ (ok tt, vm')
    → run floats checks (suc fuel) vm
      ≡ again floats checks fuel
          (get_instruction_pointer vm + 1)
          i
          (set_instruction_pointer (get_instruction_pointer vm + 1) vm')
unfolding run
run-again floats checks program capacity fuel first i vm vm' h more bound at0 at1 e =
    let ip = get_instruction_pointer vm in
    let inside : ltb ip (length vm.instructions) ≡ true = rw h.same_program (ground arith) in
    let good : IsInterpreter program capacity vm' =
      subst (λ (r : Outcome (Unit {0}) × Interpreter). IsInterpreter program capacity r.1) e
        (step-IsInterpreter floats checks first program capacity vm h) in
    loop_inside floats checks fuel ip vm inside
    ∙ rw (next_step floats checks program capacity vm ip first h refl at0, e)
        (rw (not_last floats checks program capacity ip more vm' good) (
          loop-again floats checks program capacity ip i more bound at1 fuel _
            (set_ip-Good floats checks program capacity (ip + 1) vm' good)
            (ip_back floats checks program capacity ip i more bound at1 vm' good)))
