-- ===== src/Vm/Step/Call.antt =====
-- A call and the return from it.
use hashc.Prelude.{ℕ, ◌+◌, ◌<◌, ◌≡◌, refl, ap, ◌∙◌, Bool, length, arith}
use hashc.Vm.Error.{Outcome, ok}
use hashc.Vm.Register.{
  Register, IsRegisterFile, w64, get_register64, base_pointer, stack_pointer, instruction_pointer,
}
use hashc.Vm.Register.RoundTrip.{to_be_bytes-IsBytes}
use hashc.Vm.Register.Words.{get_register64-lt}
use hashc.Vm.Stack.{Stack, IsStack, push_width, pop_width}
use hashc.Vm.Stack.Contents.{contents, Pushed, pop-contents}
use hashc.Vm.Bytecode.{Instruction}
use hashc.Vm.Float.{FloatUnit}
use hashc.Vm.Interpreter.{Interpreter}
use hashc.Vm.Arms.Call.{
  word, pushed, call-eq, return-eq, word_back, returned_values, called-base_pointer,
}
use hashc.Vm.Step.{step}

module _ (func : Register) (vm : Interpreter) (h : IsRegisterFile vm.registers)
    (hs : IsStack vm.stack) (room : vm.stack.stack_pointer + 16 < length vm.stack.cells) where
  abbrev ip : ℕ
  ip = get_register64 vm.registers instruction_pointer

  abbrev bp : ℕ
  bp = get_register64 vm.registers base_pointer

  -- The machine after the call: two words more on the stack, and the new frame.
  after_call :
      (s1 s2 : Stack) × (push_width w64 vm.stack (word ip) ≡ ok s1)
      × (push_width w64 s1 (word bp) ≡ ok s2)
      × Pushed vm.stack (word ip) s1
      × Pushed s1 (word bp) s2
  after_call =
      let (s1, e1, p1) = pushed vm.stack ip hs (omega arith) in
      let n = (to_be_bytes-IsBytes w64 ip).0 in
      let (s2, e2, p2) = pushed s1 bp p1.valid (omega (arith, p1.pointer, p1.capacity, n)) in
      (s1, s2, e1, e2, p1, p2)

-- What the return finds on the stack of the call, and the stack that it leaves.
module _ (s s1 s2 : Stack) (ip bp : ℕ) (pos : 0 < s.stack_pointer) (p1 : Pushed s (word ip) s1)
    (p2 : Pushed s1 (word bp) s2) where
  pops :
      (t1 t2 : Stack) × (pop_width w64 s2 ≡ ok (word bp, t1))
      × (pop_width w64 t1 ≡ ok (word ip, t2))
      × (contents t2 ≡ contents s)
      × (t2.stack_pointer ≡ s.stack_pointer)
  pops =
      let bi = to_be_bytes-IsBytes w64 ip in
      let bb = to_be_bytes-IsBytes w64 bp in
      let (t1, e1, c1, k1, v1) =
        pop-contents w64 s2 (contents s1) (word bp) p2.valid bb
          (omega (arith, p1.pointer, p2.pointer, bi.0, bb.0)) p2.appended in
      let (t2, e2, c2, k2, v2) =
        pop-contents w64 t1 (contents s) (word ip) v1 bi
          (omega (arith, p1.pointer, p2.pointer, bi.0, bb.0)) (c1 ∙ p1.appended) in
      (t1, t2, e1, e2, c2, omega (arith, p1.pointer, p2.pointer, bi.0, bb.0))

-- On a set of 256 words, a call with a valid stack that holds a byte and has room for more than 16
-- succeeds. A return from any state
-- with the stack and the base pointer that the call left succeeds too, and restores the instruction
-- pointer, the base pointer, the stack pointer register and the contents of the stack.
pub return-call :
    (floats : FloatUnit) (checks : Bool) (func : Register) (vm vm' : Interpreter)
    → IsRegisterFile vm.registers
    → IsStack vm.stack
    → 0 < vm.stack.stack_pointer
    → vm.stack.stack_pointer + 16 < length vm.stack.cells
    → IsRegisterFile vm'.registers
    → vm'.stack ≡ (step floats checks (Instruction.call func) vm).1.stack
    → get_register64 vm'.registers base_pointer
      ≡ get_register64 (step floats checks (Instruction.call func) vm).1.registers base_pointer
    → ((step floats checks (Instruction.call func) vm).0 ≡ ok tt)
      × ((step floats checks Instruction.return vm').0 ≡ ok tt)
      × (get_register64 (step floats checks Instruction.return vm').1.registers instruction_pointer
          ≡ get_register64 vm.registers instruction_pointer)
      × (get_register64 (step floats checks Instruction.return vm').1.registers base_pointer
          ≡ get_register64 vm.registers base_pointer)
      × (get_register64 (step floats checks Instruction.return vm').1.registers stack_pointer
          ≡ get_register64 vm.registers stack_pointer)
      × (contents (step floats checks Instruction.return vm').1.stack ≡ contents vm.stack)
unfolding step
return-call floats checks func vm vm' h hs pos room h' same frame =
    let ip = get_register64 vm.registers instruction_pointer in
    let bp = get_register64 vm.registers base_pointer in
    let (s1, s2, e1, e2, p1, p2) = after_call func vm h hs room in
    let c = call-eq func vm s1 s2 e1 e2 in
    let (t1, t2, q1, q2, k, _) = pops vm.stack s1 s2 ip bp pos p1 p2 in
    let stack_eq : vm'.stack ≡ s2 =
      same ∙ ap (λ (r : Outcome (Unit {0}) × Interpreter). r.1.stack) c in
    let frame_eq : get_register64 vm'.registers base_pointer
        ≡ get_register64 vm.registers stack_pointer =
      frame
      ∙ ap (λ (r : Outcome (Unit {0}) × Interpreter). get_register64 r.1.registers base_pointer) c
      ∙ called-base_pointer vm.registers func h in
    let r = return-eq vm' t1 t2 (word bp) (word ip) (ap (pop_width w64) stack_eq ∙ q1) q2 in
    let v =
      returned_values vm'.registers h' bp ip (get_register64-lt vm.registers base_pointer h)
        (get_register64-lt vm.registers instruction_pointer h) in
    rw
      (
        c,
        r,
        word_back bp (get_register64-lt vm.registers base_pointer h),
        word_back ip (get_register64-lt vm.registers instruction_pointer h),
      )
      (refl, refl, v.0, v.1, v.2 ∙ frame_eq, k)
