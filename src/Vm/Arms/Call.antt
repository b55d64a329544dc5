-- ===== src/Vm/Arms/Call.antt =====
-- `Call` and `Return` undo one another.
use hashc.Prelude.{ℕ, ◌+◌, ◌^◌, ◌<◌, ◌≡◌, inl, inr, refl, ◌∙◌, List, length, arith}
use hashc.Prelude.Bytes.{to_be_bytes, from_be_bytes, from-to_be_bytes}
use hashc.Vm.Error.{ok}
use hashc.Vm.Register.{
  Register, RegisterSet, IsRegisterFile, w64, get_register64, set_register64, base_pointer,
  stack_pointer, instruction_pointer,
}
use hashc.Vm.Register.RoundTrip.{to_be_bytes-IsBytes}
use hashc.Vm.Register.Words.{
  get_register64-lt, set_register64-IsRegisterFile, get-set_register64, get-set_register64_ne,
}
use hashc.Vm.Stack.{Stack, IsStack, push_width, pop_width}
use hashc.Vm.Stack.Contents.{Pushed, push-Pushed}
use hashc.Vm.Interpreter.{Interpreter, read, write, push_stack, pop_stack}
use hashc.Vm.Arms.{call_function, return_function}

abbrev pub word : ℕ → List ℕ
word v = to_be_bytes 8 v

pub pushed :
    (s : Stack) (v : ℕ)
    → IsStack s
    → s.stack_pointer + 8 < length s.cells
    → (s' : Stack) × (push_width w64 s (word v) ≡ ok s') × Pushed s (word v) s'
pushed s v h room = elim (push-Pushed w64 s (word v) h (to_be_bytes-IsBytes w64 v)) [
  | inl (_, found) ↦ found
  | inr (full, _) ↦ absurd (omega arith)
]

-- The registers after a call.
abbrev pub called : RegisterSet → Register → RegisterSet
called rs func =
    let framed = set_register64 rs base_pointer (get_register64 rs stack_pointer) in
    set_register64 framed instruction_pointer (get_register64 framed func)

pub call-eq :
    (func : Register) (vm : Interpreter) (s1 s2 : Stack)
    → push_width w64 vm.stack (word (get_register64 vm.registers instruction_pointer)) ≡ ok s1
    → push_width w64 s1 (word (get_register64 vm.registers base_pointer)) ≡ ok s2
    → call_function func vm
      ≡ (ok tt, record vm { stack = s2; registers = called vm.registers func })
unfolding call_function read write push_stack
call-eq func vm s1 s2 e1 e2 = rw (e1, e2) refl

-- The registers after a return that found `bp` and `ip` on the stack.
abbrev pub returned : RegisterSet → List ℕ → List ℕ → RegisterSet
returned rs bp ip =
    set_register64
      (set_register64 (set_register64 rs stack_pointer (get_register64 rs base_pointer))
        base_pointer (from_be_bytes bp))
      instruction_pointer (from_be_bytes ip)

pub return-eq :
    (vm : Interpreter) (s1 s2 : Stack) (bp ip : List ℕ)
    → pop_width w64 vm.stack ≡ ok (bp, s1)
    → pop_width w64 s1 ≡ ok (ip, s2)
    → return_function vm
      ≡ (ok tt, record vm { stack = s2; registers = returned vm.registers bp ip })
unfolding return_function read write pop_stack
return-eq vm s1 s2 bp ip e1 e2 = rw (e1, e2) refl

pub word_back : (v : ℕ) → v < 2 ^ 64 → from_be_bytes (word v) ≡ v
word_back v h = from-to_be_bytes 8 v h

module _ (rs : RegisterSet) (h : IsRegisterFile rs) (bp ip : ℕ) (hb : bp < 2 ^ 64)
    (hi : ip < 2 ^ 64) where
  abbrev pub rs1 : RegisterSet
  rs1 = set_register64 rs stack_pointer (get_register64 rs base_pointer)

  abbrev pub rs2 : RegisterSet
  rs2 = set_register64 rs1 base_pointer bp

  h1 : IsRegisterFile rs1
  h1 = set_register64-IsRegisterFile rs stack_pointer h _

  h2 : IsRegisterFile rs2
  h2 = set_register64-IsRegisterFile rs1 base_pointer h1 bp

  pub returned_values :
      (get_register64 (set_register64 rs2 instruction_pointer ip) instruction_pointer ≡ ip)
      × (get_register64 (set_register64 rs2 instruction_pointer ip) base_pointer ≡ bp)
      × (get_register64 (set_register64 rs2 instruction_pointer ip) stack_pointer
          ≡ get_register64 rs base_pointer)
  returned_values = (
    get-set_register64 rs2 instruction_pointer ip h2 (omega arith) hi,
    get-set_register64_ne rs2 instruction_pointer base_pointer ip (omega arith)
        ∙ get-set_register64 rs1 base_pointer bp h1 (omega arith) hb,
    get-set_register64_ne rs2 instruction_pointer stack_pointer ip (omega arith)
        ∙ get-set_register64_ne rs1 base_pointer stack_pointer bp (omega arith)
        ∙ get-set_register64 rs stack_pointer _ h (omega arith)
            (get_register64-lt rs base_pointer h),
  )

pub called-base_pointer :
    (rs : RegisterSet) (func : Register)
    → IsRegisterFile rs
    → get_register64 (called rs func) base_pointer ≡ get_register64 rs stack_pointer
called-base_pointer rs func h =
    get-set_register64_ne _ instruction_pointer base_pointer _ (omega arith)
    ∙ get-set_register64 rs base_pointer _ h (omega arith) (get_register64-lt rs stack_pointer h)
