-- ===== src/Vm/Interpreter.antt =====
-- The `Interpreter` of compiler/hash-vm/src/vm.rs, and methods on `&mut self` that may fail: what was
-- written before a failure stays written, so the state comes back beside the error too.
pub mod Keeps
use hashc.Prelude.{ℕ, ◌^◌, Bool, true, false, List, []}
use hashc.Prelude.Int.{ℤ, pos}
use hashc.Vm.Error.{Outcome, ok, err, panic}
use hashc.Vm.Register.{
  Register, RegisterSet, default_registers, instruction_pointer, get_register64, set_register64,
}
use hashc.Vm.Stack
use hashc.Vm.Stack.{Stack}
use hashc.Vm.Bytecode.{Instruction}

pub record InterpreterFlags : Type 0 where
  pub overflow : Bool
  pub comparison : ℤ

pub record Interpreter : Type 0 where
  pub stack : Stack
  pub flags : InterpreterFlags
  pub instructions : List Instruction
  pub registers : RegisterSet

abbrev pub default_stack_size : ℕ
default_stack_size = 10_000

unfoldable pub new : Interpreter
unfolding Stack.new default_registers
new = record {
  stack = Stack.new default_stack_size;
  flags = record { overflow = false; comparison = pos 0 };
  instructions = [];
  registers = default_registers;
}

abbrev pub Exec : Type 0 → Type 0
Exec A = Interpreter → Outcome A × Interpreter

abbrev continue : {A B : Type 0} → Outcome A → (A → Exec B) → Exec B
continue (ok a) f vm = f a vm
continue (err e) f vm = (err e, vm)
continue panic f vm = (panic, vm)

infixl 10 ◌>>=◌ ◌>>◌
abbrev pub ◌>>=◌ : {A B : Type 0} → Exec A → (A → Exec B) → Exec B
◌>>=◌ m f vm = continue (m vm).0 f (m vm).1

abbrev pub ◌>>◌ : {B : Type 0} → Exec (Unit {0}) → Exec B → Exec B
m >> n = m >>= λ _. n

-- A read of the registers.
unfoldable pub read : {A : Type 0} → (RegisterSet → A) → Exec A
read f vm = (ok (f vm.registers), vm)

-- A write to the registers.
unfoldable pub write : (RegisterSet → RegisterSet) → Exec (Unit {0})
write f vm = (ok tt, record vm { registers = f vm.registers })

unfoldable pub set_overflow : Bool → Exec (Unit {0})
set_overflow b vm = (ok tt, record vm { flags = record vm.flags { overflow = b } })

unfoldable pub panicked : Exec (Unit {0})
panicked vm = (panic, vm)

abbrev after_push : Outcome Stack → Exec (Unit {0})
after_push (ok s) vm = (ok tt, record vm { stack = s })
after_push (err e) vm = (err e, vm)
after_push panic vm = (panic, vm)

-- `self.stack.pushN(value)?`
unfoldable pub push_stack : (Stack → List ℕ → Outcome Stack) → List ℕ → Exec (Unit {0})
push_stack push value vm = after_push (push vm.stack value) vm

abbrev after_pop : Outcome (List ℕ × Stack) → Exec (List ℕ)
after_pop (ok (value, s)) vm = (ok value, record vm { stack = s })
after_pop (err e) vm = (err e, vm)
after_pop panic vm = (panic, vm)

-- `self.stack.popN()?`
unfoldable pub pop_stack : (Stack → Outcome (List ℕ × Stack)) → Exec (List ℕ)
pop_stack pop vm = after_pop (pop vm.stack) vm

-- A `usize` is taken to have 64 bits, so the conversions from and to `u64` do not fail.
unfoldable pub get_instruction_pointer : Interpreter → ℕ
get_instruction_pointer vm = get_register64 vm.registers instruction_pointer

unfoldable pub set_instruction_pointer : ℕ → Interpreter → Interpreter
set_instruction_pointer value vm = record vm {
  registers = set_register64 vm.registers instruction_pointer value;
}

unfoldable pub set_program : List Instruction → Interpreter → Interpreter
set_program program vm = record vm { instructions = program }
