-- ===== src/Vm/Interpreter/Keeps.antt =====
-- Actions that keep an interpreter well formed, with what holds of the value they return.
use hashc.Prelude.{ℕ, ◌≡◌, ◌∙◌, inl, inr, ap, List, length, length-replicate, refl, Bool}
use hashc.Vm.Error.{Outcome, ok, err, panic}
use hashc.Vm.Register.{RegisterSet, IsRegisterFile, Width}
use hashc.Vm.Register.RoundTrip.{IsBytes}
use hashc.Vm.Stack.{Stack, IsStack, push_width, pop_width}
use hashc.Vm.Stack.Contents.{push-Pushed, pop-Popped, new-IsStack}
use hashc.Vm.Bytecode.{Instruction}
use hashc.Vm.Interpreter.{
  Interpreter, Exec, continue, ◌>>=◌, read, write, set_overflow, panicked, push_stack, pop_stack,
  new, set_program, default_stack_size, get_instruction_pointer,
}
use hashc.Vm.Register.Words.{default_registers-IsRegisterFile, default_instruction_pointer}

-- The registers are a register file and the stack is well formed; the program is `program` and the
-- stack has `capacity` bytes.
pub record IsInterpreter (program : List Instruction) (capacity : ℕ) (vm : Interpreter)
    : Type 0 where
  pub file : IsRegisterFile vm.registers
  pub stack_valid : IsStack vm.stack
  pub same_program : vm.instructions ≡ program
  pub same_capacity : length vm.stack.cells ≡ capacity

abbrev pub Post : {A : Type 0} → (A → Type 0) → Outcome A → Type 0
Post Q (ok a) = Q a
Post Q (err e) = Unit
Post Q panic = Unit

abbrev pub Top : {A : Type 0} → A → Type 0
Top a = Unit

module _ (program : List Instruction) (capacity : ℕ) where
  -- From a well-formed state, on success, error or panic, `m` leaves one; a value it returns meets `Q`.
  pub record Keeps {A : Type 0} (Q : A → Type 0) (m : Exec A) : Type 0 where
    pub at :
        (vm : Interpreter)
        → IsInterpreter program capacity vm
        → IsInterpreter program capacity (m vm).1 × Post Q (m vm).0

module _ {program : List Instruction} {capacity : ℕ} where
  pub Keeps-read :
      {A : Type 0} (Q : A → Type 0) (f : RegisterSet → A)
      → ((rs : RegisterSet) → IsRegisterFile rs → Q (f rs))
      → Keeps program capacity Q (read f)
  unfolding read
  Keeps-read Q f h = record { at = λ vm i. (i, h vm.registers i.file) }

  pub Keeps-write :
      (f : RegisterSet → RegisterSet)
      → ((rs : RegisterSet) → IsRegisterFile rs → IsRegisterFile (f rs))
      → Keeps program capacity Top (write f)
  unfolding write
  Keeps-write f h = record {
    at = λ vm i. (
      record {
        file = h vm.registers i.file;
        stack_valid = i.stack_valid;
        same_program = i.same_program;
        same_capacity = i.same_capacity;
      },
      tt,
    );
  }

  pub Keeps-set_overflow : (b : Bool) → Keeps program capacity Top (set_overflow b)
  unfolding set_overflow
  Keeps-set_overflow b = record {
    at = λ vm i. (
      record {
        file = i.file;
        stack_valid = i.stack_valid;
        same_program = i.same_program;
        same_capacity = i.same_capacity;
      },
      tt,
    );
  }

  pub Keeps-panicked : Keeps program capacity Top panicked
  unfolding panicked
  Keeps-panicked = record { at = λ vm i. (i, tt) }

  pub Keeps-continue :
      {A B : Type 0} (Q : A → Type 0) (R : B → Type 0) (o : Outcome A) (f : A → Exec B)
      → ((a : A) → Q a → Keeps program capacity R (f a))
      → (vm : Interpreter) → IsInterpreter program capacity vm
      → Post Q o
      → IsInterpreter program capacity (continue o f vm).1 × Post R (continue o f vm).0
  Keeps-continue Q R (ok a) f k vm i q = (k a q).at vm i
  Keeps-continue Q R (err e) f k vm i q = (i, tt)
  Keeps-continue Q R panic f k vm i q = (i, tt)

  pub Keeps-bind :
      {A B : Type 0} (Q : A → Type 0) (R : B → Type 0) (m : Exec A) (f : A → Exec B)
      → Keeps program capacity Q m
      → ((a : A) → Q a → Keeps program capacity R (f a))
      → Keeps program capacity R (m >>= f)
  Keeps-bind Q R m f h k = record {
    at = λ vm i. let p = h.at vm i in Keeps-continue Q R (m vm).0 f k (m vm).1 p.0 p.1;
  }

  with_stack :
      (vm : Interpreter) (s : Stack)
      → IsInterpreter program capacity vm
      → IsStack s
      → length s.cells ≡ length vm.stack.cells
      → IsInterpreter program capacity (record vm { stack = s })
  with_stack vm s i h e = record {
    file = i.file;
    stack_valid = h;
    same_program = i.same_program;
    same_capacity = e ∙ i.same_capacity;
  }

  pub Keeps-push :
      (w : Width) (v : List ℕ)
      → IsBytes w v
      → Keeps program capacity Top (push_stack (push_width w) v)
  unfolding push_stack
  Keeps-push w v b = record {
    at = λ vm i. elim (push-Pushed w vm.stack v i.stack_valid b) [
      | inl (room, (s', e, p)) ↦ rw e (with_stack vm s' i p.valid p.capacity, tt)
      | inr (full, e) ↦ rw e (i, tt)
    ];
  }

  pub Keeps-pop : (w : Width) → Keeps program capacity (IsBytes w) (pop_stack (pop_width w))
  unfolding pop_stack
  Keeps-pop w = record {
    at = λ vm i. elim (pop-Popped w vm.stack i.stack_valid) [
      | inl (deep, (v, s', e, b, p)) ↦ rw e (with_stack vm s' i p.valid (ap length p.cells), b)
      | inr (low, e) ↦ rw e (i, tt)
    ];
  }

-- A new machine with a program is well formed.
pub new-IsInterpreter :
    (program : List Instruction)
    → IsInterpreter program default_stack_size (set_program program new)
unfolding new set_program
new-IsInterpreter program = record {
  file = default_registers-IsRegisterFile;
  stack_valid = new-IsStack default_stack_size;
  same_program = refl;
  same_capacity = length-replicate {A = ℕ} default_stack_size 0;
}

pub new-instruction_pointer :
    (program : List Instruction) → get_instruction_pointer (set_program program new) ≡ 0
unfolding new set_program get_instruction_pointer
new-instruction_pointer program = default_instruction_pointer
