-- ===== src/Vm/Arms/Valid.antt =====
-- Every arm of `run_next_instruction` keeps an interpreter well formed.
use hashc.Prelude.{ℕ, ◌<◌, ◌≡◌, refl, Bool, true, false, Option, none, some, List, if◌then◌else◌}
use hashc.Prelude.Bytes.{to_be_bytes}
use hashc.Prelude.Int.{ℤ}
use hashc.Vm.Register.{
  Register, RegisterSet, Width, w8, w16, w32, w64, modulus, get_register, set_register,
  set_register_bytes, set_register64, base_pointer, stack_pointer, instruction_pointer,
}
use hashc.Vm.Register.RoundTrip.{
  IsBytes, to_be_bytes-IsBytes, get_register_bytes-IsBytes, get_register-lt,
  set_register-IsRegisterFile, set_register_bytes-IsRegisterFile,
}
use hashc.Vm.Register.Words.{
  set_register64-IsRegisterFile, set_register_8b-IsRegisterFile, set_register_f32-IsRegisterFile,
  set_register_f64-IsRegisterFile,
}
use hashc.Vm.Stack.{push_width, pop_width}
use hashc.Vm.Bytecode.{Instruction}
use hashc.Vm.Alu.{ArithOp, SignedOp, idiv, imul, BitOp, ShiftOp}
use hashc.Vm.Alu.Bounds.{
  bitwise_op-lt-modulus, modulus-pos, checked-lt, wrapping-lt, complement-lt, shifted-lt,
}
use hashc.Vm.Float.{FloatOp, FloatUnit}
use hashc.Vm.Interpreter.{Exec, ◌>>=◌, ◌>>◌, read, write, push_stack, pop_stack}
use hashc.Vm.Interpreter.Keeps.{
  Keeps, Top, Keeps-read, Keeps-write, Keeps-set_overflow, Keeps-panicked, Keeps-bind, Keeps-push,
  Keeps-pop,
}
use hashc.Vm.Arms.{
  settle, unsigned_arith, signed_arith, signed16, bitwise, negation, shift_by, shift, move, jump,
  skip, jump_if, difference, store_difference, compare_registers, pop_register, push_register,
  call_function, return_function, float32, float64, arith8, arith16, arith32, arith64, signed8,
  signed32, signed64,
}

module _ (program : List Instruction) (capacity : ℕ) where
  abbrev K : Exec (Unit {0}) → Type 0
  K m = Keeps program capacity Top m

  -- The rest of a block after a read of one register at a width.
  read_register :
      (w : Width) (r : Register) (f : ℕ → Exec (Unit {0}))
      → ((v : ℕ) → v < modulus w → K (f v))
      → K (read (λ rs. get_register w rs r) >>= f)
  read_register w r f k =
      Keeps-bind (λ v. v < modulus w) Top _ f (Keeps-read _ _ (λ rs h. get_register-lt rs r h w)) k

  read_any :
      {A : Type 0} (g : _ → A) (f : A → Exec (Unit {0})) → ((a : A) → K (f a)) → K (read g >>= f)
  read_any g f k = Keeps-bind (λ _. Unit) Top (read g) f (Keeps-read _ g (λ rs h. tt)) (λ a _. k a)

  write_register_lem :
      (w : Width) (r : Register) (v : ℕ) → v < modulus w → K (write (λ rs. set_register w rs r v))
  write_register_lem w r v h = Keeps-write _ (λ rs i. set_register-IsRegisterFile rs r i w v h)

  write_bytes :
      (w : Width) (r : Register) (bs : List ℕ)
      → IsBytes w bs
      → K (write (λ rs. set_register_bytes w rs r bs))
  write_bytes w r bs h = Keeps-write _ (λ rs i. set_register_bytes-IsRegisterFile rs r i w bs h)

  settle-Keeps :
      {A : Type 0} (put : A → RegisterSet → RegisterSet) (o o' : Option A)
      → ((a : A) → o ≡ some a → K (write (put a)))
      → ((a : A) → o' ≡ some a → K (write (put a)))
      → K (settle put o o')
  unfolding settle
  settle-Keeps put (some a) o' h h' =
      Keeps-bind Top Top _ _ (h a refl) (λ _ _. Keeps-set_overflow false)
  settle-Keeps put none (some a) h h' =
      Keeps-bind Top Top _ _ (h' a refl) (λ _ _. Keeps-set_overflow true)
  settle-Keeps put none none h h' = Keeps-panicked

  pub unsigned_arith-Keeps :
      (w : Width) (op : ArithOp) (l1 l2 : Register) → K (unsigned_arith w op l1 l2)
  unfolding unsigned_arith
  unsigned_arith-Keeps w op l1 l2 = read_register w l1 _ λ a ha. read_register w l2 _ λ b hb.
      settle-Keeps _ _ _
        (λ c e. write_register_lem w l1 c (checked-lt (modulus w) a b (modulus-pos w) ha hb op c e))
        (λ c e.
          write_register_lem w l1 c (wrapping-lt (modulus w) a b (modulus-pos w) ha hb op c e))

  pub signed_arith-Keeps :
      (w : Width) (op : SignedOp) (l1 l2 : Register) → K (signed_arith w op l1 l2)
  unfolding signed_arith
  signed_arith-Keeps w op l1 l2 = read_any _ _ λ a. read_any _ _ λ b.
      settle-Keeps _ _ _ (λ c e. write_bytes w l1 _ (to_be_bytes-IsBytes w _))
        (λ c e. write_bytes w l1 _ (to_be_bytes-IsBytes w _))

  pub signed16-Keeps : (op : SignedOp) (l1 l2 : Register) → K (signed16 op l1 l2)
  unfolding signed16
  signed16-Keeps idiv l1 l2 = signed_arith-Keeps w16 imul l1 l2
  signed16-Keeps imul l1 l2 = signed_arith-Keeps w16 imul l1 l2

  pub bitwise-Keeps : (w : Width) (op : BitOp) (l1 l2 : Register) → K (bitwise w op l1 l2)
  unfolding bitwise
  bitwise-Keeps w op l1 l2 = read_register w l1 _ λ a ha.
      read_register w l2 _ λ b hb. write_register_lem w l1 _ (bitwise_op-lt-modulus op w a b ha hb)

  pub negation-Keeps : (w : Width) (l1 : Register) → K (negation w l1)
  unfolding negation
  negation-Keeps w l1 =
      read_register w l1 _
        λ a ha. write_register_lem w l1 _ (complement-lt (modulus w) a a (modulus-pos w) ha ha)

  shift_by-Keeps :
      (w : Width) (op : ShiftOp) (l1 : Register) (a : ℕ) (k : Option ℕ)
      → a < modulus w
      → K (shift_by w op l1 a k)
  shift_by-Keeps w op l1 a none ha = Keeps-panicked
  shift_by-Keeps w op l1 a (some k) ha =
      write_register_lem w l1 _ (shifted-lt (modulus w) a a (modulus-pos w) ha ha op k)

  pub shift-Keeps :
      (checks : Bool) (w : Width) (op : ShiftOp) (l1 l2 : Register) → K (shift checks w op l1 l2)
  unfolding shift
  shift-Keeps checks w op l1 l2 =
      read_register w l1 _ λ a ha. read_register w l2 _ λ b hb. shift_by-Keeps w op l1 a _ ha

  write64 : (r : Register) (v : ℕ) → K (write (λ rs. set_register64 rs r v))
  write64 r v = Keeps-write _ (λ rs i. set_register64-IsRegisterFile rs r i v)

  pub move-Keeps : (src dest : Register) → K (move src dest)
  unfolding move
  move-Keeps src dest = read_any _ _ λ v. write64 dest v

  pub jump-Keeps : (location : Register) → K (jump location)
  unfolding jump
  jump-Keeps location = read_any _ _ λ v. write64 instruction_pointer v

  jump_or_skip : (b : Bool) (location : Register) → K (if b then jump location else skip)
  jump_or_skip true location = jump-Keeps location
  jump_or_skip false location = record { at = λ vm i. (i, tt) }

  pub jump_if-Keeps : (test : ℤ → Bool) (l1 location : Register) → K (jump_if test l1 location)
  unfolding jump_if
  jump_if-Keeps test l1 location = read_any _ _ λ z. jump_or_skip (test z) location

  store_difference-Keeps : (l1 : Register) (d : Option ℕ) → K (store_difference l1 d)
  store_difference-Keeps l1 none = Keeps-panicked
  store_difference-Keeps l1 (some v) =
      Keeps-write _ (λ rs i. set_register_8b-IsRegisterFile rs l1 i _ (to_be_bytes-IsBytes w64 v))

  pub compare_registers-Keeps :
      (checks : Bool) (l1 l2 : Register) → K (compare_registers checks l1 l2)
  unfolding compare_registers
  compare_registers-Keeps checks l1 l2 =
      read_any _ _ λ a. read_any _ _ λ b. store_difference-Keeps l1 (difference checks a b)

  pub pop_register-Keeps : (w : Width) (l1 : Register) → K (pop_register w l1)
  unfolding pop_register
  pop_register-Keeps w l1 = Keeps-bind (IsBytes w) Top _ _ (Keeps-pop w) (write_bytes w l1)

  pub push_register-Keeps : (w : Width) (l1 : Register) → K (push_register w l1)
  unfolding push_register
  push_register-Keeps w l1 =
      Keeps-bind (IsBytes w) Top _ _ (Keeps-read _ _ (λ rs h. get_register_bytes-IsBytes rs l1 h w))
        (λ v b. Keeps-push w v b)

  push_word :
      (v : ℕ) (rest : Exec (Unit {0}))
      → K rest
      → K (push_stack (push_width w64) (to_be_bytes 8 v) >> rest)
  push_word v rest k =
      Keeps-bind Top Top _ _ (Keeps-push w64 _ (to_be_bytes-IsBytes w64 v)) (λ _ _. k)

  then_write64 :
      (r : Register) (v : ℕ) (rest : Exec (Unit {0}))
      → K rest
      → K (write (λ rs. set_register64 rs r v) >> rest)
  then_write64 r v rest k = Keeps-bind Top Top _ _ (write64 r v) (λ _ _. k)

  pub call_function-Keeps : (func : Register) → K (call_function func)
  unfolding call_function
  call_function-Keeps func = read_any _ _ λ ip. push_word ip _ (
      read_any _ _ λ bp. push_word bp _ (
        read_any _ _
          λ sp. then_write64 base_pointer sp _ (read_any _ _ λ t. write64 instruction_pointer t)))

  pop_word :
      (f : List ℕ → Exec (Unit {0}))
      → ((v : List ℕ) → K (f v))
      → K (pop_stack (pop_width w64) >>= f)
  pop_word f k = Keeps-bind (IsBytes w64) Top _ f (Keeps-pop w64) (λ v _. k v)

  pub return_function-Keeps : K return_function
  unfolding return_function
  return_function-Keeps = read_any _ _ λ bp. then_write64 stack_pointer bp _ (
      pop_word _ λ saved_bp.
        then_write64 base_pointer _ _ (pop_word _ λ saved_ip. write64 instruction_pointer _))

  module _ (floats : FloatUnit) where
    pub float32-Keeps : (op : FloatOp) (l1 l2 : Register) → K (float32 floats op l1 l2)
    unfolding float32
    float32-Keeps op l1 l2 =
        read_any _ _
          λ a. read_any _ _ λ b. Keeps-write _ (λ rs i. set_register_f32-IsRegisterFile rs l1 i _)

    pub float64-Keeps : (op : FloatOp) (l1 l2 : Register) → K (float64 floats op l1 l2)
    unfolding float64
    float64-Keeps op l1 l2 =
        read_any _ _
          λ a. read_any _ _ λ b. Keeps-write _ (λ rs i. set_register_f64-IsRegisterFile rs l1 i _)

  pub arith8-Keeps : (op : ArithOp) (l1 l2 : Register) → K (arith8 op l1 l2)
  unfolding arith8
  arith8-Keeps = unsigned_arith-Keeps w8

  pub arith16-Keeps : (op : ArithOp) (l1 l2 : Register) → K (arith16 op l1 l2)
  unfolding arith16
  arith16-Keeps = unsigned_arith-Keeps w16

  pub arith32-Keeps : (op : ArithOp) (l1 l2 : Register) → K (arith32 op l1 l2)
  unfolding arith32
  arith32-Keeps = unsigned_arith-Keeps w32

  pub arith64-Keeps : (op : ArithOp) (l1 l2 : Register) → K (arith64 op l1 l2)
  unfolding arith64
  arith64-Keeps = unsigned_arith-Keeps w64

  pub signed8-Keeps : (op : SignedOp) (l1 l2 : Register) → K (signed8 op l1 l2)
  unfolding signed8
  signed8-Keeps = signed_arith-Keeps w8

  pub signed32-Keeps : (op : SignedOp) (l1 l2 : Register) → K (signed32 op l1 l2)
  unfolding signed32
  signed32-Keeps = signed_arith-Keeps w32

  pub signed64-Keeps : (op : SignedOp) (l1 l2 : Register) → K (signed64 op l1 l2)
  unfolding signed64
  signed64-Keeps = signed_arith-Keeps w64
