-- ===== src/Vm/Stack.antt =====
-- compiler/hash-vm/src/stack.rs: a fixed block of bytes with a stack pointer. An operation that fails
-- leaves the stack as it was, so the new stack comes back only beside a success.
pub mod Contents
pub mod Tests
use hashc.Prelude.{ℕ, ◌+◌, ◌-◌, ◌≤◌, List, ◌++◌, take, drop, replicate, length, ltb, if◌then◌else◌}
use hashc.Prelude.Bytes.{All, IsByte}
use hashc.Vm.Error.{
  StackAccessKind, push, pop, RuntimeError, stack_violation_access, Outcome, ok, err, ◌>>=◌, ◌>>◌,
}
use hashc.Vm.Register.{Width, w8, w16, w32, w64}

-- `cells` is the field `data`.
pub record Stack : Type 0 where
  pub cells : List ℕ
  pub stack_pointer : ℕ

unfoldable pub new : ℕ → Stack
new size = record { cells = replicate size 0; stack_pointer = 0 }

-- `data.len() - stack_pointer` does not go below 0 on a stack that is well formed (`IsStack`).
pub verify_access : Stack → StackAccessKind → ℕ → Outcome (Unit {0})
verify_access s pop size =
    if ltb size s.stack_pointer
    then ok tt
    else err (stack_violation_access pop size (length s.cells))
verify_access s push size =
    if ltb size (length s.cells - s.stack_pointer)
    then ok tt
    else err (stack_violation_access push size (length s.cells))

-- The common text of `pop8` to `pop64`: `data[(sp - size)..sp]`, and the pointer moves down.
pub pop_bytes : ℕ → Stack → Outcome (List ℕ × Stack)
unfolding verify_access
pop_bytes size s = do
  verify_access s pop size
  let value = take size (drop (s.stack_pointer - size) s.cells)
  ok (value, record s { stack_pointer = s.stack_pointer - size })

pub pop8 : Stack → Outcome (List ℕ × Stack)
pop8 = pop_bytes 1

pub pop16 : Stack → Outcome (List ℕ × Stack)
pop16 = pop_bytes 2

pub pop32 : Stack → Outcome (List ℕ × Stack)
pop32 = pop_bytes 4

pub pop64 : Stack → Outcome (List ℕ × Stack)
pop64 = pop_bytes 8

-- The common text of `push8` to `push64`: `data.splice(sp..(sp + size), value)`.
pub push_bytes : ℕ → Stack → List ℕ → Outcome Stack
unfolding verify_access
push_bytes size s value = do
  verify_access s push size
  let spliced = take s.stack_pointer s.cells ++ (value ++ drop (s.stack_pointer + size) s.cells)
  ok (record { cells = spliced; stack_pointer = s.stack_pointer + size })

pub push8 : Stack → List ℕ → Outcome Stack
push8 = push_bytes 1

pub push16 : Stack → List ℕ → Outcome Stack
push16 = push_bytes 2

pub push32 : Stack → List ℕ → Outcome Stack
push32 = push_bytes 4

pub push64 : Stack → List ℕ → Outcome Stack
push64 = push_bytes 8

-- The pointer stays within the block, which holds bytes.
pub record IsStack (s : Stack) : Type 0 where
  pub within : s.stack_pointer ≤ length s.cells
  pub bytes : All IsByte s.cells

pub pop_width : Width → Stack → Outcome (List ℕ × Stack)
pop_width w8 = pop8
pop_width w16 = pop16
pop_width w32 = pop32
pop_width w64 = pop64

pub push_width : Width → Stack → List ℕ → Outcome Stack
push_width w8 = push8
push_width w16 = push16
push_width w32 = push32
push_width w64 = push64
