-- ===== src/Vm/Stack/Tests.antt =====
-- The stack at concrete inputs.
use hashc.Prelude.{ℕ, ◌+◌, ◌<◌, ◌≤◌, ◌≡◌, ◌⊎◌, refl, List, [], ◌∷◌, length, arith}
use hashc.Vm.Error.{push, pop, stack_violation_access, ok, err}
use hashc.Vm.Register.{w8, w16, byte_count}
use hashc.Vm.Register.RoundTrip.{IsBytes}
use hashc.Vm.Stack.{Stack, IsStack, pop_width, push_width, push8, push16, push_bytes}
use hashc.Vm.Stack.Contents.{
  contents, Pushed, Popped, push-Pushed, pop-Popped, pop-push, pop-push_empty,
}

abbrev word : List ℕ
word = 0xca ∷ 0xfe ∷ []

abbrev one_byte : Stack
one_byte = record { cells = 7 ∷ 0 ∷ 0 ∷ 0 ∷ []; stack_pointer = 1 }

abbrev three_bytes : Stack
three_bytes = record { cells = 7 ∷ 0xca ∷ 0xfe ∷ 0 ∷ []; stack_pointer = 3 }

one_byte-IsStack : IsStack one_byte
one_byte-IsStack = omega arith

pushed_word : push_width w16 one_byte word ≡ ok three_bytes
unfolding push_width push16 push_bytes
pushed_word = refl

-- The last free byte cannot be used.
full_stack : push_width w8 three_bytes (1 ∷ []) ≡ err (stack_violation_access push 1 4)
unfolding push_width push8 push_bytes
full_stack = refl

push-Pushed_example :
    ((1 + byte_count w16 < length one_byte.cells)
      × ((s' : Stack) × (push_width w16 one_byte word ≡ ok s') × Pushed one_byte word s'))
    ⊎ ((length one_byte.cells ≤ 1 + byte_count w16)
        × (push_width w16 one_byte word
            ≡ err (stack_violation_access push (byte_count w16) (length one_byte.cells))))
push-Pushed_example = push-Pushed w16 one_byte word one_byte-IsStack (omega arith)

pop-Popped_example :
    ((byte_count w16 < three_bytes.stack_pointer)
      × ((v : List ℕ) × (s' : Stack) × (pop_width w16 three_bytes ≡ ok (v, s'))
          × IsBytes w16 v
          × Popped three_bytes v s'))
    ⊎ ((three_bytes.stack_pointer ≤ byte_count w16)
        × (pop_width w16 three_bytes
            ≡ err (stack_violation_access pop (byte_count w16) (length three_bytes.cells))))
pop-Popped_example = pop-Popped w16 three_bytes (omega arith)

pop-push_example :
    (t : Stack) × (pop_width w16 three_bytes ≡ ok (word, t))
    × (contents t ≡ contents one_byte)
    × (t.stack_pointer ≡ one_byte.stack_pointer)
    × IsStack t
pop-push_example =
    pop-push w16 one_byte three_bytes word one_byte-IsStack (omega arith) (omega arith) pushed_word

abbrev empty : Stack
empty = record { cells = 0 ∷ 0 ∷ 0 ∷ []; stack_pointer = 0 }

abbrev one_pushed : Stack
one_pushed = record { cells = 9 ∷ 0 ∷ 0 ∷ []; stack_pointer = 1 }

pushed_byte : push_width w8 empty (9 ∷ []) ≡ ok one_pushed
unfolding push_width push8 push_bytes
pushed_byte = refl

pop-push_empty_example :
    pop_width w8 one_pushed ≡ err (stack_violation_access pop (byte_count w8) (length empty.cells))
pop-push_empty_example =
    pop-push_empty w8 empty one_pushed (9 ∷ []) (omega arith) (omega arith) refl pushed_byte
