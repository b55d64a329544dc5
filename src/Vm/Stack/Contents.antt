-- ===== src/Vm/Stack/Contents.antt =====
-- The stack as the list of the bytes below its pointer: pushes append, pops take the end off.
use hashc.Prelude.{
  ℕ, ◌+◌, ◌-◌, ◌≤◌, ◌<◌, ◌≡◌, ◌⊎◌, inl, inr, refl, sym, ap, ◌∙◌, subst, append_inj, List, ◌++◌,
  arith, take, drop, length, ltb, Bool-cases, length-take, length-append, length-drop, append_assoc,
  take-append, take-add,
}
use hashc.Prelude.Bytes.{All, IsByte, All-append, All-take, All-drop, All-replicate}
use hashc.Vm.Error.{push, pop, stack_violation_access, ok, err, ok-injective}
use hashc.Vm.Register.{Width, byte_count}
use hashc.Vm.Register.RoundTrip.{IsBytes}
use hashc.Vm.Stack.{
  Stack, new, pop_bytes, push_bytes, IsStack, pop_width, push_width, pop8, pop16, pop32, pop64,
  push8, push16, push32, push64,
}

-- The bytes that have been pushed and not popped.
abbrev pub contents : Stack → List ℕ
contents s = take s.stack_pointer s.cells

pub new-IsStack : (size : ℕ) → IsStack (new size)
unfolding new
new-IsStack size = record {
  within = omega arith;
  bytes = All-replicate IsByte size 0 (omega arith);
}

module _ (w : Width) (s : Stack) where
  pop_width-eq : pop_width w s ≡ pop_bytes (byte_count w) s
  unfolding pop_width pop8 pop16 pop32 pop64
  pop_width-eq = ground arith

  push_width-eq : (v : List ℕ) → push_width w s v ≡ push_bytes (byte_count w) s v
  unfolding push_width push8 push16 push32 push64
  push_width-eq v = ground arith

-- A push of `v` onto `s` that gave `s'`.
pub record Pushed (s : Stack) (v : List ℕ) (s' : Stack) : Type 0 where
  pub appended : contents s' ≡ contents s ++ v
  pub capacity : length s'.cells ≡ length s.cells
  pub pointer : s'.stack_pointer ≡ s.stack_pointer + length v
  pub valid : IsStack s'

-- A pop of `v` off `s` that left `s'`.
pub record Popped (s : Stack) (v : List ℕ) (s' : Stack) : Type 0 where
  pub split : contents s ≡ contents s' ++ v
  pub pointer : s.stack_pointer ≡ s'.stack_pointer + length v
  pub cells : s'.cells ≡ s.cells
  pub valid : IsStack s'

abbrev spliced : Stack → List ℕ → Stack
spliced s v = record {
  cells = take s.stack_pointer s.cells ++ (v ++ drop (s.stack_pointer + length v) s.cells);
  stack_pointer = s.stack_pointer + length v;
}

module _ (s : Stack) (v : List ℕ) (h : IsStack s) (hv : All IsByte v)
    (room : s.stack_pointer + length v < length s.cells) where
  length-below : length (take s.stack_pointer s.cells) ≡ s.stack_pointer
  length-below = omega (arith, length-take s.stack_pointer s.cells, h.within)

  appended_lem : contents (spliced s v) ≡ contents s ++ v
  appended_lem =
      rw
        (← append_assoc (take s.stack_pointer s.cells) v
          (drop (s.stack_pointer + length v) s.cells))
        (take-append (take s.stack_pointer s.cells ++ v) (drop (s.stack_pointer + length v) s.cells)
          (s.stack_pointer + length v)
          (omega (arith, length-append (take s.stack_pointer s.cells) v, length-below)))

  capacity_lem : length (spliced s v).cells ≡ length s.cells
  capacity_lem = omega (
    arith,
    length-below,
    length-append (take s.stack_pointer s.cells) (v ++ drop (s.stack_pointer + length v) s.cells),
    length-append v (drop (s.stack_pointer + length v) s.cells),
    length-drop (s.stack_pointer + length v) s.cells,
  )

  spliced-Pushed : Pushed s v (spliced s v)
  spliced-Pushed = record {
    appended = appended_lem;
    capacity = capacity_lem;
    pointer = refl;
    valid = record {
      within = omega (arith, capacity_lem);
      bytes =
          All-append IsByte (take s.stack_pointer s.cells) _
            (All-take IsByte s.stack_pointer s.cells h.bytes)
            (All-append IsByte v _ hv
              (All-drop IsByte (s.stack_pointer + length v) s.cells h.bytes));
    };
  }

-- On a valid stack, a push of bytes of its size succeeds exactly where a byte would still be free after it, and appends; otherwise it is a
-- violation that names the size and the capacity.
pub push-Pushed :
    (w : Width) (s : Stack) (v : List ℕ)
    → IsStack s
    → IsBytes w v
    → ((s.stack_pointer + byte_count w < length s.cells)
        × ((s' : Stack) × (push_width w s v ≡ ok s') × Pushed s v s'))
      ⊎ ((length s.cells ≤ s.stack_pointer + byte_count w)
          × (push_width w s v ≡ err (stack_violation_access push (byte_count w) (length s.cells))))
unfolding push_bytes
push-Pushed w s v h b = elim (Bool-cases (ltb (byte_count w) (length s.cells - s.stack_pointer))) [
  | inl fits ↦ inl (
    ground arith,
    (
      spliced s v,
      push_width-eq w s v ∙ rw (fits, b.0),
      spliced-Pushed s v h b.1 (ground (arith, b.0)),
    ),
  )
  | inr full ↦ inr (ground (arith, h.within), push_width-eq w s v ∙ rw full)
]

module _ (s : Stack) (n : ℕ) (h : IsStack s) (deep : n ≤ s.stack_pointer) where
  top_lem :
      contents s ≡ take (s.stack_pointer - n) s.cells ++ take n (drop (s.stack_pointer - n) s.cells)
  top_lem =
      let e : s.stack_pointer ≡ s.stack_pointer - n + n = omega arith in
      ap (λ k. take k s.cells) e ∙ take-add (s.stack_pointer - n) n s.cells

  length-top : length (take n (drop (s.stack_pointer - n) s.cells)) ≡ n
  length-top = omega (
    arith,
    length-take n (drop (s.stack_pointer - n) s.cells),
    length-drop (s.stack_pointer - n) s.cells,
    h.within,
  )

  top-All : All IsByte (take n (drop (s.stack_pointer - n) s.cells))
  top-All = All-take IsByte n _ (All-drop IsByte (s.stack_pointer - n) s.cells h.bytes)

  top-Popped :
      Popped s
        (take n (drop (s.stack_pointer - n) s.cells))
        (record s { stack_pointer = s.stack_pointer - n })
  top-Popped = record {
    split = top_lem;
    pointer = omega (arith, length-top);
    cells = refl;
    valid = record { within = omega (arith, h.within); bytes = h.bytes };
  }

-- On a valid stack, a pop succeeds exactly where a byte would still be left after it, and takes the last bytes off;
-- otherwise it is a violation that names the size and the capacity.
pub pop-Popped :
    (w : Width) (s : Stack)
    → IsStack s
    → ((byte_count w < s.stack_pointer)
        × ((v : List ℕ) × (s' : Stack) × (pop_width w s ≡ ok (v, s'))
            × IsBytes w v
            × Popped s v s'))
      ⊎ ((s.stack_pointer ≤ byte_count w)
          × (pop_width w s ≡ err (stack_violation_access pop (byte_count w) (length s.cells))))
unfolding pop_bytes
pop-Popped w s h = elim (Bool-cases (ltb (byte_count w) s.stack_pointer)) [
  | inl fits ↦
      let deep : byte_count w ≤ s.stack_pointer = ground arith in
      inl (
        ground arith,
        (
          take (byte_count w) (drop (s.stack_pointer - byte_count w) s.cells),
          record s { stack_pointer = s.stack_pointer - byte_count w },
          pop_width-eq w s ∙ rw fits,
          (length-top s (byte_count w) h deep, top-All s (byte_count w) h deep),
          top-Popped s (byte_count w) h deep,
        ),
      )
  | inr low ↦ inr (ground arith, pop_width-eq w s ∙ rw low)
]

module _ (w : Width) (s s' : Stack) (v : List ℕ) (h : IsStack s) (b : IsBytes w v)
    (e : push_width w s v ≡ ok s') where
  pub ok-Pushed : Pushed s v s'
  ok-Pushed = elim (push-Pushed w s v h b) [
    | inl (room, (s'', e', p)) ↦ subst (Pushed s v) (ok-injective s'' s' (sym e' ∙ e)) p
    | inr (full, e') ↦ cc
  ]

-- A pop reads the contents only: the bytes at their end come off.
pub pop-contents :
    (w : Width) (s : Stack) (below v : List ℕ)
    → IsStack s
    → IsBytes w v
    → byte_count w < s.stack_pointer
    → contents s ≡ below ++ v
    → (t : Stack) × (pop_width w s ≡ ok (v, t))
      × (contents t ≡ below)
      × (s.stack_pointer ≡ t.stack_pointer + byte_count w)
      × IsStack t
pop-contents w s below v h b deep e = elim (pop-Popped w s h) [
  | inl (_, (v', t, e', b', q)) ↦
      let both = append_inj (contents t) below v' v (sym q.split ∙ e) (b'.0 ∙ sym b.0) in
      (t, e' ∙ ap (λ x. ok (x, t)) both.1, both.0, omega (arith, q.pointer, b'.0), q.valid)
  | inr (low, _) ↦ absurd (omega arith)
]

-- Whatever was pushed on a valid stack that holds at least one byte is what a pop of that size returns, and
-- the stack is back at its pointer with the bytes below it as they were.
pub pop-push :
    (w : Width) (s s' : Stack) (v : List ℕ)
    → IsStack s
    → IsBytes w v
    → 0 < s.stack_pointer
    → push_width w s v ≡ ok s'
    → (t : Stack) × (pop_width w s' ≡ ok (v, t))
      × (contents t ≡ contents s)
      × (t.stack_pointer ≡ s.stack_pointer)
      × IsStack t
pop-push w s s' v h b pos e =
    let p = ok-Pushed w s s' v h b e in
    let (t, e', c, k, h') =
      pop-contents w s' (contents s) v p.valid b (omega (arith, p.pointer, b.0)) p.appended in
    (t, e', c, omega (arith, p.pointer, b.0), h')

-- The bytes that were pushed on a valid empty stack cannot be popped at their size.
pub pop-push_empty :
    (w : Width) (s s' : Stack) (v : List ℕ)
    → IsStack s
    → IsBytes w v
    → s.stack_pointer ≡ 0
    → push_width w s v ≡ ok s'
    → pop_width w s' ≡ err (stack_violation_access pop (byte_count w) (length s.cells))
pop-push_empty w s s' v h b empty e =
    let p = ok-Pushed w s s' v h b e in
    elim (pop-Popped w s' p.valid) [
      | inl (deep, _) ↦ absurd (omega (arith, p.pointer, b.0))
      | inr (low, e') ↦ e' ∙ ap (λ n. err (stack_violation_access pop (byte_count w) n)) p.capacity
    ]
