-- ===== src/Repr/Placement/Room.antt =====
-- compiler/hash-repr/src/compute.rs: how much the fields of a variant take at most.
use hashc.Prelude.{ℕ, ◌+◌, ◌≤◌, ap, List, [], ◌∷◌, get_elem?, arith}
use hashc.Target.Size.{Size}
use hashc.Repr.Layout.{FieldLayout, Layout}
use hashc.Repr.Placement.Loop.{InMemory, IsField, room, room_of}

IsField-room :
    {fields : List Layout} {offsets : List FieldLayout} {i : ℕ} {a b : Size}
    → IsField fields offsets i a b
    → b.value ≤ a.value + room_of (get_elem? fields i)
IsField-room f = rw f.is_layout (omega (arith, f.end, f.aligned.close))

pub InMemory-room :
    (fields : List Layout) (offsets : List FieldLayout) (from : Size) (is : List ℕ) (to : Size)
    → InMemory fields offsets from is to
    → to.value ≤ from.value + room fields is
InMemory-room fields offsets from [] to m = omega (arith, ap (λ s. s.value) m)
InMemory-room fields offsets from (i ∷ is) to (mid, f, m) =
    omega (arith, IsField-room f, InMemory-room fields offsets mid is to m)
