-- ===== src/Repr/Placement/Order.antt =====
-- compiler/hash-repr/src/compute.rs: the order of the fields has each of them once.
use hashc.Prelude.{
  ℕ, zero, suc, ◌+◌, ◌%◌, ◌^◌, ◌<◌, ◌≡◌, refl, ◌∙◌, Bool, ◌&&◌, Bool-cases, inl, inr, Option, List,
  [], ◌∷◌, ltb, leb, ◌==◌, if◌then◌else◌, length, get_elem?, arith,
}
use hashc.Target.Size.{Size}
use hashc.Target.Alignment.{Alignment}
use hashc.Repr.Layout.{Layout, range_from}
use hashc.Repr.Placement.{
  AdtRepresentation, insert_index, sort_by_key, field_order, is_tagged, entry_le,
}

abbrev pub occurrences : ℕ → List ℕ → ℕ
occurrences k [] = 0
occurrences k (i ∷ is) = if k == i then suc (occurrences k is) else occurrences k is

-- The list has each number below `n` once, and no other.
abbrev pub EachOnce : ℕ → List ℕ → Type 0
EachOnce n order = (k : ℕ) → occurrences k order ≡ (if ltb k n then 1 else 0)

occurrences-insert_index :
    (tagged : Bool) (fields : List Layout) (k i : ℕ) (js : List ℕ)
    → occurrences k (insert_index tagged fields i js) ≡ occurrences k (i ∷ js)
unfolding insert_index
occurrences-insert_index tagged fields k i [] = refl
occurrences-insert_index tagged fields k i (j ∷ js) =
    elim (Bool-cases (entry_le tagged (get_elem? fields i) (get_elem? fields j))) [
      | inl e ↦ rw e
      | inr e ↦ rw e (ground (arith, occurrences-insert_index tagged fields k i js))
    ]

occurrences-sort_by_key :
    (tagged : Bool) (fields : List Layout) (k : ℕ) (is : List ℕ)
    → occurrences k (sort_by_key tagged fields is) ≡ occurrences k is
unfolding sort_by_key
occurrences-sort_by_key tagged fields k [] = refl
occurrences-sort_by_key tagged fields k (i ∷ is) =
    occurrences-insert_index tagged fields k i (sort_by_key tagged fields is)
    ∙ ground (arith, occurrences-sort_by_key tagged fields k is)

occurrences-range_from :
    (k start n : ℕ)
    → occurrences k (range_from start n) ≡ (if leb start k && ltb k (start + n) then 1 else 0)
occurrences-range_from k start zero = ground arith
occurrences-range_from k start (suc n) = ground (arith, occurrences-range_from k (suc start) n)

pub field_order-EachOnce :
    (tag : Option (Size × Alignment)) (fields : List Layout) (representation : AdtRepresentation)
    → length fields < 2 ^ 32
    → EachOnce (length fields) (field_order tag fields representation)
unfolding field_order
field_order-EachOnce tag fields representation h k =
    let all : length fields % 2 ^ 32 ≡ length fields = omega (arith, h) in
    let source : occurrences k (range_from 0 (length fields))
        ≡ (if ltb k (length fields) then 1 else 0) =
      ground (arith, occurrences-range_from k 0 (length fields)) in
    elim (Bool-cases representation.c_like) [
      | inl e ↦ rw (e, all) source
      | inr e ↦
          rw (e, all)
            (occurrences-sort_by_key (is_tagged tag) fields k (range_from 0 (length fields))
              ∙ source)
    ]
