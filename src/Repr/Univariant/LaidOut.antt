-- ===== src/Repr/Univariant/LaidOut.antt =====
-- compiler/hash-repr/src/compute.rs: what the layout of a variant is.
use hashc.Prelude.{
  ℕ, ◌+◌, ◌^◌, ◌≤◌, ◌<◌, ◌≡◌, refl, ◌∙◌, not, Option, none, some, List, length, length-replicate,
  arith,
}
use hashc.Prelude.Bytes.{All}
use hashc.Target.Size.{Size}
use hashc.Target.Alignment.{Alignment, Alignments, new, max_alignments}
use hashc.Target.Alignment as Alignment
use hashc.Target.Align.Fits.{IsAligned, align_to-IsAligned, bytes_bounds}
use hashc.Target.DataLayout.{TargetDataLayout}
use hashc.Repr.Layout.{no_size, FieldLayout, VariantIdx, Layout, aggregate, zst}
use hashc.Repr.Placement.{AdtRepresentation, field_order, Placed, place_fields, start_of}
use hashc.Repr.Placement.Order.{EachOnce, field_order-EachOnce}
use hashc.Repr.Placement.Outcome.{Outcome, fits, Outcome-bind}
use hashc.Repr.Placement.Loop.{
  InMemory, AlignedWithin, room, HasAlignment, IsPlaced, place_fields-Outcome, max_alignments-abi,
}
use hashc.Repr.Placement.Room.{InMemory-room}
use hashc.Repr.ScalarLike.Done.{IsDataLayout, optimised_abi-IsDone, obj_size_bound-le}
use hashc.Repr.Univariant.{compute_layout_of_univariant, finish, memory_map_of}
use hashc.Repr.Univariant.Inverse.{Inverts, memory_map_of-Inverts, length-memory_map_of}

-- A tag has the size of an integer.
abbrev pub IsTag : Option (Size × Alignment) → Type 0
IsTag none = Unit
IsTag (some (size, alignment)) = (size.value ≤ 16) × (alignment.value ≤ 32)

-- The fields start where the tag ends, at the tag's alignment, which the whole has too.
abbrev pub StartsAfter : Option (Size × Alignment) → Size → Alignment → Type 0
StartsAfter none start whole = start ≡ no_size
StartsAfter (some (size, alignment)) start whole =
    IsAligned size alignment start × (alignment.value ≤ whole.value)

abbrev pub tag_room : Option (Size × Alignment) → ℕ
tag_room none = 0
tag_room (some (size, alignment)) = size.value + Alignment.bytes alignment

-- The fields lie in their order behind the tag, each once, at the first place that its alignment allows,
-- and the size is the end of the last rounded up.
pub record IsLaidOut (tag : Option (Size × Alignment)) (fields : List Layout) (order : List ℕ)
    (layout : Layout) : Type 0 where
  pub offsets : List FieldLayout
  pub memory_map : List ℕ
  pub shape : layout.shape ≡ aggregate offsets memory_map
  pub each_once : EachOnce (length fields) order
  pub start : Size
  pub stop : Size
  pub starts_after : StartsAfter tag start layout.alignment.abi
  pub in_memory : InMemory fields offsets start order stop
  pub largest : AlignedWithin fields layout.alignment.abi order
  pub bounded : layout.alignment.abi.value ≤ 32
  pub size : IsAligned stop layout.alignment.abi layout.size
  pub small : stop.value < 2 ^ 62
  pub within : stop.value ≤ tag_room tag + room fields order
  pub length_offsets : length offsets ≡ length fields
  pub length_map : length memory_map ≡ length fields
  pub inverts : Inverts order memory_map

-- The state before the loop.
record IsStart (n : ℕ) (tag : Option (Size × Alignment)) (self : Placed) : Type 0 where
  same_length : length self.offsets ≡ n
  starts_after : StartsAfter tag self.offset self.alignment.abi
  bounded : self.alignment.abi.value ≤ 32
  small : self.offset.value < 2 ^ 62
  within : self.offset.value ≤ tag_room tag

new-abi : (a : Alignment) → (new a).abi.value ≡ a.value
unfolding new
new-abi a = refl

new_le : (whole : Alignments) (a : Alignment) → a.value ≤ (max_alignments whole (new a)).abi.value
new_le whole a = omega (arith, max_alignments-abi whole (new a), new-abi a)

StartsAfter-mono :
    (tag : Option (Size × Alignment)) (start : Size) (a b : Alignment)
    → a.value ≤ b.value
    → StartsAfter tag start a
    → StartsAfter tag start b
StartsAfter-mono none start a b le s = s
StartsAfter-mono (some (size, alignment)) start a b le s = (s.0, omega (arith, s.1, le))

module _ (dl : TargetDataLayout) (v : IsDataLayout dl) where
  start_of-Outcome :
      {Q : Type 0} (n : ℕ) (tag : Option (Size × Alignment))
      → IsTag tag
      → Outcome (IsStart n tag) Q (start_of dl n tag)
  unfolding start_of
  start_of-Outcome n none t = fits _ (record {
    same_length = length-replicate n zst;
    starts_after = refl;
    bounded = v.aggregates;
    small = omega arith;
    within = omega arith;
  })
  start_of-Outcome n (some (size, alignment)) t =
      let (prefix, e, aligned) = align_to-IsAligned size alignment t.1 (omega (arith, t.0)) in
      let whole = max_alignments-abi dl.aggregate_align (new alignment) in
      rw e (
        fits _ (record {
          same_length = length-replicate n zst;
          starts_after = (aligned, new_le dl.aggregate_align alignment);
          bounded = omega (arith, whole, new-abi alignment, v.aggregates, t.1);
          small = omega (arith, aligned.close, t.0, (bytes_bounds alignment t.1).1);
          within = omega (arith, aligned.close);
        }))

  module _ (index : VariantIdx) (tag : Option (Size × Alignment)) (fields : List Layout)
      (representation : AdtRepresentation) (is_tag : IsTag tag) (aligned : All HasAlignment fields)
      (few : length fields < 2 ^ 32) where
    order : List ℕ
    order = field_order tag fields representation

    finish-Outcome :
        {Q : Type 0} (self placed : Placed)
        → IsStart (length fields) tag self
        → IsPlaced fields order self placed
        → Outcome
            (IsLaidOut tag fields order)
            Q
            (finish dl index fields representation order placed)
    unfolding finish order
    finish-Outcome self placed s p =
        let (size, e, end) =
          align_to-IsAligned placed.offset placed.alignment.abi p.bounded
            (omega (arith, p.small)) in
        let (abi, f) =
          optimised_abi-IsDone dl v placed.offsets placed.alignment size placed.abi
            (not representation.c_like) fields in
        rw (e, f)
          (fits _ (record {
            offsets = placed.offsets;
            memory_map = memory_map_of representation order;
            shape = refl;
            each_once = field_order-EachOnce tag fields representation few;
            start = self.offset;
            stop = placed.offset;
            starts_after = StartsAfter-mono tag self.offset _ _ p.grows s.starts_after;
            in_memory = p.in_memory;
            largest = p.largest;
            bounded = p.bounded;
            size = end;
            small = p.small;
            within = omega (
              arith,
              s.within,
              InMemory-room fields placed.offsets self.offset order placed.offset p.in_memory,
            );
            length_offsets = p.same_length ∙ s.same_length;
            length_map = length-memory_map_of tag fields representation few;
            inverts = memory_map_of-Inverts tag fields representation few;
          }))

    -- On a target with 16, 32 or 64-bit pointers and alignments up to 2^32 bytes, for fewer than
    -- 2^32 fields so aligned and a tag of at most 16 bytes, computing the layout of a variant
    -- does not panic. Either tag, fields and padding reach the bound on sizes and it is None, or
    -- the fields lie behind the tag in an order that has each once, each at the first place its
    -- alignment allows, the size is the end rounded up, and the memory map inverts the order.
    pub compute_layout_of_univariant-IsLaidOut :
        Outcome
          (IsLaidOut tag fields (field_order tag fields representation))
          (v.bound ≤ tag_room tag + room fields (field_order tag fields representation))
          (compute_layout_of_univariant dl index tag fields representation)
    unfolding compute_layout_of_univariant order
    compute_layout_of_univariant-IsLaidOut =
        Outcome-bind (start_of dl (length fields) tag) _
          (start_of-Outcome {Q = ⊥} (length fields) tag is_tag) (λ q. absurd q)
          (λ self s.
            Outcome-bind (place_fields dl fields order self) _
              (place_fields-Outcome dl v.bound v.is_bound (obj_size_bound-le dl v.bound v.is_bound)
                fields aligned order self
                (λ k. omega (arith, field_order-EachOnce tag fields representation few k))
                s.same_length s.bounded s.small)
              (λ q. omega (arith, q, s.within)) (λ placed p. finish-Outcome self placed s p))
