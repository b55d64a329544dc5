-- ===== src/Repr/Univariant/Offsets.antt =====
-- compiler/hash-repr/src/compute.rs: reading the offsets of a laid out variant.
use hashc.Prelude.{
  ℕ, ◌+◌, ◌^◌, ◌≤◌, ◌<◌, ◌≡◌, ◌≢◌, Option, some, List, length, get_elem?, replicate,
}
use hashc.Prelude.Bytes.{All}
use hashc.Target.Size.{Size}
use hashc.Target.Alignment.{Alignment}
use hashc.Target.DataLayout.{TargetDataLayout}
use hashc.Repr.Layout.{
  FieldLayout, VariantIdx, Layout, LayoutShape, aggregate, iter_increasing_offsets, invert_from,
}
use hashc.Repr.Placement.{AdtRepresentation, field_order}
use hashc.Repr.Placement.Outcome.{Outcome, Outcome-map}
use hashc.Repr.Placement.Loop.{HasAlignment, room}
use hashc.Repr.ScalarLike.Done.{IsDataLayout}
use hashc.Repr.Univariant.{compute_layout_of_univariant}
use hashc.Repr.Univariant.Inverse.{invert_from-Inverts, length-field_order}
use hashc.Repr.Univariant.LaidOut.{
  IsTag, IsLaidOut, tag_room, compute_layout_of_univariant-IsLaidOut,
}
use hashc.Repr.Univariant.Disjoint.{AreApart, IsLaidOut-AreApart}

iter_increasing_offsets-aggregate :
    (shape : LayoutShape) (n : ℕ) {offsets : List FieldLayout} {memory_map order : List ℕ}
    → shape ≡ aggregate offsets memory_map
    → length offsets ≡ n
    → invert_from 0 memory_map (replicate n 0) ≡ order
    → iter_increasing_offsets shape ≡ order
unfolding iter_increasing_offsets
iter_increasing_offsets-aggregate shape n e same h = rw (e, same) h

pub iter_increasing_offsets-IsLaidOut :
    {tag : Option (Size × Alignment)} {fields : List Layout} {order : List ℕ} {layout : Layout}
    → IsLaidOut tag fields order layout
    → length order ≡ length fields
    → iter_increasing_offsets layout.shape ≡ order
iter_increasing_offsets-IsLaidOut {fields = fields} {order = order} {layout = layout} l same =
    iter_increasing_offsets-aggregate layout.shape (length fields) l.shape l.length_offsets (
      invert_from-Inverts (length fields) order l.each_once l.memory_map l.inverts same
        l.length_map)

module _ (dl : TargetDataLayout) (v : IsDataLayout dl) (index : VariantIdx)
    (tag : Option (Size × Alignment)) (fields : List Layout) (representation : AdtRepresentation)
    (is_tag : IsTag tag) (aligned : All HasAlignment fields) (few : length fields < 2 ^ 32) where
  -- On a target with 16, 32 or 64-bit pointers and alignments up to 2^32 bytes, for fewer than
  -- 2^32 fields so aligned and a tag of at most 16 bytes, iter_increasing_offsets of the layout
  -- of a variant gives back the order in which its fields were placed, sorted or as declared,
  -- unless tag, fields and padding reach the bound on sizes and the layout is None.
  pub iter_increasing_offsets-compute_layout_of_univariant :
      Outcome
        (λ l. iter_increasing_offsets l.shape ≡ field_order tag fields representation)
        (v.bound ≤ tag_room tag + room fields (field_order tag fields representation))
        (compute_layout_of_univariant dl index tag fields representation)
  iter_increasing_offsets-compute_layout_of_univariant =
      Outcome-map (compute_layout_of_univariant dl index tag fields representation)
        (compute_layout_of_univariant-IsLaidOut dl v index tag fields representation is_tag aligned
          few)
        (λ q. q)
        (λ layout l.
          iter_increasing_offsets-IsLaidOut l (length-field_order tag fields representation few))

  -- On a target with 16, 32 or 64-bit pointers and alignments up to 2^32 bytes, for fewer than
  -- 2^32 fields so aligned and a tag of at most 16 bytes, two different fields of a variant do
  -- not overlap in its layout, both end within its size, and the first starts at a multiple of
  -- its alignment, unless tag, fields and padding reach the bound on sizes and the layout is
  -- None.
  pub compute_layout_of_univariant-AreApart :
      (i j : ℕ) (a b : Layout)
      → i ≢ j
      → get_elem? fields i ≡ some a
      → get_elem? fields j ≡ some b
      → Outcome
          (λ l. AreApart l i j a b)
          (v.bound ≤ tag_room tag + room fields (field_order tag fields representation))
          (compute_layout_of_univariant dl index tag fields representation)
  compute_layout_of_univariant-AreApart i j a b ne e f =
      Outcome-map (compute_layout_of_univariant dl index tag fields representation)
        (compute_layout_of_univariant-IsLaidOut dl v index tag fields representation is_tag aligned
          few)
        (λ q. q) (λ layout l. IsLaidOut-AreApart l i j a b ne e f)
