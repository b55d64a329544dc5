-- ===== src/Repr/Enum/Expand.antt =====
-- compiler/hash-repr/src/compute.rs: expanding the tag of an enum moves no field that has a size.
use hashc.Prelude.{
  ℕ, zero, suc, ◌+◌, ◌*◌, ◌≤◌, ◌<◌, ◌≡◌, refl, sym, ap, ◌∙◌, false, some, some_injective, none-some,
  List, [], ◌∷◌, leb, if◌then◌else◌, length, get_elem?, arith,
}
use hashc.Target.Size.{Size}
use hashc.Target.Alignment.{Alignment}
use hashc.Target.Alignment as Alignment
use hashc.Repr.Layout.{FieldLayout, Layout, aggregate, is_zst}
use hashc.Repr.Placement.{AdtRepresentation}
use hashc.Repr.Univariant.Inverse.{get_elem?_lt}
use hashc.Repr.Univariant.Disjoint.{IsLaidOut-IsAt, place_of, InMemory-IsWithin}
use hashc.Repr.Enum.{expand_field, expand_fields}
use hashc.Repr.Enum.Gather.{IsRow, row_order}

-- Where a field of a variant lies that has a size: behind the tag, within the variant, and at a multiple of
-- its alignment.
pub record IsPast (tag_size : ℕ) (variant : Layout) (field : Layout) (place : FieldLayout)
    : Type 0 where
  pub past : tag_size ≤ place.offset.value
  pub within : place.offset.value + field.size.value ≤ variant.size.value
  pub quotient : ℕ
  pub aligned : place.offset.value ≡ quotient * Alignment.bytes field.alignment.abi

pub record IsTagged (tag_size : ℕ) (size : Size) (row : List Layout) (variant : Layout)
    : Type 0 where
  pub offsets : List FieldLayout
  pub memory_map : List ℕ
  pub shape : variant.shape ≡ aggregate offsets memory_map
  pub length_offsets : length offsets ≡ length row
  pub size_le : variant.size.value ≤ size.value
  pub fields :
      (i : ℕ) (a : Layout) (x : FieldLayout)
      → get_elem? row i ≡ some a
      → is_zst a ≡ false
      → get_elem? offsets i ≡ some x
      → IsPast tag_size variant a x

module _ {metadata : AdtRepresentation} {prefix : Size × Alignment} {starting_alignment : Alignment}
    {size : Size} {row : List Layout} {variant : Layout}
    (r : IsRow metadata prefix starting_alignment size row variant) where
  -- Before the tag is expanded.
  pub row_field :
      (i : ℕ) (a : Layout) (x : FieldLayout)
      → get_elem? row i ≡ some a
      → is_zst a ≡ false
      → get_elem? r.laid.offsets i ≡ some x
      → (Alignment.bytes starting_alignment ≤ x.offset.value) × IsPast prefix.0.value variant a x
  row_field i a x e z f =
      let order = row_order metadata prefix row in
      let (k, g) = place_of (length row) order i r.laid.each_once (get_elem?_lt row i e) in
      let w =
        InMemory-IsWithin row r.laid.offsets order r.laid.start r.laid.stop k i r.laid.in_memory
          g in
      let p = IsLaidOut-IsAt r.laid i a e in
      let same : p.field ≡ x = some_injective (sym p.is_field ∙ f) in
      let same' : w.is_field.field ≡ x = some_injective (sym w.is_field.is_field ∙ f) in
      let offset = ap (λ y. y.offset.value) same in
      (
        r.behind k i a x g e z f,
        record {
          past = omega (
            arith,
            r.laid.starts_after.0.above,
            w.after,
            w.is_field.aligned.above,
            ap (λ y. y.offset.value) same',
          );
          within = omega (arith, p.within, offset);
          quotient = p.quotient;
          aligned = sym offset ∙ p.aligned;
        },
      )

  pub IsRow-IsTagged :
      (whole : Size) → size.value ≤ whole.value → IsTagged prefix.0.value whole row variant
  IsRow-IsTagged whole le = record {
    offsets = r.laid.offsets;
    memory_map = r.laid.memory_map;
    shape = r.laid.shape;
    length_offsets = r.laid.length_offsets;
    size_le = omega (arith, le, r.size_le);
    fields = λ i a x e z f. (row_field i a x e z f).1;
  }

pub get_elem?-expand_fields :
    (old new : Size) (offsets : List FieldLayout) (i : ℕ) (x : FieldLayout)
    → get_elem? (expand_fields old new offsets) i ≡ some x
    → (y : FieldLayout) × (get_elem? offsets i ≡ some y) × (expand_field old new y ≡ x)
get_elem?-expand_fields old new [] i x e = absurd (none-some e)
get_elem?-expand_fields old new (y ∷ offsets) zero x e = (y, refl, some_injective e)
get_elem?-expand_fields old new (y ∷ offsets) (suc i) x e =
    get_elem?-expand_fields old new offsets i x e

pub length-expand_fields :
    (old new : Size) (offsets : List FieldLayout)
    → length (expand_fields old new offsets) ≡ length offsets
length-expand_fields old new [] = refl
length-expand_fields old new (y ∷ offsets) = ap suc (length-expand_fields old new offsets)

pub expand_field_kept :
    (old new : Size) (y : FieldLayout) → old.value < y.offset.value → expand_field old new y ≡ y
expand_field_kept old new y h =
    ap (λ b. if b then record y { offset = new } else y) {y = false} (ground arith)

pub expanded_size-le :
    (old new : Size) (variant whole : ℕ)
    → variant ≤ whole
    → new.value ≤ whole
    → (if leb variant old.value then new.value else variant) ≤ whole
expanded_size-le old new variant whole h k = ground arith
