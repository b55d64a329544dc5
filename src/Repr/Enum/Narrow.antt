-- ===== src/Repr/Enum/Narrow.antt =====
-- compiler/hash-repr/src/compute.rs: the alignment to which a variant narrows the place of its enum's tag.
use native.Mathlib.Nat.{pow-le-pow_right}
use mathlib.Core.Bool.{true≢false}
use hashc.Prelude.{
  ℕ, zero, suc, ◌*◌, ◌≤◌, ◌<◌, ◌≡◌, refl, sym, ap, ◌∙◌, Bool, true, false, not, ◌||◌, Bool-cases,
  ◌⊎◌, inl, inr, some, some_injective, none-some, List, [], ◌∷◌, ◌==◌, get_elem?, arith,
}
use hashc.Target.Size.{Size}
use hashc.Target.Alignment.{Alignment}
use hashc.Target.Alignment as Alignment
use hashc.Repr.Layout.{done, FieldLayout, Layout, is_zst}
use hashc.Repr.Placement.Loop.{InMemory, IsField, AlignedWithin}
use hashc.Repr.Univariant.Disjoint.{InMemory-IsWithin}
use hashc.Repr.Enum.{narrow, min_alignment}

pub bytes_le : (a b : Alignment) → a.value ≤ b.value → Alignment.bytes a ≤ Alignment.bytes b
unfolding Alignment.bytes
bytes_le a b h = pow-le-pow_right (omega arith) h

pub multiple_ge : (x q b : ℕ) → x ≡ q * b → 0 < x → b ≤ x
multiple_ge x zero b e h = absurd (omega (arith, e, h))
multiple_ge x (suc q) b e h = grind (arith, e)

-- The fields of the list that have a size start at or behind so many bytes.
abbrev pub StartBehind : List Layout → List FieldLayout → List ℕ → ℕ → Type 0
StartBehind fields offsets is bytes =
    (k i : ℕ) (a : Layout) (x : FieldLayout)
    → get_elem? is k ≡ some i
    → get_elem? fields i ≡ some a
    → is_zst a ≡ false
    → get_elem? offsets i ≡ some x
    → bytes ≤ x.offset.value

-- What the search for the first such field finds.
pub record IsNarrowed (fields : List Layout) (offsets : List FieldLayout) (is : List ℕ)
    (whole alignment : Alignment) : Type 0 where
  pub result : Alignment
  pub returns : narrow fields is alignment ≡ done result
  pub le : result.value ≤ alignment.value
  pub kept : (result.value ≡ alignment.value) ⊎ (result.value ≤ whole.value)
  pub behind : StartBehind fields offsets is (Alignment.bytes result)

is_skipped : (b c : Bool) → (not b || not c) ≡ false → b ≡ true
is_skipped true c h = refl
is_skipped false c h = absurd (true≢false h)

module _ (fields : List Layout) (offsets : List FieldLayout) where
  IsField-offset :
      {i : ℕ} {a b : Size} (f : IsField fields offsets i a b) (x : FieldLayout)
      → get_elem? offsets i ≡ some x
      → x.offset.value ≡ f.field.offset.value
  IsField-offset f x e = ap (λ y. y.offset.value) (some_injective (sym e ∙ f.is_field))

  -- A field found in the list, and all behind it, start at or behind its alignment.
  found-StartBehind :
      (i : ℕ) (is : List ℕ) (from to : Size) (result : Alignment) (mid : Size)
      (f : IsField fields offsets i from mid)
      → InMemory fields offsets mid is to
      → 0 < from.value
      → result.value ≤ f.layout.alignment.abi.value
      → StartBehind fields offsets (i ∷ is) (Alignment.bytes result)
  found-StartBehind i is from to result mid f m pos le zero j a x e g z h =
      let x' = ap (λ n. get_elem? offsets n) (some_injective e) ∙ h in
      omega (
        arith,
        bytes_le result f.layout.alignment.abi le,
        IsField-offset f x x',
        f.aligned.above,
        pos,
        multiple_ge f.field.offset.value f.aligned.quotient (Alignment.bytes f.layout.alignment.abi)
            f.aligned.multiple (omega (arith, f.aligned.above, pos)),
      )
  found-StartBehind i is from to result mid f m pos le (suc k) j a x e g z h =
      let w = InMemory-IsWithin fields offsets is mid to k j m e in
      omega (
        arith,
        bytes_le result f.layout.alignment.abi le,
        w.after,
        w.is_field.aligned.above,
        f.end,
        IsField-offset w.is_field x h,
        multiple_ge f.field.offset.value f.aligned.quotient (Alignment.bytes f.layout.alignment.abi)
            f.aligned.multiple (omega (arith, f.aligned.above, pos)),
      )

  skipped :
      (i : ℕ) (is : List ℕ) (layout : Layout) (bytes : ℕ)
      → get_elem? fields i ≡ some layout
      → is_zst layout ≡ true
      → StartBehind fields offsets is bytes
      → StartBehind fields offsets (i ∷ is) bytes
  skipped i is layout bytes f h rest zero j a x e g z l =
      let same : layout ≡ a =
        some_injective (sym f ∙ ap (λ n. get_elem? fields n) (some_injective e) ∙ g) in
      absurd (true≢false (sym h ∙ ap is_zst same ∙ z))
  skipped i is layout bytes f h rest (suc k) j a x e g z l = rest k j a x e g z l

  pub narrow-IsNarrowed :
      (is : List ℕ) (from to : Size) (whole alignment : Alignment)
      → InMemory fields offsets from is to
      → 0 < from.value
      → AlignedWithin fields whole is
      → IsNarrowed fields offsets is whole alignment
  unfolding narrow
  narrow-IsNarrowed [] from to whole alignment m pos w = record {
    result = alignment;
    returns = refl;
    le = omega arith;
    kept = inl refl;
    behind = λ k i a x e. absurd (none-some e);
  }
  narrow-IsNarrowed (i ∷ is) from to whole alignment (mid, f, m) pos w =
      elim (Bool-cases
        (not (is_zst f.layout) || not (Alignment.bytes f.layout.alignment.abi == 1))) [
          | inl t ↦
              let result = min_alignment alignment f.layout.alignment.abi in
              record {
                result = result;
                returns = rw (f.is_layout, t) refl;
                le = omega arith;
                kept = inr (omega (arith, w.0 f.layout f.is_layout));
                behind = found-StartBehind i is from to result mid f m pos (omega arith);
              }
          | inr t ↦
              let rest =
                narrow-IsNarrowed is mid to whole alignment m
                  (omega (arith, pos, f.aligned.above, f.end)) w.1 in
              record {
                result = rest.result;
                returns = rw (f.is_layout, t) rest.returns;
                le = rest.le;
                kept = rest.kept;
                behind =
                    skipped i is f.layout (Alignment.bytes rest.result) f.is_layout
                      (is_skipped _ _ t) rest.behind;
              }
        ]
