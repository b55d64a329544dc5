-- ===== src/Repr/Placement/Outcome.antt =====
-- compiler/hash-repr/src/compute.rs: computations that do not panic, and the place of one field.
use hashc.Prelude.{
  ℕ, ◌+◌, ◌^◌, ◌≤◌, ◌<◌, ◌≡◌, refl, Bool-cases, inl, inr, some, ltb, ltb→lt, if◌then◌else◌, set,
  arith,
}
use hashc.Target.Size.{Size, checked_add}
use hashc.Target.Alignment.{Alignment, Alignments, max_alignments}
use hashc.Target.Alignment as Alignment
use hashc.Target.Align.Fits.{IsAligned, align_to-IsAligned}
use hashc.Target.DataLayout.{TargetDataLayout, obj_size_bound}
use hashc.Target.Abi.{uninhabited, is_uninhabited}
use hashc.Repr.Layout.{Laid, done, too_large, ◌>>=◌, FieldLayout, Layout}
use hashc.Repr.Placement.{Placed, sum_of_sizes, place_field}

-- A result with the first property, or a layout that is too large, with the second.
pub data Outcome {ℓ} {A : Type ℓ} (P : A → Type 0) (Q : Type 0) : Laid A → Type ℓ where
  fits : (a : A) → P a → Outcome P Q (done a)
  large : Q → Outcome P Q too_large

pub Outcome-bind {ℓ} :
    {A B : Type ℓ} {P : A → Type 0} {P' : B → Type 0} {Q Q' : Type 0} (m : Laid A) (f : A → Laid B)
    → Outcome P Q m
    → (Q → Q')
    → ((a : A) → P a → Outcome P' Q' (f a))
    → Outcome P' Q' (m >>= f)
Outcome-bind _ f (fits a p) q k = k a p
Outcome-bind _ f (large h) q k = large (q h)

pub Outcome-map {ℓ} :
    {A : Type ℓ} {P P' : A → Type 0} {Q Q' : Type 0} (m : Laid A)
    → Outcome P Q m
    → (Q → Q')
    → ((a : A) → P a → P' a)
    → Outcome P' Q' m
Outcome-map _ (fits a p) q f = fits a (f a p)
Outcome-map _ (large h) q f = large (q h)

module _ (dl : TargetDataLayout) (bound : ℕ) (is_bound : obj_size_bound dl ≡ some bound)
    (le : bound ≤ 2 ^ 47) where
  pub sum_of_sizes-Outcome :
      (a b : Size)
      → Outcome
          (λ s. (s.value ≡ a.value + b.value) × (s.value < bound))
          (bound ≤ a.value + b.value)
          (sum_of_sizes dl a b)
  unfolding sum_of_sizes checked_add
  sum_of_sizes-Outcome a b = elim (Bool-cases (ltb (a.value + b.value) (2 ^ 64))) [
    | inr e ↦ rw e (large (ground arith))
    | inl e ↦ elim (Bool-cases (ltb (a.value + b.value) bound)) [
      | inl f ↦
          rw (e, is_bound, f) (fits (record { value = a.value + b.value }) (refl, ltb→lt _ _ f))
      | inr f ↦ rw (e, is_bound, f) (large (ground arith))
    ]
  ]

-- The field at `i` follows what is placed.
pub record IsNext (self : Placed) (i : ℕ) (layout : Layout) (next : Placed) : Type 0 where
  pub field : FieldLayout
  pub written : next.offsets ≡ set self.offsets i field
  pub size : field.size ≡ layout.size
  pub aligned : IsAligned self.offset layout.alignment.abi field.offset
  pub end : next.offset.value ≡ field.offset.value + layout.size.value
  pub alignment : next.alignment ≡ max_alignments self.alignment layout.alignment
  pub abi : next.abi ≡ (if is_uninhabited layout.abi then uninhabited else self.abi)
  pub small : next.offset.value < 2 ^ 47

module _ (dl : TargetDataLayout) (bound : ℕ) (is_bound : obj_size_bound dl ≡ some bound)
    (le : bound ≤ 2 ^ 47) where
  pub place_field-Outcome :
      (self : Placed) (i : ℕ) (layout : Layout)
      → layout.alignment.abi.value ≤ 32
      → self.offset.value < 2 ^ 62
      → Outcome
          (IsNext self i layout)
          (bound ≤ self.offset.value + (Alignment.bytes layout.alignment.abi + layout.size.value))
          (place_field dl self i layout)
  unfolding place_field
  place_field-Outcome self i layout h small =
      let (start, e, aligned) =
        align_to-IsAligned self.offset layout.alignment.abi h (omega (arith, small)) in
      rw e (
        Outcome-bind (sum_of_sizes dl start layout.size) _
          (sum_of_sizes-Outcome dl bound is_bound le start layout.size)
          (λ q. omega (arith, q, aligned.close))
          (λ end (sum, less). fits _ (record {
            field = record { offset = start; size = layout.size };
            written = refl;
            size = refl;
            aligned = aligned;
            end = sum;
            alignment = refl;
            abi = refl;
            small = omega (arith, less, le);
          })))
