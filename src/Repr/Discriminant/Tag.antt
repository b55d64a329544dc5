-- ===== src/Repr/Discriminant/Tag.antt =====
-- compiler/hash-repr/src/ty.rs: the integer that is chosen for a tag.
use hashc.Prelude.{
  ℕ, ◌*◌, ◌^◌, ◌≤◌, ◌<◌, ◌≡◌, refl, sym, ap, ◌∙◌, subst, Bool, true, false, ◌&&◌, Bool-cases, inl,
  inr, max, Option, none, some, List, ltb, ◌==◌, if◌then◌else◌, get_elem?, arith,
}
use hashc.Prelude.Bytes.{All}
use hashc.Target.DataLayout.{Integer, TargetDataLayout, int8}
use hashc.Target.Primitives.{IntTy, UIntTy}
use hashc.Repr.Layout.{Laid, done, too_large, panicked, ◌>>=◌, or_panic, Layout}
use hashc.Repr.Placement.{is_c_like}
use hashc.Repr.Discriminant.{
  Adt, fit_unsigned, fit_signed, fits_signed, int_max, is_signed, int_ty_size, uint_of,
  discriminant_ty_of, discriminant_ty, range_of_variants, pretend_one, assert_ordered,
  any_uninhabited, i128_max, i128_min, compute_discriminant_range, representation_for,
  smallest_representation, discriminant_representation,
}
use hashc.Repr.Discriminant.Holds.{
  bits_of, biased, IsI128, fit_unsigned-lt, fit_signed-fits_signed, between_fits, int_max-le,
  range-Ranges, range-within,
}

done_injective {ℓ} : {A : Type ℓ} {a b : A} → done a ≡ done b → a ≡ b
done_injective {a = a} e = ap (λ m. elim m [ done x ↦ x | too_large ↦ a | panicked ↦ a ]) e

>>=-eq-done {ℓ} :
    {A B : Type ℓ} (m : Laid A) (f : A → Laid B) {b : B}
    → (m >>= f) ≡ done b
    → (a : A) × (m ≡ done a) × (f a ≡ done b)
>>=-eq-done (done a) f e = (a, refl, e)
>>=-eq-done too_large f e = cc
>>=-eq-done panicked f e = cc

uint_of-unsigned : (o : Option UIntTy) (ty : IntTy) → uint_of o ≡ done ty → is_signed ty ≡ false
uint_of-unsigned none ty e = cc
uint_of-unsigned (some u) ty e = sym (ap is_signed (done_injective e))

discriminant_ty-unsigned :
    (adt : Adt) (ty : IntTy)
    → adt.metadata.discriminant ≡ none
    → discriminant_ty adt ≡ done ty
    → is_signed ty ≡ false
unfolding discriminant_ty
discriminant_ty-unsigned adt ty e f =
    uint_of-unsigned _ ty (sym (ap (discriminant_ty_of adt) e) ∙ f)

assert_ordered-done : (r : ℕ × ℕ) (r' : ℕ × ℕ) → assert_ordered r ≡ done r' → r ≡ r'
assert_ordered-done (lo, hi) r' e = elim (Bool-cases (ltb (biased hi) (biased lo))) [
  | inl h ↦ let crash = rw h at e in cc
  | inr h ↦ let ends = rw h at e in done_injective ends
]

pretend_one_kept :
    (r : ℕ × ℕ) (d : ℕ) → biased r.0 ≤ biased d → biased d ≤ biased r.1 → pretend_one r ≡ r
pretend_one_kept (lo, hi) d h k = elim (Bool-cases (lo == i128_max && hi == i128_min)) [
  | inl e ↦ absurd (ground arith)
  | inr e ↦ rw e refl
]

-- A number of 128 bits that the integer holds, read as unsigned or as signed.
abbrev pub Holds : Integer → Bool → ℕ → Type 0
Holds ty false d = d < 2 ^ bits_of ty
Holds ty true d = fits_signed (bits_of ty) d ≡ true

-- The range that is computed has the discriminant of every inhabited variant.
record IsInRange (d : ℕ) (range : ℕ × ℕ) : Type 0 where
  lower : biased range.0 ≤ biased d
  upper : biased d ≤ biased range.1
  low : IsI128 range.0
  high : IsI128 range.1

module _ (dl : TargetDataLayout) (adt : Adt) (table : List (List Layout))
    (chosen : adt.metadata.discriminant ≡ none) (words : All IsI128 adt.discriminants) where
  compute_discriminant_range-IsInRange :
      (range : ℕ × ℕ) (k d : ℕ) (fields : List Layout)
      → compute_discriminant_range dl adt table ≡ done range
      → get_elem? adt.discriminants k ≡ some d
      → get_elem? table k ≡ some fields
      → any_uninhabited fields ≡ false
      → IsInRange d range
  unfolding compute_discriminant_range
  compute_discriminant_range-IsInRange range k d fields e f g h =
      let (ty, e1, e2) = >>=-eq-done (discriminant_ty adt) _ e in
      let (size, e3, e4) = >>=-eq-done (or_panic (int_ty_size ty dl.pointer_size)) _ e2 in
      let unsigned = discriminant_ty-unsigned adt ty chosen e1 in
      let bits = size.value * 8 in
      let read = range_of_variants false bits adt.discriminants table (i128_max, i128_min) in
      let (l, u) =
        range-within bits adt.discriminants table i128_max i128_min k d fields words (omega arith)
          (omega arith) f g h in
      let r =
        range-Ranges bits adt.discriminants table i128_max i128_min words (omega arith)
          (omega arith) in
      let same : read ≡ range =
        sym (pretend_one_kept read d l u)
        ∙ ap
            (λ b.
              pretend_one (range_of_variants b bits adt.discriminants table (i128_max, i128_min)))
            (sym unsigned)
        ∙ assert_ordered-done _ range e4 in
      subst (IsInRange d) same (record { lower = l; upper = u; low = r.low; high = r.high })

smallest_representation-Holds :
    (minimum ty : Integer) (signed : Bool) (lo hi d : ℕ)
    → IsInRange d (lo, hi)
    → IsI128 d
    → smallest_representation minimum
        (fit_unsigned (max lo hi))
        (int_max (fit_signed lo) (fit_signed hi))
        lo
      ≡ done (ty, signed)
    → Holds ty signed d
smallest_representation-Holds minimum ty signed lo hi d r v e =
    elim (Bool-cases (ltb lo (2 ^ 127))) [
      | inl h ↦
          let chosen = rw h at e in
          let pair = done_injective chosen in
          let (le, _) = int_max-le (fit_unsigned (max lo hi)) minimum in
          let top = int_max (fit_unsigned (max lo hi)) minimum in
          let fits : max lo hi < 2 ^ bits_of top =
            fit_unsigned-lt (max lo hi) top (omega (arith, r.low, r.high)) le in
          let below : d ≤ hi = ground (arith, r.lower, r.upper, r.high, v) in
          subst (λ p. Holds p.0 p.1 d) pair (omega (arith, fits, below))
      | inr h ↦
          let chosen = rw h at e in
          let pair = done_injective chosen in
          let fit = int_max (fit_signed lo) (fit_signed hi) in
          let top = int_max fit minimum in
          let (le, _) = int_max-le fit minimum in
          let (low, high) = int_max-le (fit_signed lo) (fit_signed hi) in
          subst (λ p. Holds p.0 p.1 d) pair
            (between_fits top lo d hi r.low v r.high r.lower r.upper
              (fit_signed-fits_signed lo top (omega (arith, le, low)))
              (fit_signed-fits_signed hi top (omega (arith, le, high))))
    ]

representation_for-none :
    (dl : TargetDataLayout) (adt : Adt) (lo hi : ℕ)
    → adt.metadata.discriminant ≡ none
    → discriminant_representation adt dl lo hi
      ≡ smallest_representation
          (if is_c_like adt.metadata then dl.c_style_enum_min_size else int8)
          (fit_unsigned (max lo hi))
          (int_max (fit_signed lo) (fit_signed hi))
          lo
unfolding discriminant_representation
representation_for-none dl adt lo hi e =
    ap
      (λ o.
        representation_for dl adt.metadata o (fit_unsigned (max lo hi))
          (int_max (fit_signed lo) (fit_signed hi)) lo)
      e

-- Where an enum specifies no type for its discriminants, which are words of 128 bits, and the
-- range of the discriminants and their representation are computed, the integer chosen holds the
-- discriminant of every inhabited variant, as an unsigned or as a signed number.
pub discriminant_representation-Holds :
    (dl : TargetDataLayout) (adt : Adt) (table : List (List Layout)) (lo hi : ℕ) (ty : Integer)
    (signed : Bool) (k d : ℕ) (fields : List Layout)
    → adt.metadata.discriminant ≡ none
    → All IsI128 adt.discriminants
    → IsI128 d
    → compute_discriminant_range dl adt table ≡ done (lo, hi)
    → discriminant_representation adt dl lo hi ≡ done (ty, signed)
    → get_elem? adt.discriminants k ≡ some d
    → get_elem? table k ≡ some fields
    → any_uninhabited fields ≡ false
    → Holds ty signed d
discriminant_representation-Holds dl adt table lo hi ty signed k d fields chosen words v e f g h i =
    smallest_representation-Holds
      (if is_c_like adt.metadata then dl.c_style_enum_min_size else int8) ty signed lo hi d
      (compute_discriminant_range-IsInRange dl adt table chosen words (lo, hi) k d fields e g h i) v
      (sym (representation_for-none dl adt lo hi chosen) ∙ f)
