-- ===== src/Repr/Discriminant/Holds.antt =====
-- compiler/hash-repr/src/compute.rs and ty.rs: the integer of a tag holds the discriminants.
use hashc.Prelude.{
  ℕ, zero, suc, ◌+◌, ◌%◌, ◌^◌, ◌≤◌, ◌<◌, ◌≡◌, refl, ap, ◌∙◌, true, false, Bool-cases, inl, inr,
  some, some_injective, none-some, List, [], ◌∷◌, ltb, if◌then◌else◌, get_elem?, arith,
}
use hashc.Prelude.Bytes.{All}
use hashc.Target.DataLayout.{Integer, int8, int16, int32, int64, int128}
use hashc.Target.Abi.{int_rank}
use hashc.Repr.Layout.{Layout}
use hashc.Repr.Discriminant.{
  fit_unsigned, fit_signed, fits_signed, int_max, range_of_variants, any_uninhabited,
}

abbrev pub bits_of : Integer → ℕ
bits_of int8 = 8
bits_of int16 = 16
bits_of int32 = 32
bits_of int64 = 64
bits_of int128 = 128

-- The order of `i128`s is that of these numbers.
abbrev pub biased : ℕ → ℕ
biased n = (n + 2 ^ 127) % 2 ^ 128

abbrev pub IsI128 : ℕ → Type 0
IsI128 n = n < 2 ^ 128

pub fit_unsigned-lt :
    (n : ℕ) (ty : Integer) → IsI128 n → int_rank (fit_unsigned n) ≤ int_rank ty → n < 2 ^ bits_of ty
unfolding fit_unsigned
fit_unsigned-lt n int8 v h = ground arith
fit_unsigned-lt n int16 v h = ground arith
fit_unsigned-lt n int32 v h = ground arith
fit_unsigned-lt n int64 v h = ground arith
fit_unsigned-lt n int128 v h = v

pub fit_signed-fits_signed :
    (n : ℕ) (ty : Integer)
    → int_rank (fit_signed n) ≤ int_rank ty
    → fits_signed (bits_of ty) n ≡ true
unfolding fit_signed
fit_signed-fits_signed n int8 h = ground arith
fit_signed-fits_signed n int16 h = ground arith
fit_signed-fits_signed n int32 h = ground arith
fit_signed-fits_signed n int64 h = ground arith
fit_signed-fits_signed n int128 h = ground arith

-- A number between two that fit does.
pub between_fits :
    (ty : Integer) (lo n hi : ℕ)
    → IsI128 lo
    → IsI128 n
    → IsI128 hi
    → biased lo ≤ biased n
    → biased n ≤ biased hi
    → fits_signed (bits_of ty) lo ≡ true
    → fits_signed (bits_of ty) hi ≡ true
    → fits_signed (bits_of ty) n ≡ true
between_fits int8 lo n hi a b c d e f g = ground arith
between_fits int16 lo n hi a b c d e f g = ground arith
between_fits int32 lo n hi a b c d e f g = ground arith
between_fits int64 lo n hi a b c d e f g = ground arith
between_fits int128 lo n hi a b c d e f g = ground arith

pub int_max-le :
    (a b : Integer) → (int_rank a ≤ int_rank (int_max a b)) × (int_rank b ≤ int_rank (int_max a b))
int_max-le a b = elim (Bool-cases (ltb (int_rank b) (int_rank a))) [
  | inl e ↦ rw e (omega arith, ground arith)
  | inr e ↦ rw e (ground arith, omega arith)
]

-- A range of `i128`s, within which some discriminants lie.
pub record Ranges (before after : ℕ × ℕ) : Type 0 where
  pub lower : biased after.0 ≤ biased before.0
  pub upper : biased before.1 ≤ biased after.1
  pub low : IsI128 after.0
  pub high : IsI128 after.1

pub next_lower :
    (v lo : ℕ)
    → IsI128 v
    → IsI128 lo
    → (biased (if ltb (biased v) (biased lo) then v else lo) ≤ biased lo)
      × (biased (if ltb (biased v) (biased lo) then v else lo) ≤ biased v)
      × IsI128 (if ltb (biased v) (biased lo) then v else lo)
next_lower v lo a b = elim (Bool-cases (ltb (biased v) (biased lo))) [
  | inl e ↦ rw e (ground arith, omega arith, a)
  | inr e ↦ rw e (omega arith, ground arith, b)
]

next_upper :
    (v hi : ℕ)
    → IsI128 v
    → IsI128 hi
    → (biased hi ≤ biased (if ltb (biased hi) (biased v) then v else hi))
      × (biased v ≤ biased (if ltb (biased hi) (biased v) then v else hi))
      × IsI128 (if ltb (biased hi) (biased v) then v else hi)
next_upper v hi a b = elim (Bool-cases (ltb (biased hi) (biased v))) [
  | inl e ↦ rw e (ground arith, omega arith, a)
  | inr e ↦ rw e (omega arith, ground arith, b)
]

module _ (bits : ℕ) where
  pub range-Ranges :
      (values : List ℕ) (table : List (List Layout)) (lo hi : ℕ)
      → All IsI128 values
      → IsI128 lo
      → IsI128 hi
      → Ranges (lo, hi) (range_of_variants false bits values table (lo, hi))
  unfolding range_of_variants
  range-Ranges [] table lo hi v a b = record {
    lower = omega arith;
    upper = omega arith;
    low = a;
    high = b;
  }
  range-Ranges (value ∷ values) [] lo hi v a b = record {
    lower = omega arith;
    upper = omega arith;
    low = a;
    high = b;
  }
  range-Ranges (value ∷ values) (fields ∷ table) lo hi v a b =
      elim (Bool-cases (any_uninhabited fields)) [
        | inl e ↦ rw e (range-Ranges values table lo hi v.1 a b)
        | inr e ↦
            let (lower, l, low) = next_lower value lo v.0 a in
            let (upper, u, high) = next_upper value hi v.0 b in
            let rest = range-Ranges values table _ _ v.1 low high in
            rw e (record {
              lower = omega (arith, rest.lower, lower);
              upper = omega (arith, rest.upper, upper);
              low = rest.low;
              high = rest.high;
            })
      ]

  abbrev lower_of : ℕ → ℕ → ℕ
  lower_of value lo = if ltb (biased value) (biased lo) then value else lo

  abbrev upper_of : ℕ → ℕ → ℕ
  upper_of value hi = if ltb (biased hi) (biased value) then value else hi

  range_of_variants-inhabited :
      (value : ℕ) (values : List ℕ) (row : List Layout) (table : List (List Layout)) (lo hi : ℕ)
      → any_uninhabited row ≡ false
      → range_of_variants false bits (value ∷ values) (row ∷ table) (lo, hi)
        ≡ range_of_variants false bits values table (lower_of value lo, upper_of value hi)
  unfolding range_of_variants
  range_of_variants-inhabited value values row table lo hi e = rw e refl

  range_of_variants-uninhabited :
      (value : ℕ) (values : List ℕ) (row : List Layout) (table : List (List Layout)) (lo hi : ℕ)
      → any_uninhabited row ≡ true
      → range_of_variants false bits (value ∷ values) (row ∷ table) (lo, hi)
        ≡ range_of_variants false bits values table (lo, hi)
  unfolding range_of_variants
  range_of_variants-uninhabited value values row table lo hi e = rw e refl

  -- The discriminant of an inhabited variant lies in the range.
  pub range-within :
      (values : List ℕ) (table : List (List Layout)) (lo hi k d : ℕ) (fields : List Layout)
      → All IsI128 values
      → IsI128 lo
      → IsI128 hi
      → get_elem? values k ≡ some d
      → get_elem? table k ≡ some fields
      → any_uninhabited fields ≡ false
      → (biased (range_of_variants false bits values table (lo, hi)).0 ≤ biased d)
        × (biased d ≤ biased (range_of_variants false bits values table (lo, hi)).1)
  range-within [] table lo hi k d fields v a b e f g = absurd (none-some e)
  range-within (value ∷ values) [] lo hi k d fields v a b e f g = absurd (none-some f)
  range-within (value ∷ values) (row ∷ table) lo hi zero d fields v a b e f g =
      let inhabited = ap any_uninhabited (some_injective f) ∙ g in
      let same : value ≡ d = some_injective e in
      let (lower, l, low) = next_lower value lo v.0 a in
      let (upper, u, high) = next_upper value hi v.0 b in
      let rest = range-Ranges values table _ _ v.1 low high in
      rw (range_of_variants-inhabited value values row table lo hi inhabited)
        (omega (arith, rest.lower, l, ap biased same), omega (arith, rest.upper, u, ap biased same))
  range-within (value ∷ values) (row ∷ table) lo hi (suc k) d fields v a b e f g =
      elim (Bool-cases (any_uninhabited row)) [
        | inl h ↦
            rw (range_of_variants-uninhabited value values row table lo hi h)
              (range-within values table lo hi k d fields v.1 a b e f g)
        | inr h ↦
            let low = (next_lower value lo v.0 a).2 in
            let high = (next_upper value hi v.0 b).2 in
            rw (range_of_variants-inhabited value values row table lo hi h)
              (range-within values table _ _ k d fields v.1 low high e f g)
      ]
