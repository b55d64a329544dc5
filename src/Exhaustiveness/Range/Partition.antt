-- ===== src/Exhaustiveness/Range/Partition.antt =====
-- compiler/hash-exhaustiveness/src/range.rs: the ranges between ascending borders follow on each
-- other with no gap, and no border falls inside one of them.
use hashc.Prelude.{
  ℕ, suc, ◌-◌, ◌≤◌, ◌<◌, ◌≡◌, refl, false, Bool-cases, some, List, [], ◌∷◌, ◌⊎◌, inl, inr, arith,
}
use hashc.Prelude.Bytes.{All}
use hashc.Exhaustiveness.Range.{
  IntRange, IntBorder, just_before, after_max, border_eq, u128_max, adjacent, skip_duplicates,
  border_range, border_ranges,
}
use hashc.Exhaustiveness.Range.Sort.{position, IsBorder, Ascending, border_eq-true}

-- The ranges cover the numbers from `lo` up to `hi`, without `hi`, each of them once and in order.
abbrev pub Partitions : ℕ → ℕ → List IntRange → Type 0
Partitions lo hi [] = lo ≡ hi
Partitions lo hi (r ∷ rs) = (r.start ≡ lo) × (r.start ≤ r.end) × Partitions (suc r.end) hi rs

abbrev pub Within : ℕ → ℕ → IntRange → Type 0
Within lo hi r = (lo ≤ r.start) × (r.start ≤ r.end) × (r.end < hi)

-- The border does not fall inside the range.
abbrev pub IsClear : IntBorder → IntRange → Type 0
IsClear b r = (position b ≤ r.start) ⊎ (r.end < position b)

Partitions-le : (lo hi : ℕ) (rs : List IntRange) → Partitions lo hi rs → lo ≤ hi
Partitions-le lo hi [] h = omega arith
Partitions-le lo hi (r ∷ rs) h = omega (arith, h.0, h.1, Partitions-le (suc r.end) hi rs h.2)

Within-weaken :
    (lo lo' hi : ℕ) (rs : List IntRange) → lo' ≤ lo → All (Within lo hi) rs → All (Within lo' hi) rs
Within-weaken lo lo' hi [] h k = tt
Within-weaken lo lo' hi (r ∷ rs) h k =
    ((omega (arith, k.0.0), k.0.1, k.0.2), Within-weaken lo lo' hi rs h k.1)

pub Partitions-Within :
    (lo hi : ℕ) (rs : List IntRange) → Partitions lo hi rs → All (Within lo hi) rs
Partitions-Within lo hi [] h = tt
Partitions-Within lo hi (r ∷ rs) h = (
  (omega (arith, h.0), h.1, omega (arith, h.1, Partitions-le (suc r.end) hi rs h.2)),
  Within-weaken (suc r.end) lo hi rs (omega (arith, h.0, h.1))
      (Partitions-Within (suc r.end) hi rs h.2),
)

border_range-some :
    (b c : IntBorder)
    → border_eq b c ≡ false
    → position b ≤ position c
    → IsBorder b
    → IsBorder c
    → (r : IntRange) × (border_range b c ≡ some r)
      × (r.start ≡ position b)
      × (r.start ≤ r.end)
      × (suc r.end ≡ position c)
unfolding border_eq border_range
border_range-some (just_before n) (just_before m) e h v w =
    let lt : n < m = ground arith in
    (record { start = n; end = m - 1 }, ground arith, refl, omega arith, omega arith)
border_range-some (just_before n) after_max e h v w =
    (record { start = n; end = u128_max }, refl, refl, v, refl)
border_range-some after_max (just_before m) e h v w = absurd (omega (arith, h, w))
border_range-some after_max after_max e h v w = absurd (ground arith)

abbrev pub last_border : IntBorder → List IntBorder → IntBorder
last_border b [] = b
last_border b (c ∷ cs) = last_border c cs

Ascending-IsClear :
    (r : IntRange) (b : IntBorder) (cs : List IntBorder)
    → r.end < position b
    → Ascending b cs
    → All (λ c. IsClear c r) cs
Ascending-IsClear r b [] h k = tt
Ascending-IsClear r b (c ∷ cs) h k =
    (inr (omega (arith, h, k.0)), Ascending-IsClear r c cs (omega (arith, h, k.0)) k.1)

abbrev AllClear : List IntBorder → List IntRange → Type 0
AllClear cs rs = All (λ r. All (λ c. IsClear c r) cs) rs

AllClear-cons :
    (c : IntBorder) (cs : List IntBorder) (hi : ℕ) (rs : List IntRange)
    → All (Within (position c) hi) rs
    → AllClear cs rs
    → AllClear (c ∷ cs) rs
AllClear-cons c cs hi [] h k = tt
AllClear-cons c cs hi (r ∷ rs) h k = ((inl h.0.0, k.0), AllClear-cons c cs hi rs h.1 k.1)

-- What the ranges between borders are to the borders.
pub record AreBetween (b : IntBorder) (cs : List IntBorder) (rs : List IntRange) : Type 0 where
  pub made : border_ranges (skip_duplicates (adjacent b cs)) ≡ some rs
  pub partitions : Partitions (position b) (position (last_border b cs)) rs
  pub clear : All (λ r. All (λ c. IsClear c r) cs) rs

pub border_ranges-AreBetween :
    (b : IntBorder) (cs : List IntBorder)
    → IsBorder b
    → All IsBorder cs
    → Ascending b cs
    → (rs : List IntRange) × AreBetween b cs rs
unfolding adjacent skip_duplicates border_ranges
border_ranges-AreBetween b [] v w h = ([], record { made = refl; partitions = refl; clear = tt })
border_ranges-AreBetween b (c ∷ cs) v w h =
    let (rs, k) = border_ranges-AreBetween c cs w.0 w.1 h.1 in
    let hi = position (last_border c cs) in
    let within = Partitions-Within (position c) hi rs k.partitions in
    elim (Bool-cases (border_eq b c)) [
      | inl e ↦ (
        rs,
        record {
          made = rw e k.made;
          partitions = rw (border_eq-true b c e) k.partitions;
          clear = AllClear-cons c cs hi rs within k.clear;
        },
      )
      | inr e ↦
          let (r, made, start, ordered, end) = border_range-some b c e h.0 v w.0 in
          (
            r ∷ rs,
            record {
              made = rw (e, made, k.made) refl;
              partitions = (start, ordered, rw end k.partitions);
              clear = (
                (inr (omega (arith, end)), Ascending-IsClear r c cs (omega (arith, end)) h.1),
                AllClear-cons c cs hi rs within k.clear,
              );
            },
          )
    ]
