-- ===== src/Exhaustiveness/Range/Split.antt =====
-- compiler/hash-exhaustiveness/src/range.rs: what `split` and `iter` do to a `SplitIntRange`.
use hashc.Prelude.{
  ℕ, suc, ◌≤◌, ◌<◌, ◌≡◌, refl, ap, ◌∙◌, subst, Bool-cases, Option-cases, none, some, List, [], ◌∷◌,
  ◌++◌, ◌⊎◌, inl, inr, ◌↔◌, ltb, min, max, arith,
}
use hashc.Prelude.Bytes.{All, All-append}
use hashc.Exhaustiveness.Range.{
  IntRange, IsRange, u128_max, intersection, IntBorder, just_before, SplitIntRange, new, end_border,
  included_borders, split, iter,
}
use hashc.Exhaustiveness.Range.Sort.{
  position, IsBorder, Ascending, Sorted, Ascending-Sorted, sort_borders-All, sort_borders-Sorted,
}
use hashc.Exhaustiveness.Range.Partition.{
  Partitions, IsClear, last_border, border_ranges-AreBetween,
}

-- The border lies in the range or at one of its ends.
abbrev pub IsInside : IntRange → IntBorder → Type 0
IsInside r b = IsBorder b × (r.start ≤ position b) × (position b ≤ suc r.end)

pub record IsSplit (s : SplitIntRange) : Type 0 where
  pub range_valid : IsRange s.range
  pub inside : All (IsInside s.range) s.borders
  pub sorted : Sorted s.borders

abbrev pub Contains : ℕ → IntRange → Type 0
Contains n r = (r.start ≤ n) × (n ≤ r.end)

pub end_border-position : (hi : ℕ) → hi ≤ u128_max → position (end_border hi) ≡ suc hi
unfolding end_border
end_border-position hi h = elim (Bool-cases (ltb hi u128_max)) [
  | inl e ↦ rw e (omega arith)
  | inr e ↦ rw e (ground arith)
]

end_border-IsBorder : (hi : ℕ) → IsBorder (end_border hi)
unfolding end_border
end_border-IsBorder hi = elim (Bool-cases (ltb hi u128_max)) [
  | inl e ↦ rw e (ground arith)
  | inr e ↦ rw e tt
]

pub intersection-some :
    (a b k : IntRange)
    → intersection a b ≡ some k
    → (a.start ≤ b.end)
      × (b.start ≤ a.end)
      × (k ≡ record { start = max a.start b.start; end = min a.end b.end })
unfolding intersection
intersection-some a b k h = ground arith

pub intersection-none :
    (a b : IntRange) → intersection a b ≡ none → (b.end < a.start) ⊎ (a.end < b.start)
unfolding intersection
intersection-none a b h = ground arith

-- Two ranges share exactly the numbers of their intersection, which is a range again.
pub intersection-Contains :
    (self other : IntRange) (n : ℕ)
    → (Contains n self × Contains n other)
      ↔ ((k : IntRange) × (intersection self other ≡ some k) × Contains n k)
unfolding intersection
intersection-Contains self other n = (
  (λ h. (
    record { start = max self.start other.start; end = min self.end other.end },
    ground arith,
    omega (arith, h.0, h.1),
  )),
  (λ h.
      let (k, e, c) = h in
      let (_, _, same) = intersection-some self other k e in both (subst (Contains n) same c)),
)
  where
    both :
        Contains n (record { start = max self.start other.start; end = min self.end other.end })
        → Contains n self × Contains n other
    both c = ((omega (arith, c), omega (arith, c)), (omega (arith, c), omega (arith, c)))

included_borders-IsInside :
    (this : IntRange) (ranges : List IntRange)
    → IsRange this
    → All (IsInside this) (included_borders this ranges)
unfolding included_borders
included_borders-IsInside this [] h = tt
included_borders-IsInside this (r ∷ rs) h =
    let rest = included_borders-IsInside this rs h in
    elim (Option-cases (intersection this r)) [
      | inl e ↦ rw e rest
      | inr (k, e) ↦
          let (lo, hi, same) = intersection-some this r k e in
          let start = ap (λ k. k.start) same in
          let end = ap (λ k. k.end) same in
          let at = end_border-position k.end (omega (arith, h.ordered, h.fits, end)) in
          rw e (
            (
              omega (arith, h.ordered, h.fits, start, lo),
              omega (arith, start),
              omega (arith, start, lo, h.ordered),
            ),
            (
              (
                end_border-IsBorder k.end,
                omega (arith, at, end, hi, h.ordered),
                omega (arith, at, end),
              ),
              rest,
            ),
          )
    ]

All-IsBorder : (r : IntRange) (bs : List IntBorder) → All (IsInside r) bs → All IsBorder bs
All-IsBorder r [] h = tt
All-IsBorder r (b ∷ bs) h = (h.0.0, All-IsBorder r bs h.1)

All-start :
    (r : IntRange) (bs : List IntBorder) → All (IsInside r) bs → All (λ b. r.start ≤ position b) bs
All-start r [] h = tt
All-start r (b ∷ bs) h = (h.0.1, All-start r bs h.1)

pub new-IsSplit : (range : IntRange) → IsRange range → IsSplit (new range)
unfolding new
new-IsSplit range h = record { range_valid = h; inside = tt; sorted = tt }

-- If the borders are sorted and inside a valid range, splitting keeps them so.
pub split-IsSplit :
    (self : SplitIntRange) (ranges : List IntRange) → IsSplit self → IsSplit (split self ranges)
unfolding split
split-IsSplit self ranges h =
    let all = self.borders ++ included_borders self.range ranges in
    let inside =
      All-append (IsInside self.range) self.borders _ h.inside
        (included_borders-IsInside self.range ranges h.range_valid) in
    record {
      range_valid = h.range_valid;
      inside = sort_borders-All (IsInside self.range) all inside;
      sorted = sort_borders-Sorted all (All-IsBorder self.range all inside);
    }

Ascending-append :
    (b c : IntBorder) (bs : List IntBorder)
    → Ascending b bs
    → All (λ a. position a ≤ position c) bs
    → position b ≤ position c
    → Ascending b (bs ++ c ∷ [])
Ascending-append b c [] h k l = (l, tt)
Ascending-append b c (a ∷ bs) h k l = (h.0, Ascending-append a c bs h.1 k.1 k.0)

last_border-append : (b c : IntBorder) (bs : List IntBorder) → last_border b (bs ++ c ∷ []) ≡ c
last_border-append b c [] = refl
last_border-append b c (a ∷ bs) = last_border-append a c bs

All-end :
    (r : IntRange) (c : IntBorder) (bs : List IntBorder)
    → position c ≡ suc r.end
    → All (IsInside r) bs
    → All (λ b. position b ≤ position c) bs
All-end r c [] e h = tt
All-end r c (b ∷ bs) e h = (omega (arith, e, h.0.2), All-end r c bs e h.1)

module _ (P : IntBorder → Type 0) where
  All-prefix : (bs cs : List IntBorder) → All P (bs ++ cs) → All P bs
  All-prefix [] cs h = tt
  All-prefix (b ∷ bs) cs h = (h.0, All-prefix bs cs h.1)

IsClear-prefix :
    (bs cs : List IntBorder) (rs : List IntRange)
    → All (λ r. All (λ b. IsClear b r) (bs ++ cs)) rs
    → All (λ r. All (λ b. IsClear b r) bs) rs
IsClear-prefix bs cs [] h = tt
IsClear-prefix bs cs (r ∷ rs) h =
    (All-prefix (λ b. IsClear b r) bs cs h.0, IsClear-prefix bs cs rs h.1)

pub record AreSplit (s : SplitIntRange) (rs : List IntRange) : Type 0 where
  pub made : iter s ≡ some rs
  pub partitions : Partitions s.range.start (suc s.range.end) rs
  pub clear : All (λ r. All (λ b. IsClear b r) s.borders) rs

pub iter-AreSplit : (s : SplitIntRange) → IsSplit s → (rs : List IntRange) × AreSplit s rs
unfolding iter
iter-AreSplit s h =
    let lo = just_before s.range.start in
    let hi = end_border s.range.end in
    let bs = s.borders ++ hi ∷ [] in
    let at : position hi ≡ suc s.range.end = end_border-position s.range.end h.range_valid.fits in
    let last : position (last_border lo bs) ≡ suc s.range.end =
      ap position (last_border-append lo hi s.borders) ∙ at in
    let (rs, k) =
      border_ranges-AreBetween lo bs (omega (arith, h.range_valid.ordered, h.range_valid.fits))
        (All-append IsBorder s.borders (hi ∷ []) (All-IsBorder s.range s.borders h.inside)
          (end_border-IsBorder s.range.end, tt))
        (Ascending-append lo hi s.borders
          (Ascending-Sorted lo s.borders h.sorted (All-start s.range s.borders h.inside))
          (All-end s.range hi s.borders at h.inside) (omega (arith, at, h.range_valid.ordered))) in
    (
      rs,
      record {
        made = k.made;
        partitions = subst (λ n. Partitions s.range.start n rs) last k.partitions;
        clear = IsClear-prefix s.borders (hi ∷ []) rs k.clear;
      },
    )
