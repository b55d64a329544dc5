-- ===== src/Exhaustiveness/Range/Cover.antt =====
-- compiler/hash-exhaustiveness/src/range.rs: after a split, each range that `iter` gives lies inside
-- a seen range or apart from it, which the `assert!` of `is_covered_by` relies on.
use hashc.Prelude.{
  suc, ◌≤◌, ◌<◌, ◌≡◌, ap, true, Option-cases, some, List, [], ◌∷◌, ◌++◌, ◌⊎◌, inl, inr, arith,
}
use hashc.Prelude.Bytes.{All}
use hashc.Exhaustiveness.Range.{
  IntRange, IsRange, intersection, is_subrange, is_covered_by, IntBorder, just_before,
  SplitIntRange, end_border, included_borders, split, iter,
}
use hashc.Exhaustiveness.Range.Sort.{All-sort_borders}
use hashc.Exhaustiveness.Range.Partition.{Partitions, Within, Partitions-Within, IsClear}
use hashc.Exhaustiveness.Range.Split.{
  IsSplit, split-IsSplit, iter-AreSplit, intersection-some, intersection-none, end_border-position,
}

is_covered_by-inside :
    (o r : IntRange)
    → o.start ≤ o.end
    → is_subrange o r ≡ true
    → is_covered_by o r ≡ some (is_subrange o r)
unfolding is_covered_by intersection is_subrange
is_covered_by-inside o r h k = ground arith

is_covered_by-apart :
    (o r : IntRange)
    → o.start ≤ o.end
    → (o.end < r.start) ⊎ (r.end < o.start)
    → is_covered_by o r ≡ some (is_subrange o r)
unfolding is_covered_by intersection is_subrange
is_covered_by-apart o r h k = ground arith

is_subrange-true : (o r : IntRange) → r.start ≤ o.start → o.end ≤ r.end → is_subrange o r ≡ true
unfolding is_subrange
is_subrange-true o r h k = ground arith

-- `o` lies in `this`, and the ends of what `this` shares with `r` do not fall inside `o`.
is_covered_by-between :
    (this o r k : IntRange)
    → IsRange this
    → Within this.start (suc this.end) o
    → intersection this r ≡ some k
    → IsClear (just_before k.start) o
    → IsClear (end_border k.end) o
    → is_covered_by o r ≡ some (is_subrange o r)
is_covered_by-between this o r k h w e below above =
    let (lo, hi, same) = intersection-some this r k e in
    let start = ap (λ k. k.start) same in
    let end = ap (λ k. k.end) same in
    let at = end_border-position k.end (omega (arith, h.fits, end)) in
    elim below [
      | inr c ↦ is_covered_by-apart o r w.1 (inl (omega (arith, c, start, w)))
      | inl c ↦ elim above [
        | inl d ↦ is_covered_by-apart o r w.1 (inr (omega (arith, d, at, end, w)))
        | inr d ↦
            is_covered_by-inside o r w.1
              (is_subrange-true o r (omega (arith, c, start)) (omega (arith, d, at, end)))
      ]
    ]

all_covered :
    (this o : IntRange) (ranges : List IntRange)
    → IsRange this
    → Within this.start (suc this.end) o
    → All (λ b. IsClear b o) (included_borders this ranges)
    → All (λ r. is_covered_by o r ≡ some (is_subrange o r)) ranges
unfolding included_borders
all_covered this o [] h w k = tt
all_covered this o (r ∷ rs) h w k = elim (Option-cases (intersection this r)) [
  | inl e ↦
      let k' = rw e at k in
      (
        is_covered_by-apart o r w.1 (elim (intersection-none this r e) [
          | inl c ↦ inr (omega (arith, c, w))
          | inr c ↦ inl (omega (arith, c, w))
        ]),
        all_covered this o rs h w k',
      )
  | inr (i, e) ↦
      let (below, (above, rest)) = rw e at k in
      (is_covered_by-between this o r i h w e below above, all_covered this o rs h w rest)
]

module _ (P : IntBorder → Type 0) where
  All-suffix : (bs cs : List IntBorder) → All P (bs ++ cs) → All P cs
  All-suffix [] cs h = h
  All-suffix (b ∷ bs) cs h = All-suffix bs cs h.1

outs_covered :
    (self : SplitIntRange) (ranges outs : List IntRange)
    → IsRange self.range
    → All (Within self.range.start (suc self.range.end)) outs
    → All (λ o. All (λ b. IsClear b o) (split self ranges).borders) outs
    → All (λ o. All (λ r. is_covered_by o r ≡ some (is_subrange o r)) ranges) outs
unfolding split
outs_covered self ranges [] h w k = tt
outs_covered self ranges (o ∷ outs) h w k = (
  all_covered self.range o ranges h w.0 (
      All-suffix (λ b. IsClear b o) self.borders _
        (All-sort_borders (λ b. IsClear b o) (self.borders ++ included_borders self.range ranges)
          k.0)),
  outs_covered self ranges outs h w.1 k.1,
)

outs-Within :
    (self : SplitIntRange) (ranges outs : List IntRange)
    → Partitions (split self ranges).range.start (suc (split self ranges).range.end) outs
    → All (Within self.range.start (suc self.range.end)) outs
unfolding split
outs-Within self ranges outs p = Partitions-Within self.range.start (suc self.range.end) outs p

-- For a split range whose borders are sorted and inside it, `iter` never meets its `unreachable!()`,
-- and the ranges it gives partition the range: each starts where the one before it ended, the first
-- at the range's start and the last ending at its end.
pub iter-Partitions :
    (self : SplitIntRange)
    → IsSplit self
    → (outs : List IntRange) × (iter self ≡ some outs)
      × Partitions self.range.start (suc self.range.end) outs
iter-Partitions self h = let (outs, k) = iter-AreSplit self h in (outs, k.made, k.partitions)

-- After a split of a range with sorted borders inside it, on any ranges, whether or not their bounds
-- are in order, `iter` gives ranges for which `is_covered_by` never fails its `assert!` against a seen
-- range: it answers whether the range given is a subrange of the seen one.
pub split-is_covered_by :
    (self : SplitIntRange) (ranges : List IntRange)
    → IsSplit self
    → (outs : List IntRange) × (iter (split self ranges) ≡ some outs)
      × All (λ o. All (λ r. is_covered_by o r ≡ some (is_subrange o r)) ranges) outs
split-is_covered_by self ranges h =
    let (outs, k) = iter-AreSplit (split self ranges) (split-IsSplit self ranges h) in
    (
      outs,
      k.made,
      outs_covered self ranges outs h.range_valid (outs-Within self ranges outs k.partitions)
          k.clear,
    )
