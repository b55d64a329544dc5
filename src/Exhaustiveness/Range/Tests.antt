-- ===== src/Exhaustiveness/Range/Tests.antt =====
-- compiler/hash-exhaustiveness/src/range.rs: runs of the splitting, and its theorems at them.
use hashc.Prelude.{ℕ, suc, ◌≡◌, refl, some, List, [], ◌∷◌, arith}
use hashc.Exhaustiveness.Range.{
  IntRange, SplitIntRange, new, split, iter, end_border, insert_border,
}
use hashc.Exhaustiveness.Range.Partition.{Partitions}
use hashc.Exhaustiveness.Range.Split.{IsSplit, new-IsSplit, split-IsSplit}
use hashc.Exhaustiveness.Range.Cover.{iter-Partitions}

abbrev range_of : ℕ → ℕ → IntRange
range_of lo hi = record { start = lo; end = hi }

abbrev seen : List IntRange
seen = range_of 10 20 ∷ range_of 15 30 ∷ range_of 200 300 ∷ []

abbrev byte_range : SplitIntRange
byte_range = new (range_of 0 255)

iter_run :
    iter (split byte_range seen)
    ≡ some (
        range_of 0 9
        ∷ range_of 10 14
        ∷ range_of 15 20
        ∷ range_of 21 30
        ∷ range_of 31 199
        ∷ range_of 200 255
        ∷ [])
unfolding iter split new end_border insert_border
iter_run = refl

byte_range-IsSplit : IsSplit byte_range
byte_range-IsSplit =
    new-IsSplit (range_of 0 255) record { ordered = omega arith; fits = omega arith }

split_byte_range-IsSplit : IsSplit (split byte_range seen)
split_byte_range-IsSplit = split-IsSplit byte_range seen byte_range-IsSplit

iter-Partitions_example :
    (outs : List IntRange) × (iter (split byte_range seen) ≡ some outs)
    × Partitions (split byte_range seen).range.start (suc (split byte_range seen).range.end) outs
iter-Partitions_example = iter-Partitions (split byte_range seen) split_byte_range-IsSplit
