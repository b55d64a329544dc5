-- ===== src/Utils/RangeMap/Tests.antt =====
-- compiler/hash-utils/src/range_map.rs: the runs of its tests.
use hashc.Prelude.{ℕ, ◌≡◌, refl, [], ◌∷◌, none, some, ◌⊎◌, arith}
use hashc.Utils.RangeMap.{
  Range, RangeMap, search, index, find, insert, append, contains, partial_cmp, populated,
  insert_by_start, sorted_by_start,
}
use hashc.Utils.RangeMap.Sorted.{IsRangeMap, lookup, Inserted, Refused, insert-outcome}
use hashc.Utils.RangeMap.Search.{find-lookup}
use hashc.Utils.RangeMap.Build.{IsOrdered, AreDisjoint}
use hashc.Utils.RangeMap.Populate.{
  IsFound, insert-append, populated-IsRangeMap, populated-AreDisjoint,
}
use hashc.Prelude.Bytes.{All}
use hashc.Prelude.{inr, ◌++◌}

abbrev range_of : ℕ → ℕ → Range
range_of start end = record { start = start; end = end }

abbrev letters : RangeMap ℕ
letters = (range_of 0 10, 97) ∷ (range_of 15 20, 99) ∷ (range_of 21 30, 100) ∷ []

letters-IsRangeMap : IsRangeMap letters
letters-IsRangeMap = (
  omega arith,
  (omega arith, (omega arith, tt)),
  (omega arith, (omega arith, tt), (omega arith, tt, tt)),
)

find_run : find letters 16 ≡ some 99
unfolding find search partial_cmp index
find_run = refl

populated_run : populated {V = ℕ} ((range_of 0 10, 97) ∷ (range_of 10 14, 98) ∷ []) ≡ none
unfolding populated insert_by_start
populated_run = refl

insert_run : insert letters (range_of 10 14) 98 ≡ none
unfolding insert contains
insert_run = refl

insert-outcome_example :
    ((ys : RangeMap ℕ) × Inserted letters (range_of 11 14) 98 ys)
    ⊎ Refused letters (range_of 11 14) 98
insert-outcome_example = insert-outcome letters (range_of 11 14) 98 letters-IsRangeMap (omega arith)

find-lookup_example : find letters 16 ≡ lookup letters 16
find-lookup_example = find-lookup letters 16 letters-IsRangeMap

abbrev unsorted : RangeMap ℕ
unsorted = (range_of 15 20, 99) ∷ (range_of 0 10, 97) ∷ []

unsorted-IsOrdered : All IsOrdered unsorted
unsorted-IsOrdered = (omega arith, (omega arith, tt))

unsorted-AreDisjoint : AreDisjoint unsorted
unsorted-AreDisjoint = ((inr (omega arith), tt), (tt, tt))

populated-IsRangeMap_example :
    IsRangeMap (sorted_by_start unsorted) × All (IsFound (sorted_by_start unsorted)) unsorted
populated-IsRangeMap_example =
    populated-IsRangeMap unsorted (sorted_by_start unsorted) unsorted-IsOrdered
      (populated-AreDisjoint unsorted unsorted-IsOrdered unsorted-AreDisjoint)

populated-AreDisjoint_example : populated unsorted ≡ some (sorted_by_start unsorted)
populated-AreDisjoint_example =
    populated-AreDisjoint unsorted unsorted-IsOrdered unsorted-AreDisjoint

append_run : append letters (range_of 40 50) 101 ≡ some (letters ++ (range_of 40 50, 101) ∷ [])
unfolding append
append_run = refl

insert-append_example :
    insert letters (range_of 40 50) 101 ≡ some (letters ++ (range_of 40 50, 101) ∷ [])
insert-append_example =
    insert-append letters (letters ++ (range_of 40 50, 101) ∷ []) (range_of 40 50) 101
      letters-IsRangeMap (omega arith) append_run
