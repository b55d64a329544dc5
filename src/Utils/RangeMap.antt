-- ===== src/Utils/RangeMap.antt =====
-- compiler/hash-utils/src/range_map.rs: a map from ranges of keys to values, kept as a vector that is
-- searched by halving. Keys are unsigned. `none` is a panic where the function returns no `Option`.
pub mod Sorted
pub mod Search
pub mod Build
pub mod Populate
pub mod Tests
use hashc.Prelude.{
  ℕ, zero, suc, ◌+◌, ◌-◌, ◌/◌, ◌≤◌, ◌<◌, ◌≡◌, Bool, true, false, ◌&&◌, ◌||◌, Option, none, some,
  List, [], ◌∷◌, ◌++◌, length, get_elem?, ltb, leb, ◌==◌, if◌then◌else◌, map,
}

pub record Range : Type 0 where
  pub start : ℕ
  pub end : ℕ

unfoldable pub contains : Range → ℕ → Bool
contains self item = leb self.start item && leb item self.end

pub data Ordering : Type 0 where
  less equal greater : Ordering

unfoldable pub partial_cmp : Range → ℕ → Ordering
partial_cmp self x = if ltb self.end x then less else if ltb x self.start then greater else equal

-- The one field of the map is its store.
abbrev pub RangeMap {ℓ} : Type ℓ → Type ℓ
RangeMap V = List (Range × V)

unfoldable pub overlaps : Range → Range → Bool
unfolding contains
overlaps left right =
    if leb right.start left.start && leb left.end right.end
    then true
    else contains left right.start || contains left right.end

module _ {ℓ} {V : Type ℓ} where
  abbrev pub new : RangeMap V
  new = []

  -- The loop over the windows of two.
  unfoldable pub verify : RangeMap V → Bool
  verify [] = true
  verify (left ∷ []) = true
  verify (left ∷ right ∷ rest) =
      if leb right.0.start left.0.end then false else verify (right ∷ rest)

  -- `sorted_by_key` on the start, which keeps the order of equal keys.
  pub insert_by_start : Range × V → RangeMap V → RangeMap V
  insert_by_start item [] = item ∷ []
  insert_by_start item (x ∷ xs) =
      if leb item.0.start x.0.start then item ∷ x ∷ xs else x ∷ insert_by_start item xs

  unfoldable pub sorted_by_start : RangeMap V → RangeMap V
  unfolding insert_by_start
  sorted_by_start [] = []
  sorted_by_start (x ∷ xs) = insert_by_start x (sorted_by_start xs)

  unfoldable pub populated : RangeMap V → Option (RangeMap V)
  unfolding verify sorted_by_start
  populated items = let map = sorted_by_start items in if verify map then some map else none

  abbrev pub entry_count : RangeMap V → ℕ
  entry_count self = length self

  abbrev cons : Range × V → Option (RangeMap V) → Option (RangeMap V)
  cons item none = none
  cons item (some rest) = some (item ∷ rest)

  unfoldable pub insert : RangeMap V → Range → V → Option (RangeMap V)
  unfolding overlaps
  insert [] key value = some ((key, value) ∷ [])
  insert (item ∷ rest) key value =
      let further = cons item (insert rest key value) in
      if overlaps item.0 key
      then none
      else if ltb item.0.end key.start
      then further
      else if ltb key.end item.0.start
      then some ((key, value) ∷ item ∷ rest)
      else further

  abbrev last : RangeMap V → Option (Range × V)
  last [] = none
  last (x ∷ []) = some x
  last (x ∷ y ∷ xs) = last (y ∷ xs)

  unfoldable pub append : RangeMap V → Range → V → Option (RangeMap V)
  append self key value = elim (last self) [
    | none ↦ some (self ++ (key, value) ∷ [])
    | some final ↦ if leb key.start final.0.end then none else some (self ++ (key, value) ∷ [])
  ]

  -- `binary_search_by`, between the positions `low` and `high`; the first argument bounds the steps.
  pub search : ℕ → RangeMap V → ℕ → ℕ → ℕ → Option ℕ
  search zero self key low high = none
  search (suc fuel) self key low high =
      let mid = low + (high - low) / 2 in
      elim (ltb low high) [
        | false ↦ none
        | true ↦ elim (get_elem? self mid) [
          | none ↦ none
          | some (r, v) ↦ elim (partial_cmp r key) [
            | less ↦ search fuel self key (suc mid) high
            | greater ↦ search fuel self key low mid
            | equal ↦ some mid
          ]
        ]
      ]

  unfoldable pub index : RangeMap V → ℕ → Option ℕ
  index self key = search (suc (length self)) self key 0 (length self)

  -- `self.store.len() - 1` underflows on the empty map.
  unfoldable pub index_wrapping : RangeMap V → ℕ → Option ℕ
  index_wrapping self key = elim (index self key) [
    | some index ↦ some index
    | none ↦ if length self == 0 then none else some (length self - 1)
  ]

  abbrev value_at : RangeMap V → Option ℕ → Option V
  value_at self none = none
  value_at self (some i) = elim (get_elem? self i) [ some (r, v) ↦ some v | none ↦ none ]

  abbrev key_at : RangeMap V → Option ℕ → Option Range
  key_at self none = none
  key_at self (some i) = elim (get_elem? self i) [ some (r, v) ↦ some r | none ↦ none ]

  unfoldable pub key : RangeMap V → ℕ → Option Range
  key self k = key_at self (index self k)

  unfoldable pub key_wrapping : RangeMap V → ℕ → Option Range
  key_wrapping self k = key_at self (index_wrapping self k)

  unfoldable pub find : RangeMap V → ℕ → Option V
  find self k = value_at self (index self k)
