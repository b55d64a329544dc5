-- ===== src/Exhaustiveness/Range.antt =====
-- compiler/hash-exhaustiveness/src/range.rs: integer ranges, and their splitting into ranges that no
-- seen range straddles. A bound is a `u128`.
pub mod Sort
pub mod Partition
pub mod Split
pub mod Cover
pub mod Tests
use hashc.Prelude.{
  ℕ, ◌+◌, ◌-◌, ◌^◌, ◌<◌, ◌≤◌, ◌≡◌, Bool, true, false, not, ◌&&◌, ◌||◌, Option, none, some, List, [],
  ◌∷◌, ◌++◌, min, max, ltb, leb, ◌==◌, if◌then◌else◌,
}

pub record IntRange : Type 0 where
  pub start : ℕ
  pub end : ℕ

abbrev pub u128_max : ℕ
u128_max = 2 ^ 128 - 1

-- What the checker builds: the bounds are in order and fit a `u128`.
pub record IsRange (r : IntRange) : Type 0 where
  pub ordered : r.start ≤ r.end
  pub fits : r.end ≤ u128_max

abbrev pub boundaries : IntRange → ℕ × ℕ
boundaries r = (r.start, r.end)

unfoldable pub is_subrange : IntRange → IntRange → Bool
is_subrange self other = leb other.start self.start && leb self.end other.end

unfoldable pub intersection : IntRange → IntRange → Option IntRange
intersection self other =
    let (lo, hi) = boundaries self in
    let (other_lo, other_hi) = boundaries other in
    if leb lo other_hi && leb other_lo hi
    then some (record { start = max lo other_lo; end = min hi other_hi })
    else none

unfoldable pub is_singleton : IntRange → Bool
is_singleton self = self.start == self.end

abbrev pub is_some {ℓ} : {A : Type ℓ} → Option A → Bool
is_some none = false
is_some (some a) = true

-- `none` is the failed `assert!`.
unfoldable pub is_covered_by : IntRange → IntRange → Option Bool
unfolding intersection is_subrange
is_covered_by self other =
    if is_some (intersection self other)
    then (if is_subrange self other then some true else none)
    else some false

unfoldable pub suspicious_intersection : IntRange → IntRange → Bool
unfolding is_singleton
suspicious_intersection self other =
    let (lo, hi) = boundaries self in
    let (other_lo, other_hi) = boundaries other in
    (lo == other_hi || hi == other_lo) && (not (is_singleton self) && not (is_singleton other))

pub data IntBorder : Type 0 where
  just_before : ℕ → IntBorder
  after_max : IntBorder

-- The derived order on borders.
unfoldable pub border_le : IntBorder → IntBorder → Bool
border_le (just_before n) (just_before m) = leb n m
border_le (just_before n) after_max = true
border_le after_max (just_before m) = false
border_le after_max after_max = true

unfoldable pub border_eq : IntBorder → IntBorder → Bool
border_eq (just_before n) (just_before m) = n == m
border_eq after_max after_max = true
border_eq _ _ = false

pub record SplitIntRange : Type 0 where
  pub range : IntRange
  pub borders : List IntBorder

unfoldable pub new : IntRange → SplitIntRange
new range = record { range = range; borders = [] }

-- `hi.checked_add(1)` fails at `u128::MAX` alone.
pub end_border : ℕ → IntBorder
end_border hi = if ltb hi u128_max then just_before (hi + 1) else after_max

unfoldable pub to_borders : IntRange → IntBorder × IntBorder
to_borders r = let (lo, hi) = boundaries r in (just_before lo, end_border hi)

-- `sort_unstable`: equal borders cannot be told apart, so any sort gives the same list.
pub insert_border : IntBorder → List IntBorder → List IntBorder
insert_border b [] = b ∷ []
insert_border b (c ∷ cs) = if border_le b c then b ∷ c ∷ cs else c ∷ insert_border b cs

unfoldable pub sort_borders : List IntBorder → List IntBorder
unfolding insert_border border_le
sort_borders [] = []
sort_borders (b ∷ bs) = insert_border b (sort_borders bs)

-- `ranges.filter_map(|r| this_range.intersection(&r)).flat_map(to_borders)`
abbrev push_borders : Option IntRange → List IntBorder → List IntBorder
push_borders none bs = bs
push_borders (some r) bs = let (lo, hi) = to_borders r in lo ∷ hi ∷ bs

unfoldable pub included_borders : IntRange → List IntRange → List IntBorder
unfolding intersection to_borders
included_borders this [] = []
included_borders this (r ∷ rs) = push_borders (intersection this r) (included_borders this rs)

unfoldable pub split : SplitIntRange → List IntRange → SplitIntRange
unfolding included_borders sort_borders
split self ranges = record self {
  borders = sort_borders (self.borders ++ included_borders self.range ranges);
}

-- The pairs of adjacent borders, from the border before the first.
unfoldable pub adjacent : IntBorder → List IntBorder → List (IntBorder × IntBorder)
adjacent prev_border [] = []
adjacent prev_border (border ∷ rest) = (prev_border, border) ∷ adjacent border rest

unfoldable pub skip_duplicates : List (IntBorder × IntBorder) → List (IntBorder × IntBorder)
unfolding border_eq
skip_duplicates [] = []
skip_duplicates ((prev_border, border) ∷ rest) =
    if border_eq prev_border border
    then skip_duplicates rest
    else (prev_border, border) ∷ skip_duplicates rest

-- `none` is the `unreachable!()`.
unfoldable pub border_range : IntBorder → IntBorder → Option IntRange
border_range (just_before n) (just_before m) =
    if ltb n m then some (record { start = n; end = m - 1 }) else none
border_range (just_before n) after_max = some (record { start = n; end = u128_max })
border_range after_max _ = none

abbrev cons_range : Option IntRange → Option (List IntRange) → Option (List IntRange)
cons_range (some r) (some rs) = some (r ∷ rs)
cons_range _ _ = none

unfoldable pub border_ranges : List (IntBorder × IntBorder) → Option (List IntRange)
unfolding border_range
border_ranges [] = some []
border_ranges ((prev_border, border) ∷ rest) =
    cons_range (border_range prev_border border) (border_ranges rest)

unfoldable pub iter : SplitIntRange → Option (List IntRange)
unfolding to_borders adjacent skip_duplicates border_ranges
iter self =
    let (lo, hi) = to_borders self.range in
    border_ranges (skip_duplicates (adjacent lo (self.borders ++ hi ∷ [])))
