-- ===== src/Exhaustiveness/Range/Sort.antt =====
-- compiler/hash-exhaustiveness/src/range.rs: the order of borders, and sorting them.
use hashc.Prelude.{ℕ, suc, ◌≤◌, ◌≡◌, refl, true, false, Bool-cases, List, [], ◌∷◌, inl, inr, arith}
use hashc.Prelude.Bytes.{All}
use hashc.Exhaustiveness.Range.{
  IntBorder, just_before, after_max, border_le, border_eq, u128_max, insert_border, sort_borders,
}

-- The first number after the border.
abbrev pub position : IntBorder → ℕ
position (just_before n) = n
position after_max = suc u128_max

-- The number of a border fits a `u128`.
abbrev pub IsBorder : IntBorder → Type 0
IsBorder (just_before n) = n ≤ u128_max
IsBorder after_max = Unit

pub border_le-true : (b c : IntBorder) → border_le b c ≡ true → IsBorder b → position b ≤ position c
unfolding border_le
border_le-true (just_before n) (just_before m) h v = ground arith
border_le-true (just_before n) after_max h v = omega arith
border_le-true after_max (just_before m) h v = absurd (ground arith)
border_le-true after_max after_max h v = omega arith

pub border_le-false :
    (b c : IntBorder) → border_le b c ≡ false → IsBorder c → position c ≤ position b
unfolding border_le
border_le-false (just_before n) (just_before m) h v = ground arith
border_le-false (just_before n) after_max h v = absurd (ground arith)
border_le-false after_max (just_before m) h v = omega arith
border_le-false after_max after_max h v = omega arith

pub border_eq-true : (b c : IntBorder) → border_eq b c ≡ true → position b ≡ position c
unfolding border_eq
border_eq-true (just_before n) (just_before m) h = ground arith
border_eq-true (just_before n) after_max h = absurd (ground arith)
border_eq-true after_max (just_before m) h = absurd (ground arith)
border_eq-true after_max after_max h = refl

-- The borders stand in order, from `b` on.
abbrev pub Ascending : IntBorder → List IntBorder → Type 0
Ascending b [] = Unit
Ascending b (c ∷ cs) = (position b ≤ position c) × Ascending c cs

abbrev pub Sorted : List IntBorder → Type 0
Sorted [] = Unit
Sorted (b ∷ bs) = Ascending b bs

pub Ascending-Sorted :
    (b : IntBorder) (cs : List IntBorder)
    → Sorted cs
    → All (λ c. position b ≤ position c) cs
    → Ascending b cs
Ascending-Sorted b [] h k = tt
Ascending-Sorted b (c ∷ cs) h k = (k.0, h)

insert_border-Ascending :
    (a b : IntBorder) (cs : List IntBorder)
    → IsBorder b
    → All IsBorder cs
    → position a ≤ position b
    → Ascending a cs
    → Ascending a (insert_border b cs)
unfolding insert_border
insert_border-Ascending a b [] v w h k = (h, tt)
insert_border-Ascending a b (c ∷ cs) v w h k = elim (Bool-cases (border_le b c)) [
  | inl e ↦ rw e (h, (border_le-true b c e v, k.1))
  | inr e ↦ rw e (k.0, insert_border-Ascending c b cs v w.1 (border_le-false b c e w.0) k.1)
]

insert_border-Sorted :
    (b : IntBorder) (cs : List IntBorder)
    → IsBorder b
    → All IsBorder cs
    → Sorted cs
    → Sorted (insert_border b cs)
unfolding insert_border
insert_border-Sorted b [] v w h = tt
insert_border-Sorted b (c ∷ cs) v w h = elim (Bool-cases (border_le b c)) [
  | inl e ↦ rw e (border_le-true b c e v, h)
  | inr e ↦ rw e (insert_border-Ascending c b cs v w.1 (border_le-false b c e w.0) h)
]

-- Sorting keeps what holds of every border.
module _ {κ} (P : IntBorder → Type κ) where
  insert_border-All :
      (b : IntBorder) (cs : List IntBorder) → P b → All P cs → All P (insert_border b cs)
  unfolding insert_border
  insert_border-All b [] h k = (h, tt)
  insert_border-All b (c ∷ cs) h k = elim (Bool-cases (border_le b c)) [
    | inl e ↦ rw e (h, k)
    | inr e ↦ rw e (k.0, insert_border-All b cs h k.1)
  ]

  All-insert_border :
      (b : IntBorder) (cs : List IntBorder) → All P (insert_border b cs) → P b × All P cs
  unfolding insert_border
  All-insert_border b [] h = h
  All-insert_border b (c ∷ cs) h = elim (Bool-cases (border_le b c)) [
    | inl e ↦ rw e at h
    | inr e ↦ let k = rw e at h in let ks = All-insert_border b cs k.1 in (ks.0, (k.0, ks.1))
  ]

  pub sort_borders-All : (bs : List IntBorder) → All P bs → All P (sort_borders bs)
  unfolding sort_borders
  sort_borders-All [] h = tt
  sort_borders-All (b ∷ bs) h = insert_border-All b (sort_borders bs) h.0 (sort_borders-All bs h.1)

  pub All-sort_borders : (bs : List IntBorder) → All P (sort_borders bs) → All P bs
  unfolding sort_borders
  All-sort_borders [] h = tt
  All-sort_borders (b ∷ bs) h =
      let k = All-insert_border b (sort_borders bs) h in (k.0, All-sort_borders bs k.1)

pub sort_borders-Sorted : (bs : List IntBorder) → All IsBorder bs → Sorted (sort_borders bs)
unfolding sort_borders
sort_borders-Sorted [] h = tt
sort_borders-Sorted (b ∷ bs) h =
    insert_border-Sorted b (sort_borders bs) h.0 (sort_borders-All IsBorder bs h.1)
      (sort_borders-Sorted bs h.1)
