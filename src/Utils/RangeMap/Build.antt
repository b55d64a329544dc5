-- ===== src/Utils/RangeMap/Build.antt =====
-- compiler/hash-utils/src/range_map.rs: maps built from a vector, by sorting and verifying it.
use hashc.Prelude.{
  ℕ, ◌≤◌, ◌<◌, ◌≡◌, refl, true, Bool-cases, [], ◌∷◌, ◌⊎◌, inl, inr, leb, leb→le, arith,
}
use hashc.Prelude.Bytes.{All}
use hashc.Utils.RangeMap.{Range, RangeMap, verify, insert_by_start, sorted_by_start}
use hashc.Utils.RangeMap.Sorted.{Above-weaken, IsRangeMap}

-- Sorting keeps what holds of every entry.
module _ {ℓ κ} {V : Type ℓ} (P : Range × V → Type κ) where
  insert_by_start-All :
      (x : Range × V) (xs : RangeMap V) → P x → All P xs → All P (insert_by_start x xs)
  unfolding insert_by_start
  insert_by_start-All x [] h k = (h, tt)
  insert_by_start-All x (y ∷ ys) h k = elim (Bool-cases (leb x.0.start y.0.start)) [
    | inl e ↦ rw e (h, k)
    | inr e ↦ rw e (k.0, insert_by_start-All x ys h k.1)
  ]

  All-insert_by_start :
      (x : Range × V) (xs : RangeMap V) → All P (insert_by_start x xs) → P x × All P xs
  unfolding insert_by_start
  All-insert_by_start x [] h = h
  All-insert_by_start x (y ∷ ys) h = elim (Bool-cases (leb x.0.start y.0.start)) [
    | inl e ↦ rw e at h
    | inr e ↦
        let k = rw e at h in let rest = All-insert_by_start x ys k.1 in (rest.0, (k.0, rest.1))
  ]

  pub sorted_by_start-All : (xs : RangeMap V) → All P xs → All P (sorted_by_start xs)
  unfolding sorted_by_start
  sorted_by_start-All [] h = tt
  sorted_by_start-All (x ∷ xs) h =
      insert_by_start-All x (sorted_by_start xs) h.0 (sorted_by_start-All xs h.1)

  pub All-sorted_by_start : (xs : RangeMap V) → All P (sorted_by_start xs) → All P xs
  unfolding sorted_by_start
  All-sorted_by_start [] h = tt
  All-sorted_by_start (x ∷ xs) h =
      let k = All-insert_by_start x (sorted_by_start xs) h in (k.0, All-sorted_by_start xs k.1)

module _ {ℓ} {V : Type ℓ} where
  abbrev pub IsOrdered : Range × V → Type 0
  IsOrdered x = x.0.start ≤ x.0.end

  abbrev pub AreApart : Range × V → Range × V → Type 0
  AreApart x y = (x.0.end < y.0.start) ⊎ (y.0.end < x.0.start)

  -- No two entries share a key.
  abbrev pub AreDisjoint : RangeMap V → Type 0
  AreDisjoint [] = Unit
  AreDisjoint (x ∷ xs) = All (AreApart x) xs × AreDisjoint xs

  abbrev StartsFrom : ℕ → RangeMap V → Type 0
  StartsFrom n xs = All (λ x. n ≤ x.0.start) xs

  abbrev IsSorted : RangeMap V → Type 0
  IsSorted [] = Unit
  IsSorted (x ∷ xs) = StartsFrom x.0.start xs × IsSorted xs

  StartsFrom-weaken : (m n : ℕ) (xs : RangeMap V) → m ≤ n → StartsFrom n xs → StartsFrom m xs
  StartsFrom-weaken m n [] h k = tt
  StartsFrom-weaken m n (x ∷ xs) h k = (omega (arith, h, k.0), StartsFrom-weaken m n xs h k.1)

  insert_by_start-IsSorted :
      (x : Range × V) (xs : RangeMap V) → IsSorted xs → IsSorted (insert_by_start x xs)
  unfolding insert_by_start
  insert_by_start-IsSorted x [] h = (tt, tt)
  insert_by_start-IsSorted x (y ∷ ys) h = elim (Bool-cases (leb x.0.start y.0.start)) [
    | inl e ↦
        let le = leb→le x.0.start y.0.start e in
        rw e ((le, StartsFrom-weaken x.0.start y.0.start ys le h.0), h)
    | inr e ↦
        let le : y.0.start ≤ x.0.start = ground arith in
        rw e (
          insert_by_start-All (λ z. y.0.start ≤ z.0.start) x ys le h.0,
          insert_by_start-IsSorted x ys h.1,
        )
  ]

  insert_by_start-AreDisjoint :
      (x : Range × V) (xs : RangeMap V)
      → All (AreApart x) xs
      → AreDisjoint xs
      → AreDisjoint (insert_by_start x xs)
  unfolding insert_by_start
  insert_by_start-AreDisjoint x [] a h = (tt, tt)
  insert_by_start-AreDisjoint x (y ∷ ys) a h = elim (Bool-cases (leb x.0.start y.0.start)) [
    | inl e ↦ rw e (a, h)
    | inr e ↦ rw e (
      insert_by_start-All (AreApart y) x ys (swap a.0) h.0,
      insert_by_start-AreDisjoint x ys a.1 h.1,
    )
  ]
    where
      swap : {A B : Type 0} → A ⊎ B → B ⊎ A
      swap (inl a) = inr a
      swap (inr b) = inl b

  pub sorted_by_start-IsSorted : (xs : RangeMap V) → IsSorted (sorted_by_start xs)
  unfolding sorted_by_start
  sorted_by_start-IsSorted [] = tt
  sorted_by_start-IsSorted (x ∷ xs) =
      insert_by_start-IsSorted x (sorted_by_start xs) (sorted_by_start-IsSorted xs)

  pub sorted_by_start-AreDisjoint :
      (xs : RangeMap V) → AreDisjoint xs → AreDisjoint (sorted_by_start xs)
  unfolding sorted_by_start
  sorted_by_start-AreDisjoint [] h = tt
  sorted_by_start-AreDisjoint (x ∷ xs) h =
      insert_by_start-AreDisjoint x (sorted_by_start xs) (sorted_by_start-All (AreApart x) xs h.0)
        (sorted_by_start-AreDisjoint xs h.1)

  pub verify-true :
      (xs : RangeMap V) → IsSorted xs → AreDisjoint xs → All IsOrdered xs → verify xs ≡ true
  unfolding verify
  verify-true [] s d o = refl
  verify-true (x ∷ []) s d o = refl
  verify-true (x ∷ y ∷ ys) s d o =
      let rest = verify-true (y ∷ ys) s.1 d.1 o.1 in
      let below = s.0.0 in
      let ordered = o.1.0 in
      elim d.0.0 [ inl lt ↦ ground arith | inr lt ↦ absurd (omega (arith, lt, below, ordered)) ]

  pub verify-IsRangeMap : (xs : RangeMap V) → verify xs ≡ true → All IsOrdered xs → IsRangeMap xs
  unfolding verify
  verify-IsRangeMap [] h o = tt
  verify-IsRangeMap (x ∷ []) h o = (o.0, tt, tt)
  verify-IsRangeMap (x ∷ y ∷ ys) h o = elim (Bool-cases (leb y.0.start x.0.end)) [
    | inl e ↦ absurd (ground (arith, h, e))
    | inr e ↦
        let rest = verify-IsRangeMap (y ∷ ys) (rw e at h) o.1 in
        let lt : x.0.end < y.0.start = ground arith in
        (o.0, (lt, Above-weaken x.0.end y.0.end ys (omega (arith, lt, o.1.0)) rest.1), rest)
  ]
