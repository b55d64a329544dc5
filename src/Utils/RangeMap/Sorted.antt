-- ===== src/Utils/RangeMap/Sorted.antt =====
-- compiler/hash-utils/src/range_map.rs: the order of the entries, and what insertion does to it.
use hashc.Prelude.{
  ℕ, ◌≤◌, ◌<◌, ◌≡◌, refl, Bool, true, false, Bool-cases, Option, none, some, [], ◌∷◌, ◌⊎◌, inl, inr,
  if◌then◌else◌, max, lt→ltb, arith,
}
use hashc.Prelude.Bytes.{All}
use hashc.Utils.RangeMap.{Range, RangeMap, contains, overlaps, insert}

share_key :
    (a b : Range)
    → a.start ≤ a.end
    → b.start ≤ b.end
    → overlaps a b ≡ true
    → (contains a (max a.start b.start) ≡ true) × (contains b (max a.start b.start) ≡ true)
unfolding overlaps contains
share_key a b h k e = (ground arith, ground arith)

apart :
    (a b : Range)
    → a.start ≤ a.end
    → b.start ≤ b.end
    → overlaps a b ≡ false
    → (a.end < b.start) ⊎ (b.end < a.start)
unfolding overlaps contains
apart a b h k e = ground arith

pub contains-apart : (a : Range) (k : ℕ) → (k < a.start) ⊎ (a.end < k) → contains a k ≡ false
unfolding contains
contains-apart a k h = ground arith

pub contains-bounds : (a : Range) (k : ℕ) → contains a k ≡ true → (a.start ≤ k) × (k ≤ a.end)
unfolding contains
contains-bounds a k h = ground arith

module _ {ℓ} {V : Type ℓ} where
  abbrev pub Above : ℕ → RangeMap V → Type 0
  Above n xs = All (λ x. n < x.0.start) xs

  -- Each range is in order and ends before the next one starts.
  abbrev pub IsRangeMap : RangeMap V → Type 0
  IsRangeMap [] = Unit
  IsRangeMap (x ∷ xs) = (x.0.start ≤ x.0.end) × Above x.0.end xs × IsRangeMap xs

  abbrev pub is_some : Option V → Bool
  is_some none = false
  is_some (some a) = true

  -- What a map means: the value of the entry that holds the key.
  unfoldable pub lookup : RangeMap V → ℕ → Option V
  lookup [] k = none
  lookup (x ∷ xs) k = if contains x.0 k then some x.1 else lookup xs k

  pub Above-weaken : (m n : ℕ) (xs : RangeMap V) → m ≤ n → Above n xs → Above m xs
  Above-weaken m n [] h k = tt
  Above-weaken m n (x ∷ xs) h k = (omega (arith, h, k.0), Above-weaken m n xs h k.1)

  -- A key above every entry's end is found nowhere.
  pub lookup-Above : (xs : RangeMap V) (n k : ℕ) → k ≤ n → Above n xs → lookup xs k ≡ none
  unfolding lookup contains
  lookup-Above [] n k h a = refl
  lookup-Above (x ∷ xs) n k h a =
      let rest = lookup-Above xs n k h a.1 in let low = a.0 in ground arith

  -- No key of the range was in the map, the insertion succeeds, and its result means what it should.
  pub record Inserted (xs : RangeMap V) (key : Range) (v : V) (ys : RangeMap V) : Type ℓ where
    pub made : insert xs key v ≡ some ys
    pub fresh : (k : ℕ) → contains key k ≡ true → lookup xs k ≡ none
    pub valid : IsRangeMap ys
    pub above : (n : ℕ) → n < key.start → Above n xs → Above n ys
    pub meaning : (k : ℕ) → lookup ys k ≡ (if contains key k then some v else lookup xs k)

  -- Some key of the range is in the map already, and the insertion panics.
  pub record Refused (xs : RangeMap V) (key : Range) (v : V) : Type ℓ where
    pub panics : insert xs key v ≡ none
    pub shared : ℕ
    pub in_key : contains key shared ≡ true
    pub found : is_some (lookup xs shared) ≡ true

  Inserted-here :
      (x : Range × V) (xs : RangeMap V) (key : Range) (v : V)
      → IsRangeMap (x ∷ xs)
      → key.start ≤ key.end
      → overlaps x.0 key ≡ false
      → key.end < x.0.start
      → Inserted (x ∷ xs) key v ((key, v) ∷ x ∷ xs)
  unfolding insert lookup
  Inserted-here x xs key v h ordered e lt = record {
    made = rw e (ground arith);
    fresh = λ k c.
        let low : k < x.0.start = omega (arith, lt, contains-bounds key k c) in
        rw (contains-apart x.0 k (inl low))
          (lookup-Above xs x.0.end k (omega (arith, low, h.0)) h.1);
    valid = (ordered, (lt, Above-weaken key.end x.0.end xs (omega (arith, lt, h.0)) h.1), h);
    above = λ n k a. (k, a);
    meaning = λ k. refl;
  }

  Inserted-further :
      (x : Range × V) (xs ys : RangeMap V) (key : Range) (v : V)
      → IsRangeMap (x ∷ xs)
      → overlaps x.0 key ≡ false
      → x.0.end < key.start
      → Inserted xs key v ys
      → Inserted (x ∷ xs) key v (x ∷ ys)
  unfolding insert lookup
  Inserted-further x xs ys key v h e lt r = record {
    made = rw (e, lt→ltb x.0.end key.start lt, r.made) refl;
    fresh = λ k c.
        rw (contains-apart x.0 k (inr (omega (arith, lt, contains-bounds key k c)))) (r.fresh k c);
    valid = (h.0, r.above x.0.end lt h.1, r.valid);
    above = λ n k a. (a.0, r.above n k a.1);
    meaning = λ k. elim (Bool-cases (contains x.0 k)) [
      | inl c ↦ rw (c, contains-apart key k (inl (omega (arith, lt, contains-bounds x.0 k c)))) refl
      | inr c ↦ rw (c, r.meaning k) refl
    ];
  }

  Refused-further :
      (x : Range × V) (xs : RangeMap V) (key : Range) (v : V)
      → overlaps x.0 key ≡ false
      → x.0.end < key.start
      → Refused xs key v
      → Refused (x ∷ xs) key v
  unfolding insert lookup
  Refused-further x xs key v e lt r = record {
    panics = rw (e, lt→ltb x.0.end key.start lt, r.panics) refl;
    shared = r.shared;
    in_key = r.in_key;
    found =
        rw
          (contains-apart x.0 r.shared
            (inr (omega (arith, lt, contains-bounds key r.shared r.in_key))))
          r.found;
  }

  Refused-here :
      (x : Range × V) (xs : RangeMap V) (key : Range) (v : V)
      → x.0.start ≤ x.0.end
      → key.start ≤ key.end
      → overlaps x.0 key ≡ true
      → Refused (x ∷ xs) key v
  unfolding insert lookup
  Refused-here x xs key v h k e =
      let (c, d) = share_key x.0 key h k e in
      record { panics = rw e refl; shared = max x.0.start key.start; in_key = d; found = rw c refl }

  -- Into a map whose ranges are in order and apart, a range in order is inserted or refused. It is
  -- refused with a panic exactly where one of its keys is in the map. Where none is, the result is
  -- such a map again, in which the range's keys have the new value and all other keys what they had.
  pub insert-outcome :
      (xs : RangeMap V) (key : Range) (v : V)
      → IsRangeMap xs
      → key.start ≤ key.end
      → ((ys : RangeMap V) × Inserted xs key v ys) ⊎ Refused xs key v
  unfolding insert lookup
  insert-outcome [] key v h k = inl (
    (key, v) ∷ [],
    record {
      made = refl;
      fresh = λ j c. refl;
      valid = (k, tt, tt);
      above = λ n l a. (l, tt);
      meaning = λ j. refl;
    },
  )
  insert-outcome (x ∷ xs) key v h k = elim (Bool-cases (overlaps x.0 key)) [
    | inl e ↦ inr (Refused-here x xs key v h.0 k e)
    | inr e ↦ elim (apart x.0 key h.0 k e) [
      | inr lt ↦ inl ((key, v) ∷ x ∷ xs, Inserted-here x xs key v h k e lt)
      | inl lt ↦ elim (insert-outcome xs key v h.2 k) [
        | inl (ys, r) ↦ inl (x ∷ ys, Inserted-further x xs ys key v h e lt r)
        | inr r ↦ inr (Refused-further x xs key v e lt r)
      ]
    ]
  ]
