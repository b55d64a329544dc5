-- ===== src/Utils/RangeMap/Search.antt =====
-- compiler/hash-utils/src/range_map.rs: the search by halving finds what the entries mean.
use hashc.Prelude.{
  some_injective, none-some, ℕ, zero, suc, ◌+◌, ◌-◌, ◌/◌, ◌≤◌, ◌<◌, ◌≡◌, refl, sym, ap, ◌∙◌, subst,
  true, false, Bool-cases, Option, none, some, List, [], ◌∷◌, length, inl, inr, ltb, ltb→lt,
  get_elem?, arith,
}
use hashc.Utils.RangeMap.{
  Range, RangeMap, less, equal, greater, contains, partial_cmp, search, index, find, value_at,
}
use hashc.Utils.RangeMap.Sorted.{Above, IsRangeMap, lookup, contains-apart, contains-bounds}

-- What the comparison says.
pub data Compared (r : Range) (k : ℕ) : Type 0 where
  is_less : partial_cmp r k ≡ less → r.end < k → Compared r k
  is_greater : partial_cmp r k ≡ greater → k < r.start → Compared r k
  is_equal : partial_cmp r k ≡ equal → contains r k ≡ true → Compared r k

compared : (r : Range) (k : ℕ) → Compared r k
unfolding partial_cmp contains
compared r k = elim (Bool-cases (ltb r.end k)) [
  | inl e ↦ is_less (ground arith) (ground arith)
  | inr e ↦ elim (Bool-cases (ltb k r.start)) [
    | inl f ↦ is_greater (ground arith) (ground arith)
    | inr f ↦ is_equal (ground arith) (ground arith)
  ]
]

get_elem?-some {ℓ} :
    {A : Type ℓ} (xs : List A) (i : ℕ) → i < length xs → (a : A) × (get_elem? xs i ≡ some a)
get_elem?-some [] i h = absurd (omega arith)
get_elem?-some (x ∷ xs) zero h = (x, refl)
get_elem?-some (x ∷ xs) (suc i) h = get_elem?-some xs i (omega arith)

get_elem?-none {ℓ} : {A : Type ℓ} (xs : List A) (i : ℕ) → length xs ≤ i → get_elem? xs i ≡ none
get_elem?-none [] i h = refl
get_elem?-none (x ∷ xs) zero h = absurd (omega arith)
get_elem?-none (x ∷ xs) (suc i) h = get_elem?-none xs i (omega arith)

module _ {ℓ} {V : Type ℓ} where
  Above-get_elem? :
      (n : ℕ) (xs : RangeMap V) (i : ℕ) (a : Range × V)
      → Above n xs
      → get_elem? xs i ≡ some a
      → n < a.0.start
  Above-get_elem? n [] i a h e = absurd (ground arith)
  Above-get_elem? n (x ∷ xs) zero a h e = subst (λ a. n < a.0.start) (some_injective e) h.0
  Above-get_elem? n (x ∷ xs) (suc i) a h e = Above-get_elem? n xs i a h.1 e

  -- The entries before position `low` end below the key, those from `high` on start above it.
  pub record Narrowed (xs : RangeMap V) (k low high : ℕ) : Type ℓ where
    pub before : (i : ℕ) (a : Range × V) → get_elem? xs i ≡ some a → i < low → a.0.end < k
    pub after : (i : ℕ) (a : Range × V) → get_elem? xs i ≡ some a → high ≤ i → k < a.0.start

  ordered_at :
      (xs : RangeMap V) (i j : ℕ) (a b : Range × V)
      → IsRangeMap xs
      → get_elem? xs i ≡ some a
      → get_elem? xs j ≡ some b
      → i < j
      → a.0.end < b.0.start
  ordered_at [] i j a b h e f lt = absurd (ground arith)
  ordered_at (x ∷ xs) zero zero a b h e f lt = absurd (omega arith)
  ordered_at (x ∷ xs) zero (suc j) a b h e f lt =
      subst (λ a. a.0.end < b.0.start) (some_injective e) (Above-get_elem? x.0.end xs j b h.1 f)
  ordered_at (x ∷ xs) (suc i) zero a b h e f lt = absurd (omega arith)
  ordered_at (x ∷ xs) (suc i) (suc j) a b h e f lt = ordered_at xs i j a b h.2 e f (omega arith)

  start_at :
      (xs : RangeMap V) (i : ℕ) (a : Range × V)
      → IsRangeMap xs
      → get_elem? xs i ≡ some a
      → a.0.start ≤ a.0.end
  start_at [] i a h e = absurd (ground arith)
  start_at (x ∷ xs) zero a h e = subst (λ a. a.0.start ≤ a.0.end) (some_injective e) h.0
  start_at (x ∷ xs) (suc i) a h e = start_at xs i a h.2 e

  -- Where the search ends up.
  pub data Searched (xs : RangeMap V) (k : ℕ) (result : Option ℕ) : Type ℓ where
    missing :
        result ≡ none
        → ((i : ℕ) (a : Range × V) → get_elem? xs i ≡ some a → contains a.0 k ≡ false)
        → Searched xs k result
    found :
        (i : ℕ) (a : Range × V)
        → result ≡ some i
        → get_elem? xs i ≡ some a
        → contains a.0 k ≡ true
        → Searched xs k result

  below_lem :
      (xs : RangeMap V) (k mid i : ℕ) (a b : Range × V)
      → IsRangeMap xs
      → get_elem? xs mid ≡ some a
      → a.0.end < k
      → get_elem? xs i ≡ some b
      → i < suc mid
      → b.0.end < k
  below_lem xs k mid i a b h at l e lt = elim (Bool-cases (ltb i mid)) [
    | inl t ↦ omega (arith, ordered_at xs i mid b a h e at (ltb→lt i mid t), start_at xs mid a h at)
    | inr t ↦
        let same : i ≡ mid = ground arith in
        subst (λ b. b.0.end < k) (some_injective (sym at ∙ ap (get_elem? xs) (sym same) ∙ e)) l
  ]

  above_lem :
      (xs : RangeMap V) (k mid i : ℕ) (a b : Range × V)
      → IsRangeMap xs
      → get_elem? xs mid ≡ some a
      → k < a.0.start
      → get_elem? xs i ≡ some b
      → mid ≤ i
      → k < b.0.start
  above_lem xs k mid i a b h at l e le = elim (Bool-cases (ltb mid i)) [
    | inl t ↦ omega (arith, ordered_at xs mid i a b h at e (ltb→lt mid i t), start_at xs mid a h at)
    | inr t ↦
        let same : i ≡ mid = ground arith in
        subst (λ b. k < b.0.start) (some_injective (sym at ∙ ap (get_elem? xs) (sym same) ∙ e)) l
  ]

  nowhere :
      (xs : RangeMap V) (k low high : ℕ)
      → Narrowed xs k low high
      → high ≤ low
      → (i : ℕ) (a : Range × V) → get_elem? xs i ≡ some a
      → contains a.0 k ≡ false
  nowhere xs k low high n le i a at = elim (Bool-cases (ltb i low)) [
    | inl t ↦ contains-apart a.0 k (inr (n.before i a at (ltb→lt i low t)))
    | inr t ↦ let past : high ≤ i = ground arith in contains-apart a.0 k (inl (n.after i a at past))
  ]

  search-Searched :
      (fuel : ℕ) (xs : RangeMap V) (k low high : ℕ)
      → IsRangeMap xs
      → high ≤ length xs
      → high < low + fuel
      → Narrowed xs k low high
      → Searched xs k (search fuel xs k low high)
  unfolding search
  search-Searched zero xs k low high h le enough n =
      missing refl (nowhere xs k low high n (omega arith))
  search-Searched (suc fuel) xs k low high h le enough n = elim (Bool-cases (ltb low high)) [
    | inr e ↦
        let out : high ≤ low = ground arith in
        rw (search, e) (missing refl (nowhere xs k low high n out))
    | inl e ↦
        let lt = ltb→lt low high e in
        let mid = low + (high - low) / 2 in
        let (a, at) = get_elem?-some xs mid (omega arith) in
        elim (compared a.0 k) [
          | is_less c l ↦
              rw (search, e, at, c)
                (search-Searched fuel xs k (suc mid) high h le (omega arith)
                  record { before = λ i b. below_lem xs k mid i a b h at l; after = n.after })
          | is_greater c l ↦
              rw (search, e, at, c)
                (search-Searched fuel xs k low mid h (omega arith) (omega arith)
                  record { before = n.before; after = λ i b. above_lem xs k mid i a b h at l })
          | is_equal c l ↦ rw (search, e, at, c) (found mid a refl at l)
        ]
  ]

  lookup-missing :
      (xs : RangeMap V) (k : ℕ)
      → ((i : ℕ) (a : Range × V) → get_elem? xs i ≡ some a → contains a.0 k ≡ false)
      → lookup xs k ≡ none
  unfolding lookup
  lookup-missing [] k h = refl
  lookup-missing (x ∷ xs) k h = rw (h 0 x refl) (lookup-missing xs k (λ i. h (suc i)))

  lookup-found :
      (xs : RangeMap V) (k i : ℕ) (a : Range × V)
      → IsRangeMap xs
      → get_elem? xs i ≡ some a
      → contains a.0 k ≡ true
      → lookup xs k ≡ some a.1
  unfolding lookup
  lookup-found [] k i a h e c = absurd (ground arith)
  lookup-found (x ∷ xs) k zero a h e c =
      subst (λ a. contains a.0 k ≡ true → lookup (x ∷ xs) k ≡ some a.1) (some_injective e)
        (λ d. rw d refl) c
  lookup-found (x ∷ xs) k (suc i) a h e c =
      let lt = Above-get_elem? x.0.end xs i a h.1 e in
      rw (contains-apart x.0 k (inr (omega (arith, lt, contains-bounds a.0 k c))))
        (lookup-found xs k i a h.2 e c)

  index-Searched : (xs : RangeMap V) (k : ℕ) → IsRangeMap xs → Searched xs k (index xs k)
  unfolding index
  index-Searched xs k h =
      search-Searched (suc (length xs)) xs k 0 (length xs) h (omega arith) (omega arith)
        record { before = λ i a e lt. absurd (omega (arith, lt)); after = past }
    where
      past : (i : ℕ) (a : Range × V) → get_elem? xs i ≡ some a → length xs ≤ i → k < a.0.start
      past i a e le = absurd (none-some (sym (get_elem?-none xs i le) ∙ e))

  -- In a map whose ranges are in order and apart, `find` by halving gives what the entries mean: the
  -- value of the entry that holds the key, and nothing where no entry holds it.
  pub find-lookup : (self : RangeMap V) (k : ℕ) → IsRangeMap self → find self k ≡ lookup self k
  unfolding find
  find-lookup self k h = elim (index-Searched self k h) [
    | missing e out ↦ rw (e, lookup-missing self k out) refl
    | found i a e at c ↦ rw (e, value_at, at, lookup-found self k i a h at c) refl
  ]
