-- ===== src/Repr/Univariant/Inverse.antt =====
-- compiler/hash-repr: the memory map of a layout inverts the order of its fields.
use native.Mathlib.Nat.{zero-add}
use hashc.Prelude.{
  ℕ, zero, suc, ◌+◌, ◌%◌, ◌^◌, ◌≤◌, ◌<◌, ◌≡◌, ◌≢◌, refl, sym, ap, ap₂, subst, ◌∙◌, Bool, true,
  Bool-cases, ◌⊎◌, inl, inr, Option, some, some_injective, none-some, List, [], ◌∷◌, ◌==◌, length,
  get_elem?, set, replicate, length-set, length-replicate, get_elem?-set_self, get_elem?-set_ne,
  arith,
}
use hashc.Target.Size.{Size}
use hashc.Target.Alignment.{Alignment}
use hashc.Repr.Layout.{Layout, invert_from, range_from}
use hashc.Repr.Placement.{
  AdtRepresentation, insert_index, sort_by_key, field_order, is_tagged, invert_memory_mapping,
}
use hashc.Repr.Placement.Order.{occurrences, EachOnce, field_order-EachOnce}
use hashc.Repr.Univariant.{memory_map_of}

occurrences-get_elem? : (is : List ℕ) (k i : ℕ) → get_elem? is k ≡ some i → 0 < occurrences i is
occurrences-get_elem? [] k i e = absurd (none-some e)
occurrences-get_elem? (j ∷ is) zero i e = ground (arith, some_injective e)
occurrences-get_elem? (j ∷ is) (suc k) i e = ground (arith, occurrences-get_elem? is k i e)

pub find : (is : List ℕ) (i : ℕ) → 0 < occurrences i is → (k : ℕ) × (get_elem? is k ≡ some i)
find [] i h = elim h [ ]
find (j ∷ is) i h = elim (Bool-cases (i == j)) [
  | inl e ↦ (zero, ap some (ground arith))
  | inr e ↦ let (k, f) = find is i (ground arith) in (suc k, f)
]

-- The places of a list with no number twice.
abbrev IsInjective : List ℕ → Type 0
IsInjective is = (i k k' : ℕ) → get_elem? is k ≡ some i → get_elem? is k' ≡ some i → k ≡ k'

occurrences-IsInjective : (is : List ℕ) → ((i : ℕ) → occurrences i is ≤ 1) → IsInjective is
occurrences-IsInjective [] h i k k' e f = absurd (none-some e)
occurrences-IsInjective (j ∷ is) h i zero zero e f = refl
occurrences-IsInjective (j ∷ is) h i zero (suc k') e f =
    absurd (ground (arith, h i, some_injective e, occurrences-get_elem? is k' i f))
occurrences-IsInjective (j ∷ is) h i (suc k) zero e f =
    absurd (ground (arith, h i, some_injective f, occurrences-get_elem? is k i e))
occurrences-IsInjective (j ∷ is) h i (suc k) (suc k') e f =
    ap suc (occurrences-IsInjective is (λ n. ground (arith, h n)) i k k' e f)

length-invert_from :
    (start : ℕ) (is result : List ℕ) → length (invert_from start is result) ≡ length result
unfolding invert_from
length-invert_from start [] result = refl
length-invert_from start (i ∷ is) result =
    length-invert_from (suc start) is (set result i start) ∙ length-set result i start

invert_from_kept :
    (start : ℕ) (is result : List ℕ) (i : ℕ)
    → ((k : ℕ) → get_elem? is k ≢ some i)
    → get_elem? (invert_from start is result) i ≡ get_elem? result i
unfolding invert_from
invert_from_kept start [] result i h = refl
invert_from_kept start (j ∷ is) result i h =
    invert_from_kept (suc start) is (set result j start) i (λ k. h (suc k))
    ∙ get_elem?-set_ne result start (λ e. h zero (ap some e))

get_elem?-invert_from :
    (start : ℕ) (is result : List ℕ) (i k : ℕ)
    → get_elem? is k ≡ some i
    → ((k' : ℕ) → get_elem? is k' ≡ some i → k ≡ k')
    → i < length result
    → get_elem? (invert_from start is result) i ≡ some (start + k)
unfolding invert_from
get_elem?-invert_from start [] result i k e h lt = absurd (none-some e)
get_elem?-invert_from start (j ∷ is) result i zero e h lt =
    let same : j ≡ i = some_injective e in
    invert_from_kept (suc start) is (set result j start) i
      (λ k' f. absurd (omega (arith, h (suc k') f)))
    ∙ ap (λ n. get_elem? (set result n start) i) same
    ∙ get_elem?-set_self result i start lt
    ∙ ap some {y = start + 0} (omega arith)
get_elem?-invert_from start (j ∷ is) result i (suc k) e h lt =
    get_elem?-invert_from (suc start) is (set result j start) i k e
      (λ k' f. omega (arith, h (suc k') f)) (omega (arith, lt, length-set result j start))
    ∙ ap some (omega arith)

-- The second list has the place of each number of the first.
abbrev pub Inverts : List ℕ → List ℕ → Type 0
Inverts is inverse = (i k : ℕ) → get_elem? is k ≡ some i → get_elem? inverse i ≡ some k

pub get_elem?_lt {ℓ} :
    {A : Type ℓ} (xs : List A) (k : ℕ) {x : A} → get_elem? xs k ≡ some x → k < length xs
get_elem?_lt [] k e = absurd (none-some e)
get_elem?_lt (y ∷ xs) zero e = omega arith
get_elem?_lt (y ∷ xs) (suc k) e = omega (arith, get_elem?_lt xs k e)

list_ext :
    (xs ys : List ℕ)
    → length xs ≡ length ys
    → ((k y : ℕ) → get_elem? ys k ≡ some y → get_elem? xs k ≡ some y)
    → xs ≡ ys
list_ext [] [] h e = refl
list_ext [] (y ∷ ys) h e = absurd (omega (arith, h))
list_ext (x ∷ xs) [] h e = absurd (omega (arith, h))
list_ext (x ∷ xs) (y ∷ ys) h e =
    ap₂ (λ a b. a ∷ b) (some_injective (e zero y refl))
      (list_ext xs ys (omega (arith, h)) (λ k. e (suc k)))

module _ (n : ℕ) (order : List ℕ) (once : EachOnce n order) where
  EachOnce-IsInjective : IsInjective order
  EachOnce-IsInjective = occurrences-IsInjective order (λ i. ground (arith, once i))

  EachOnce-lt : (i k : ℕ) → get_elem? order k ≡ some i → i < n
  EachOnce-lt i k e = ground (arith, once i, occurrences-get_elem? order k i e)

  pub invert_memory_mapping-Inverts : length order ≡ n → Inverts order (invert_memory_mapping order)
  unfolding invert_memory_mapping
  invert_memory_mapping-Inverts same i k e =
      get_elem?-invert_from 0 order (replicate (length order) 0) i k e
        (λ k' f. EachOnce-IsInjective i k k' e f)
        (omega (arith, same, length-replicate {A = ℕ} (length order) 0, EachOnce-lt i k e))
      ∙ ap some (zero-add k)

  -- Inverting an inverse gives the list back.
  pub invert_from-Inverts :
      (inverse : List ℕ)
      → Inverts order inverse
      → length order ≡ n
      → length inverse ≡ n
      → invert_from 0 inverse (replicate n 0) ≡ order
  invert_from-Inverts inverse h same size =
      list_ext (invert_from 0 inverse (replicate n 0)) order
        (length-invert_from 0 inverse (replicate n 0) ∙ length-replicate n 0 ∙ sym same)
        (λ k y e.
          get_elem?-invert_from 0 inverse (replicate n 0) k y (h y k e)
            (λ i' f.
              let (k', g) =
                find order i' (ground (arith, once i', get_elem?_lt inverse i' f, size)) in
              let same_place : k' ≡ k = some_injective (sym (h i' k' g) ∙ f) in
              some_injective (sym e ∙ sym (ap (λ t. get_elem? order t) same_place) ∙ g))
            (omega (arith, length-replicate {A = ℕ} n 0, same, get_elem?_lt order k e))
          ∙ ap some (zero-add y))

length-insert_index :
    (tagged : Bool) (fields : List Layout) (i : ℕ) (js : List ℕ)
    → length (insert_index tagged fields i js) ≡ suc (length js)
unfolding insert_index
length-insert_index tagged fields i [] = refl
length-insert_index tagged fields i (j ∷ js) =
    ground (arith, length-insert_index tagged fields i js)

length-sort_by_key :
    (tagged : Bool) (fields : List Layout) (is : List ℕ)
    → length (sort_by_key tagged fields is) ≡ length is
unfolding sort_by_key
length-sort_by_key tagged fields [] = refl
length-sort_by_key tagged fields (i ∷ is) =
    length-insert_index tagged fields i (sort_by_key tagged fields is)
    ∙ ap suc (length-sort_by_key tagged fields is)

length-range_from : (start n : ℕ) → length (range_from start n) ≡ n
length-range_from start zero = refl
length-range_from start (suc n) = ap suc (length-range_from (suc start) n)

range_from-get_elem? : (start n k i : ℕ) → get_elem? (range_from start n) k ≡ some i → i ≡ start + k
range_from-get_elem? start zero k i e = absurd (none-some e)
range_from-get_elem? start (suc n) zero i e = omega (arith, some_injective e)
range_from-get_elem? start (suc n) (suc k) i e =
    omega (arith, range_from-get_elem? (suc start) n k i e)

range_from-Inverts : (n : ℕ) → Inverts (range_from 0 n) (range_from 0 n)
range_from-Inverts n i k e =
    let same : i ≡ k = omega (arith, range_from-get_elem? 0 n k i e) in
    ap (λ t. get_elem? (range_from 0 n) t) same
    ∙ subst (λ t. get_elem? (range_from 0 n) k ≡ some t) same e

memory_map_of-cases :
    (representation : AdtRepresentation) (order : List ℕ)
    → ((representation.c_like ≡ true) × (memory_map_of representation order ≡ order))
      ⊎ (memory_map_of representation order ≡ invert_memory_mapping order)
unfolding memory_map_of
memory_map_of-cases representation order = elim (Bool-cases representation.c_like) [
  | inl e ↦ inl (e, rw e)
  | inr e ↦ inr (rw e)
]

source_order-Inverts :
    (tag : Option (Size × Alignment)) (fields : List Layout) (representation : AdtRepresentation)
    → representation.c_like ≡ true
    → Inverts (field_order tag fields representation) (field_order tag fields representation)
unfolding field_order
source_order-Inverts tag fields representation f =
    rw f (range_from-Inverts (length fields % 2 ^ 32))

module _ (tag : Option (Size × Alignment)) (fields : List Layout)
    (representation : AdtRepresentation) (small : length fields < 2 ^ 32) where
  pub length-field_order : length (field_order tag fields representation) ≡ length fields
  unfolding field_order
  length-field_order =
      let all : length fields % 2 ^ 32 ≡ length fields = omega (arith, small) in
      elim (Bool-cases representation.c_like) [
        | inl e ↦ rw (e, all) (length-range_from 0 (length fields))
        | inr e ↦
            rw (e, all)
              (length-sort_by_key (is_tagged tag) fields (range_from 0 (length fields))
                ∙ length-range_from 0 (length fields))
      ]

  pub length-memory_map_of :
      length (memory_map_of representation (field_order tag fields representation)) ≡ length fields
  unfolding invert_memory_mapping
  length-memory_map_of =
      let order = field_order tag fields representation in
      elim (memory_map_of-cases representation order) [
        | inl (f, e) ↦ ap length e ∙ length-field_order
        | inr e ↦
            ap length e
            ∙ length-invert_from 0 order (replicate (length order) 0)
            ∙ length-replicate {A = ℕ} (length order) 0
            ∙ length-field_order
      ]

  pub memory_map_of-Inverts :
      Inverts
        (field_order tag fields representation)
        (memory_map_of representation (field_order tag fields representation))
  memory_map_of-Inverts i k g =
      let order = field_order tag fields representation in
      elim (memory_map_of-cases representation order) [
        | inl (f, e) ↦
            ap (λ m. get_elem? m i) e ∙ source_order-Inverts tag fields representation f i k g
        | inr e ↦
            ap (λ m. get_elem? m i) e
            ∙ invert_memory_mapping-Inverts (length fields) order
                (field_order-EachOnce tag fields representation small) length-field_order i k g
      ]
