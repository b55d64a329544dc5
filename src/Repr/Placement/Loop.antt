-- ===== src/Repr/Placement/Loop.antt =====
-- compiler/hash-repr/src/compute.rs: the loop that places the fields of a variant one behind the other.
use hashc.Prelude.{
  ℕ, zero, suc, ◌+◌, ◌^◌, ◌≤◌, ◌<◌, ◌≡◌, refl, sym, ap, ◌∙◌, Option, none, some, some_injective,
  subst, List, [], ◌∷◌, max, ltb, if◌then◌else◌, length, get_elem?, length-set, get_elem?-set_self,
  get_elem?-set_ne, arith,
}
use hashc.Prelude.Bytes.{All}
use hashc.Target.Size.{Size}
use hashc.Target.Alignment.{Alignment, Alignments, max_alignments}
use hashc.Target.Alignment as Alignment
use hashc.Target.Align.Fits.{IsAligned}
use hashc.Target.DataLayout.{TargetDataLayout, obj_size_bound}
use hashc.Repr.Layout.{FieldLayout, Layout}
use hashc.Repr.Placement.{Placed, place_field, place_fields}
use hashc.Repr.Placement.Order.{occurrences}
use hashc.Repr.Placement.Outcome.{
  Outcome, fits, Outcome-bind, Outcome-map, IsNext, place_field-Outcome,
}

-- The field `i` lies at the first place at or after `from` that its alignment allows, and ends at `to`.
pub record IsField (fields : List Layout) (offsets : List FieldLayout) (i : ℕ) (from to : Size)
    : Type 0 where
  pub layout : Layout
  pub is_layout : get_elem? fields i ≡ some layout
  pub field : FieldLayout
  pub is_field : get_elem? offsets i ≡ some field
  pub size : field.size ≡ layout.size
  pub aligned : IsAligned from layout.alignment.abi field.offset
  pub end : to.value ≡ field.offset.value + layout.size.value

-- The fields of the list lie one behind the other between the two places.
abbrev pub InMemory : List Layout → List FieldLayout → Size → List ℕ → Size → Type 0
InMemory fields offsets from [] to = from ≡ to
InMemory fields offsets from (i ∷ is) to =
    (mid : Size) × IsField fields offsets i from mid × InMemory fields offsets mid is to

-- The alignment of every field of the list is at most the given one.
abbrev pub AlignedWithin : List Layout → Alignment → List ℕ → Type 0
AlignedWithin fields alignment [] = Unit
AlignedWithin fields alignment (i ∷ is) =
    ((layout : Layout)
      → get_elem? fields i ≡ some layout
      → layout.alignment.abi.value ≤ alignment.value)
    × AlignedWithin fields alignment is

-- What the fields take at most, with the padding before them.
abbrev pub room_of : Option Layout → ℕ
room_of none = 0
room_of (some layout) = Alignment.bytes layout.alignment.abi + layout.size.value

abbrev pub room : List Layout → List ℕ → ℕ
room fields [] = 0
room fields (i ∷ is) = room_of (get_elem? fields i) + room fields is

abbrev pub HasAlignment : Layout → Type 0
HasAlignment layout = layout.alignment.abi.value ≤ 32

pub record IsPlaced (fields : List Layout) (order : List ℕ) (self result : Placed) : Type 0 where
  pub in_memory : InMemory fields result.offsets self.offset order result.offset
  pub kept :
      (k : ℕ) → occurrences k order ≡ 0 → get_elem? result.offsets k ≡ get_elem? self.offsets k
  pub same_length : length result.offsets ≡ length self.offsets
  pub grows : self.alignment.abi.value ≤ result.alignment.abi.value
  pub bounded : result.alignment.abi.value ≤ 32
  pub largest : AlignedWithin fields result.alignment.abi order
  pub small : result.offset.value < 2 ^ 62

-- The rest of the indices: each is of a field, and at most once.
abbrev pub AtMostOnce : ℕ → List ℕ → Type 0
AtMostOnce n order = (k : ℕ) → occurrences k order ≤ (if ltb k n then 1 else 0)

AtMostOnce-tail : (n i : ℕ) (is : List ℕ) → AtMostOnce n (i ∷ is) → AtMostOnce n is
AtMostOnce-tail n i is h k = ground (arith, h k)

AtMostOnce-head : (n i : ℕ) (is : List ℕ) → AtMostOnce n (i ∷ is) → (i < n) × (occurrences i is ≡ 0)
AtMostOnce-head n i is h = (ground (arith, h i), ground (arith, h i))

pub get_elem?-lt {ℓ} :
    {A : Type ℓ} (xs : List A) (i : ℕ) → i < length xs → (x : A) × (get_elem? xs i ≡ some x)
get_elem?-lt [] i h = absurd (omega arith)
get_elem?-lt (x ∷ xs) zero h = (x, refl)
get_elem?-lt (x ∷ xs) (suc i) h = get_elem?-lt xs i (omega arith)

pub All-get_elem? {ℓ κ} :
    {A : Type ℓ} (P : A → Type κ) (xs : List A) (i : ℕ) {x : A}
    → All P xs
    → get_elem? xs i ≡ some x
    → P x
All-get_elem? P [] i h e = absurd (ground arith)
All-get_elem? P (y ∷ xs) zero h e = subst P (some_injective e) h.0
All-get_elem? P (y ∷ xs) (suc i) h e = All-get_elem? P xs i h.1 e

pub max_alignments-abi :
    (a b : Alignments) → (max_alignments a b).abi.value ≡ max a.abi.value b.abi.value
unfolding max_alignments
max_alignments-abi a b = refl

module _ (fields : List Layout) where
  -- One round, and the rounds after it.
  IsPlaced-next :
      (i : ℕ) (is : List ℕ) (layout : Layout) (self next result : Placed)
      → get_elem? fields i ≡ some layout
      → i < length self.offsets
      → occurrences i is ≡ 0
      → self.alignment.abi.value ≤ 32
      → IsNext self i layout next
      → IsPlaced fields is next result
      → IsPlaced fields (i ∷ is) self result
  IsPlaced-next i is layout self next result e lt later b n p =
      let alignment : next.alignment.abi.value
          ≡ max self.alignment.abi.value layout.alignment.abi.value =
        ap (λ a. a.abi.value) n.alignment ∙ max_alignments-abi self.alignment layout.alignment in
      record {
        in_memory = (
          next.offset,
          record {
            layout = layout;
            is_layout = e;
            field = n.field;
            is_field =
                p.kept i later
                ∙ ap (λ o. get_elem? o i) n.written
                ∙ get_elem?-set_self self.offsets i n.field lt;
            size = n.size;
            aligned = n.aligned;
            end = n.end;
          },
          p.in_memory,
        );
        kept = λ k h.
            p.kept k (ground arith)
            ∙ ap (λ o. get_elem? o k) n.written
            ∙ get_elem?-set_ne self.offsets n.field (λ (same : i ≡ k). ground arith);
        same_length = p.same_length ∙ ap length n.written ∙ length-set self.offsets i n.field;
        grows = omega (arith, p.grows, alignment);
        bounded = p.bounded;
        largest = (
          λ l f. omega (
            arith,
            p.grows,
            alignment,
            ap (λ x. x.alignment.abi.value) (some_injective (sym e ∙ f)),
          ),
          p.largest,
        );
        small = p.small;
      }

-- The loop places the fields in their order, or comes to a layout that is too large, which then it is.
module _ (dl : TargetDataLayout) (bound : ℕ) (is_bound : obj_size_bound dl ≡ some bound)
    (le : bound ≤ 2 ^ 47) (fields : List Layout) (aligned : All HasAlignment fields) where
  pub place_fields-Outcome :
      (is : List ℕ) (self : Placed)
      → AtMostOnce (length fields) is
      → length self.offsets ≡ length fields
      → self.alignment.abi.value ≤ 32
      → self.offset.value < 2 ^ 62
      → Outcome
          (IsPlaced fields is self)
          (bound ≤ self.offset.value + room fields is)
          (place_fields dl fields is self)
  unfolding place_fields
  place_fields-Outcome [] self once same b small = fits self (record {
    in_memory = refl;
    kept = λ k h. refl;
    same_length = refl;
    grows = omega arith;
    bounded = b;
    largest = tt;
    small = small;
  })
  place_fields-Outcome (i ∷ is) self once same b small =
      let (lt, later) = AtMostOnce-head (length fields) i is once in
      let (layout, e) = get_elem?-lt fields i lt in
      let h : layout.alignment.abi.value ≤ 32 = All-get_elem? HasAlignment fields i aligned e in
      rw e (
        Outcome-bind (place_field dl self i layout) _
          (place_field-Outcome dl bound is_bound le self i layout h small) (λ q. omega (arith, q))
          (λ next n.
            let alignment : next.alignment.abi.value
                ≡ max self.alignment.abi.value layout.alignment.abi.value =
              ap (λ a. a.abi.value) n.alignment
              ∙ max_alignments-abi self.alignment layout.alignment in
            let b' : next.alignment.abi.value ≤ 32 = omega (arith, alignment, h, b) in
            Outcome-map (place_fields dl fields is next)
              (place_fields-Outcome is next (AtMostOnce-tail (length fields) i is once)
                (ap length n.written ∙ length-set self.offsets i n.field ∙ same) b'
                (omega (arith, n.small)))
              (λ q. omega (arith, q, n.aligned.close, n.end))
              (λ result p.
                IsPlaced-next fields i is layout self next result e (omega (arith, lt, same)) later
                  b n p)))
