-- ===== src/Exhaustiveness/Array/Growth.antt =====
-- compiler/hash-exhaustiveness/src/list.rs: the list that `SplitVarList::split` grows is longer than all
-- that it has seen.
use hashc.Prelude.{
  ℕ, ◌+◌, ◌-◌, ◌^◌, ◌≤◌, ◌<◌, ◌≡◌, refl, true, Bool-cases, some, List, [], ◌∷◌, leb, ltb, inl, inr,
  arith,
}
use hashc.Prelude.Bytes.{All}
use hashc.Exhaustiveness.Array.{
  ArrayKind, LengthsSeen, fixed, var, longest, longest_step, max_list_of, usize_add, usize_sub,
}

-- Lengths that no sum of a few takes out of a `usize`.
abbrev pub bound : ℕ
bound = 2 ^ 62

abbrev pub IsShort : ArrayKind → Type 0
IsShort (fixed len) = len < bound
IsShort (var prefix suffix) = (prefix < bound) × (suffix < bound)

pub record AreShort (l : LengthsSeen) : Type 0 where
  pub fixed_short : l.fixed_len < bound
  pub prefix_short : l.prefix_len < bound
  pub suffix_short : l.suffix_len < bound

-- What a list of these lengths has seen.
abbrev pub IsSeen : LengthsSeen → ArrayKind → Type 0
IsSeen l (fixed len) = len ≤ l.fixed_len
IsSeen l (var prefix suffix) = (prefix ≤ l.prefix_len) × (suffix ≤ l.suffix_len)

pub record Grows (l m : LengthsSeen) : Type 0 where
  pub fixed_grows : l.fixed_len ≤ m.fixed_len
  pub prefix_grows : l.prefix_len ≤ m.prefix_len
  pub suffix_grows : l.suffix_len ≤ m.suffix_len

step-Grows : (k : ArrayKind) (l : LengthsSeen) → Grows l (longest_step k l)
unfolding longest_step
step-Grows (fixed len) l = record {
  fixed_grows = omega arith;
  prefix_grows = omega arith;
  suffix_grows = omega arith;
}
step-Grows (var prefix suffix) l = record {
  fixed_grows = omega arith;
  prefix_grows = omega arith;
  suffix_grows = omega arith;
}

step-AreShort :
    (k : ArrayKind) (l : LengthsSeen) → IsShort k → AreShort l → AreShort (longest_step k l)
unfolding longest_step
step-AreShort (fixed len) l h a = record {
  fixed_short = omega (arith, h, a.fixed_short);
  prefix_short = a.prefix_short;
  suffix_short = a.suffix_short;
}
step-AreShort (var prefix suffix) l (h, i) a = record {
  fixed_short = a.fixed_short;
  prefix_short = omega (arith, h, a.prefix_short);
  suffix_short = omega (arith, i, a.suffix_short);
}

step-IsSeen : (k : ArrayKind) (l : LengthsSeen) → IsSeen (longest_step k l) k
unfolding longest_step
step-IsSeen (fixed len) l = omega arith
step-IsSeen (var prefix suffix) l = (omega arith, omega arith)

Grows-trans : (l m n : LengthsSeen) → Grows l m → Grows m n → Grows l n
Grows-trans l m n a b = record {
  fixed_grows = omega (arith, a.fixed_grows, b.fixed_grows);
  prefix_grows = omega (arith, a.prefix_grows, b.prefix_grows);
  suffix_grows = omega (arith, a.suffix_grows, b.suffix_grows);
}

IsSeen-Grows : (k : ArrayKind) (l m : LengthsSeen) → IsSeen l k → Grows l m → IsSeen m k
IsSeen-Grows (fixed len) l m h g = omega (arith, h, g.fixed_grows)
IsSeen-Grows (var prefix suffix) l m (h, i) g =
    (omega (arith, h, g.prefix_grows), omega (arith, i, g.suffix_grows))

pub longest-Grows : (ks : List ArrayKind) (l : LengthsSeen) → Grows l (longest ks l)
unfolding longest
longest-Grows [] l = record {
  fixed_grows = omega arith;
  prefix_grows = omega arith;
  suffix_grows = omega arith;
}
longest-Grows (k ∷ ks) l =
    Grows-trans l (longest_step k l) (longest ks (longest_step k l)) (step-Grows k l)
      (longest-Grows ks (longest_step k l))

pub longest-AreShort :
    (ks : List ArrayKind) (l : LengthsSeen) → All IsShort ks → AreShort l → AreShort (longest ks l)
unfolding longest
longest-AreShort [] l h a = a
longest-AreShort (k ∷ ks) l (h, hs) a =
    longest-AreShort ks (longest_step k l) hs (step-AreShort k l h a)

pub longest-IsSeen : (ks : List ArrayKind) (l : LengthsSeen) → All (IsSeen (longest ks l)) ks
unfolding longest
longest-IsSeen [] l = tt
longest-IsSeen (k ∷ ks) l = (
  IsSeen-Grows k (longest_step k l) (longest ks (longest_step k l)) (step-IsSeen k l)
      (longest-Grows ks (longest_step k l)),
  longest-IsSeen ks (longest_step k l),
)

pub usize_add-lt : (a b : ℕ) → a + b < 2 ^ 64 → usize_add a b ≡ some (a + b)
unfolding usize_add
usize_add-lt a b h = let fits : ltb (a + b) (2 ^ 64) ≡ true = ground (arith, h) in rw fits refl

usize_sub-le : (a b : ℕ) → b ≤ a → usize_sub a b ≡ some (a - b)
unfolding usize_sub
usize_sub-le a b h = let fits : leb b a ≡ true = ground (arith, h) in rw fits refl

-- A list of variable length that is as long as all lengths need.
pub record TopList (l : LengthsSeen) : Type 0 where
  pub prefix : ℕ
  pub result : max_list_of l ≡ some (var prefix l.suffix_len)
  pub above : l.fixed_len < prefix + l.suffix_len
  pub room : l.prefix_len ≤ prefix
  pub fits : prefix + l.suffix_len < 2 ^ 64

pub max_list_of-TopList : (l : LengthsSeen) → AreShort l → TopList l
unfolding max_list_of
max_list_of-TopList l a =
    let high = a.fixed_short in
    let front = a.prefix_short in
    let back = a.suffix_short in
    elim (Bool-cases (leb (l.prefix_len + l.suffix_len) (l.fixed_len + 1))) [
      | inl e ↦ record {
        prefix = l.fixed_len + 1 - l.suffix_len;
        result =
            rw
              (
                usize_add-lt l.fixed_len 1 (omega arith),
                usize_add-lt l.prefix_len l.suffix_len (omega arith),
                e,
                usize_sub-le (l.fixed_len + 1) l.suffix_len (ground (arith, e)),
              )
              refl;
        above = ground (arith, e);
        room = ground (arith, e);
        fits = ground (arith, e);
      }
      | inr e ↦ record {
        prefix = l.prefix_len;
        result =
            rw
              (
                usize_add-lt l.fixed_len 1 (omega arith),
                usize_add-lt l.prefix_len l.suffix_len (omega arith),
                e,
              )
              refl;
        above = ground (arith, e);
        room = omega arith;
        fits = omega arith;
      }
    ]
