-- ===== src/Target/Abi/Fits.antt =====
-- compiler/hash-target/src/abi.rs: the integer of an alignment is not wider than it.
use native.Mathlib.Nat.{pow-le-pow_right, pow-suc}
use hashc.Prelude.{
  suc, ◌^◌, ◌≤◌, ◌<◌, ◌≡◌, refl, Bool, true, Bool-cases, inl, inr, some, some_injective, none-some,
  List, [], ◌∷◌, subst, arith,
}
use hashc.Target.Alignment.{Alignment}
use hashc.Target.Alignment as Alignment
use hashc.Target.DataLayout.{TargetDataLayout, Integer, int8, int16, int32, int64, int128}
use hashc.Target.Abi.{int_size, int_align, int_rank, for_alignment, find_integer, matches_alignment}

int_size-rank : (i : Integer) → (int_size i).value ≡ 2 ^ int_rank i
unfolding int_size
int_size-rank int8 = refl
int_size-rank int16 = refl
int_size-rank int32 = refl
int_size-rank int64 = refl
int_size-rank int128 = refl

pub int_size-pos : (i : Integer) → (0 < (int_size i).value) × ((int_size i).value ≤ 16)
unfolding int_size
int_size-pos int8 = (omega arith, omega arith)
int_size-pos int16 = (omega arith, omega arith)
int_size-pos int32 = (omega arith, omega arith)
int_size-pos int64 = (omega arith, omega arith)
int_size-pos int128 = (omega arith, omega arith)

-- The order of the integers is that of their sizes.
pub int_size_lt :
    (i j : Integer) → int_rank i < int_rank j → (int_size i).value < (int_size j).value
int_size_lt i j h =
    let le : 2 ^ suc (int_rank i) ≤ 2 ^ int_rank j = pow-le-pow_right (omega arith) h in
    omega (arith, le, pow-suc 2 (int_rank i), int_size-rank i, int_size-rank j, int_size-pos i)

find_integer-some :
    (p : Integer → Bool) (is : List Integer) (i : Integer) → find_integer p is ≡ some i → p i ≡ true
find_integer-some p [] i e = absurd (none-some e)
find_integer-some p (j ∷ is) i e = elim (Bool-cases (p j)) [
  | inl h ↦ let found = rw h at e in subst (λ k. p k ≡ true) (some_injective found) h
  | inr h ↦ let rest = rw h at e in find_integer-some p is i rest
]

-- An integer of that alignment, which is not wider than it.
pub record IsMatch (dl : TargetDataLayout) (alignment : Alignment) (i : Integer) : Type 0 where
  pub same : alignment.value ≡ (int_align i dl).abi.value
  pub narrow : (int_size i).value ≤ Alignment.bytes alignment

matches_alignment-IsMatch :
    (dl : TargetDataLayout) (alignment : Alignment) (i : Integer)
    → matches_alignment dl alignment i ≡ true
    → IsMatch dl alignment i
matches_alignment-IsMatch dl alignment i h = record { same = ground arith; narrow = ground arith }

pub for_alignment-IsMatch :
    (dl : TargetDataLayout) (alignment : Alignment) (i : Integer)
    → for_alignment dl alignment ≡ some i
    → IsMatch dl alignment i
unfolding for_alignment
for_alignment-IsMatch dl alignment i e = matches_alignment-IsMatch dl alignment i (
    find_integer-some (matches_alignment dl alignment) (int8 ∷ int16 ∷ int32 ∷ int64 ∷ int128 ∷ [])
      i e)
