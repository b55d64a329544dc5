-- ===== src/Target/Align/Fits.antt =====
-- compiler/hash-target/src/size.rs: sizes that are aligned without an overflow.
use native.Mathlib.Nat.{pow-le-pow_right}
use hashc.Prelude.{ℕ, ◌+◌, ◌*◌, ◌^◌, ◌≤◌, ◌<◌, ◌≡◌, refl, Option, some, arith}
use hashc.Target.Size.{Size}
use hashc.Target.Alignment.{Alignment}
use hashc.Target.Alignment as Alignment
use hashc.Target.Size.Bits.{pow-pos}
use hashc.Target.Align.{align_to}
use hashc.Target.Align.Masks.{Rounded, rounded, overflow, align_to-Rounded}

-- `end` is the first multiple of the alignment that is not below `start`.
pub record IsAligned (start : Size) (alignment : Alignment) (end : Size) : Type 0 where
  pub quotient : ℕ
  pub multiple : end.value ≡ quotient * Alignment.bytes alignment
  pub above : start.value ≤ end.value
  pub close : end.value < start.value + Alignment.bytes alignment

pub bytes_bounds :
    (a : Alignment) → a.value ≤ 32 → (0 < Alignment.bytes a) × (Alignment.bytes a ≤ 2 ^ 32)
unfolding Alignment.bytes
bytes_bounds a h = (pow-pos a.value, pow-le-pow_right (omega arith) h)

Rounded-IsAligned :
    (self : Size) (alignment : Alignment) (o : Option Size)
    → Rounded self alignment o
    → self.value + Alignment.bytes alignment ≤ 2 ^ 64
    → (s : Size) × (o ≡ some s) × IsAligned self alignment s
Rounded-IsAligned self alignment _ (rounded q above close) h = (
  record { value = q * Alignment.bytes alignment },
  refl,
  record { quotient = q; multiple = refl; above = above; close = close },
)
Rounded-IsAligned self alignment _ (overflow large) h = absurd (omega arith)

pub align_to-IsAligned :
    (self : Size) (alignment : Alignment)
    → alignment.value ≤ 32
    → self.value < 2 ^ 63
    → (s : Size) × (align_to self alignment ≡ some s) × IsAligned self alignment s
align_to-IsAligned self alignment h small =
    Rounded-IsAligned self alignment (align_to self alignment)
      (align_to-Rounded self alignment (omega (arith, h)))
      (omega (arith, small, (bytes_bounds alignment h).1))
