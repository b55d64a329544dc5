-- ===== src/Target/Align.antt =====
-- compiler/hash-target/src/size.rs: sizes that are aligned.
pub mod Masks
pub mod Fits
pub mod Tests
use Prim.Native.Nat.{bit_and}
use hashc.Prelude.{ℕ, ◌+◌, ◌-◌, ◌^◌, Option, none, some, ltb, leb, if◌then◌else◌}
use hashc.Target.Size.{Size}
use hashc.Target.Size as Size
use hashc.Target.Alignment.{Alignment}
use hashc.Target.Alignment as Alignment

-- `!mask` on a `u64`.
abbrev pub complement : ℕ → ℕ
complement mask = 2 ^ 64 - 1 - mask

-- `none` is the overflow of the sum.
unfoldable pub align_to : Size → Alignment → Option Size
align_to self alignment =
    let mask = Alignment.bytes alignment - 1 in
    if ltb (self.value + mask) (2 ^ 64)
    then some (record { value = bit_and (self.value + mask) (complement mask) })
    else none
