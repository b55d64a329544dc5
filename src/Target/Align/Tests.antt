-- ===== src/Target/Align/Tests.antt =====
-- compiler/hash-target/src/size.rs: aligning 13 bytes to 8.
use hashc.Prelude.{◌≡◌, refl, some, arith}
use hashc.Target.Size.{Size}
use hashc.Target.Alignment.{Alignment, bytes}
use hashc.Target.Align.{align_to}
use hashc.Target.Align.Masks.{Rounded, align_to-Rounded}

abbrev thirteen : Size
thirteen = record { value = 13 }

abbrev eight : Alignment
eight = record { value = 3 }

align_run : align_to thirteen eight ≡ some (record { value = 16 })
unfolding align_to bytes
align_run = refl

align_to-Rounded_example : Rounded thirteen eight (align_to thirteen eight)
align_to-Rounded_example = align_to-Rounded thirteen eight (omega arith)
