-- ===== src/Target/Alignment/Tests.antt =====
-- compiler/hash-target/src/alignment.rs: the runs of its tests.
use hashc.Prelude.{◌≡◌, refl, arith}
use hashc.Target.Size.{Size}
use hashc.Target.Alignment.{
  Alignment, err, not_power_of_two, halve, from_bytes, trailing_zeros, restrict_to,
}
use hashc.Target.Alignment.Powers.{
  Parsed, from_bytes-Parsed, IsRestricted, restrict_to-IsRestricted,
}

abbrev eight : Alignment
eight = record { value = 3 }

abbrev six_bytes : Size
six_bytes = record { value = 6 }

bad_run : from_bytes 3 ≡ err not_power_of_two
unfolding from_bytes halve
bad_run = refl

restricted_run : restrict_to eight six_bytes ≡ record { value = 1 }
unfolding restrict_to trailing_zeros halve
restricted_run = refl

from_bytes-Parsed_example : Parsed 48 (from_bytes 48)
from_bytes-Parsed_example = from_bytes-Parsed 48

restrict_to-IsRestricted_example : IsRestricted eight six_bytes (restrict_to eight six_bytes)
restrict_to-IsRestricted_example = restrict_to-IsRestricted eight six_bytes (omega arith)
