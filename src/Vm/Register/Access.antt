-- ===== src/Vm/Register/Access.antt =====
-- What a write to a register leaves to be read.
use native.Mathlib.Nat.{div-eq_of_lt-le}
use hashc.Prelude.{
  ℕ, ◌+◌, ◌-◌, ◌*◌, ◌/◌, ◌^◌, ◌≤◌, ◌<◌, ◌≡◌, ◌≢◌, refl, sym, ap, ◌∙◌, List, arith, take, drop,
  replicate, length, length-append, length-take, length-drop, length-set, get_or-set_self,
  get_or-set_ne, drop-take-append, take-append-drop,
}
use hashc.Prelude.Bytes.{
  All, IsByte, from_be_bytes, from_be_bytes-append, from_be_bytes-lt, All-append, All-take,
  All-drop, All-set, All-get_or, All-replicate,
}
use hashc.Vm.Register.{
  Register, RegisterSet, IsWord, IsRegisterFile, get_register_8b, write_register, copy_tail,
}

pub IsWord-get_register_8b :
    (rs : RegisterSet) (r : Register) → IsRegisterFile rs → IsWord (get_register_8b rs r)
unfolding get_register_8b
IsWord-get_register_8b rs r h =
    All-get_or IsWord rs.registers r.index (replicate 8 0) h.words
      (refl, All-replicate IsByte 8 0 (omega arith))

pub write_register-IsRegisterFile :
    (rs : RegisterSet) (r : Register) (reg : List ℕ)
    → IsRegisterFile rs
    → IsWord reg
    → IsRegisterFile (write_register rs r reg)
unfolding write_register
write_register-IsRegisterFile rs r reg h hr = record {
  count = length-set rs.registers r.index reg ∙ h.count;
  words = All-set IsWord rs.registers r.index reg h.words hr;
}

pub get_register_8b-write_self :
    (rs : RegisterSet) (r : Register) (reg : List ℕ)
    → IsRegisterFile rs
    → r.index < 256
    → get_register_8b (write_register rs r reg) r ≡ reg
unfolding get_register_8b write_register
get_register_8b-write_self rs r reg h hr =
    get_or-set_self rs.registers r.index reg (replicate 8 0) (omega (arith, h.count))

pub get_register_8b-write_ne :
    (rs : RegisterSet) (r q : Register) (reg : List ℕ)
    → r.index ≢ q.index
    → get_register_8b (write_register rs r reg) q ≡ get_register_8b rs q
unfolding get_register_8b write_register
get_register_8b-write_ne rs r q reg h =
    get_or-set_ne rs.registers r.index q.index reg (replicate 8 0) h

-- The number that the last `8 - k` bytes of a word stand for.
abbrev pub low : ℕ → List ℕ → ℕ
low k reg = from_be_bytes (drop k reg)

module _ (reg value : List ℕ) (k : ℕ) (w : IsWord reg) (fits : k ≤ 8) where
  pub drop-copy_tail : drop k (copy_tail k reg value) ≡ value
  unfolding copy_tail
  drop-copy_tail = drop-take-append k reg value (omega (arith, w.0))

  pub copy_tail-IsWord : length value ≡ 8 - k → All IsByte value → IsWord (copy_tail k reg value)
  unfolding copy_tail
  copy_tail-IsWord hl hv = (
    omega (arith, length-append (take k reg) value, length-take k reg, w.0),
    All-append IsByte (take k reg) value (All-take IsByte k reg w.1) hv,
  )

  -- The bytes before the tail stay: the word keeps its high part and takes the value as its low part.
  pub copy_tail-from_be_bytes :
      (p : ℕ)
      → 256 ^ (8 - k) ≡ p
      → length value ≡ 8 - k
      → from_be_bytes (copy_tail k reg value) ≡ from_be_bytes reg / p * p + from_be_bytes value
  unfolding copy_tail
  copy_tail-from_be_bytes p hp hl = from_be_bytes-append (take k reg) value ∙ rw (hl, hp, high) refl
    where
      whole : from_be_bytes reg ≡ from_be_bytes (take k reg) * p + from_be_bytes (drop k reg)
      whole =
          ap from_be_bytes (sym (take-append-drop k reg))
          ∙ from_be_bytes-append (take k reg) (drop k reg)
          ∙ rw (length-drop k reg, w.0, hp) refl

      small : from_be_bytes (drop k reg) < p
      small = rw (← hp) (
          let e : length (drop k reg) ≡ 8 - k = omega (arith, length-drop k reg, w.0) in
          rw e at (from_be_bytes-lt (drop k reg) (All-drop IsByte k reg w.1)))

      high : from_be_bytes reg / p ≡ from_be_bytes (take k reg)
      high = div-eq_of_lt-le p (omega (arith, whole)) (omega (arith, whole, small))
