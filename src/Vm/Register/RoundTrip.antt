-- ===== src/Vm/Register/RoundTrip.antt =====
-- A register read after a write, at every width.
use hashc.Prelude.{
  ℕ, ◌+◌, ◌-◌, ◌*◌, ◌/◌, ◌^◌, ◌≤◌, ◌<◌, ◌≡◌, ◌≢◌, refl, sym, ap, ◌∙◌, List, [], ◌∷◌, ◌%◌, arith,
  drop, set, length, length-drop, set_last, drop_last,
}
use hashc.Prelude.Bytes.{
  All, IsByte, to_be_bytes, from_be_bytes, length-to_be_bytes, to_be_bytes-All, from-to_be_bytes,
  from_be_bytes-lt, All-drop,
}
use hashc.Vm.Register.{
  Register, RegisterSet, IsWord, IsRegisterFile, Width, w8, w16, w32, w64, byte_count, modulus,
  get_register, set_register, get_register_bytes, set_register_bytes, get_register_8b,
  write_register, copy_tail, get_register64, get_register_b, get_register_2b, get_register_4b,
  set_register8, set_register16, set_register32, set_register64, set_register_b, set_register_2b,
  set_register_4b, set_register_8b, get_register8, get_register16, get_register32,
}
use hashc.Vm.Register.Access.{
  IsWord-get_register_8b, write_register-IsRegisterFile, get_register_8b-write_self,
  get_register_8b-write_ne, drop-copy_tail, copy_tail-IsWord, copy_tail-from_be_bytes,
}

abbrev skip : Width → ℕ
skip w = 8 - byte_count w

skip-le : (w : Width) → skip w ≤ 8
skip-le w = omega arith

skip_back : (w : Width) → 8 - skip w ≡ byte_count w
skip_back w8 = refl
skip_back w16 = refl
skip_back w32 = refl
skip_back w64 = refl

pow-skip : (w : Width) → 256 ^ (8 - skip w) ≡ modulus w
pow-skip w8 = refl
pow-skip w16 = refl
pow-skip w32 = refl
pow-skip w64 = refl

pub pow-byte_count : (w : Width) → 256 ^ byte_count w ≡ modulus w
pow-byte_count w8 = refl
pow-byte_count w16 = refl
pow-byte_count w32 = refl
pow-byte_count w64 = refl

-- A byte string of the width's length.
abbrev pub IsBytes : Width → List ℕ → Type 0
IsBytes w bs = (length bs ≡ byte_count w) × All IsByte bs

pub to_be_bytes-IsBytes : (w : Width) (v : ℕ) → IsBytes w (to_be_bytes (byte_count w) v)
to_be_bytes-IsBytes w v = (length-to_be_bytes (byte_count w) v, to_be_bytes-All (byte_count w) v)

pub get_register_bytes-eq-drop :
    (rs : RegisterSet) (r : Register) (w : Width)
    → get_register_bytes w rs r ≡ drop (skip w) (get_register_8b rs r)
unfolding get_register_bytes get_register_b get_register_2b get_register_4b
get_register_bytes-eq-drop rs r w8 = refl
get_register_bytes-eq-drop rs r w16 = refl
get_register_bytes-eq-drop rs r w32 = refl
get_register_bytes-eq-drop rs r w64 = refl

module _ (rs : RegisterSet) (r : Register) (h : IsRegisterFile rs) where
  word_lem : IsWord (get_register_8b rs r)
  word_lem = IsWord-get_register_8b rs r h

  pub get_register-eq-bytes :
      (w : Width) → get_register w rs r ≡ from_be_bytes (get_register_bytes w rs r)
  unfolding get_register get_register8 get_register16 get_register32 get_register64
      get_register_bytes get_register_b get_register_2b get_register_4b
  get_register-eq-bytes w8 =
      rw (drop_last (get_register_8b rs r) 7 0 (word_lem.0)) (unfold from_be_bytes in omega arith)
  get_register-eq-bytes w16 = refl
  get_register-eq-bytes w32 = refl
  get_register-eq-bytes w64 = refl

  pub get_register_bytes-IsBytes : (w : Width) → IsBytes w (get_register_bytes w rs r)
  get_register_bytes-IsBytes w = rw (get_register_bytes-eq-drop rs r w) (
    length-drop (skip w) (get_register_8b rs r) ∙ rw word_lem.0 (skip_back w),
    All-drop IsByte (skip w) (get_register_8b rs r) word_lem.1,
  )

  pub get_register-lt : (w : Width) → get_register w rs r < modulus w
  get_register-lt w =
      let b = get_register_bytes-IsBytes w in
      rw (get_register-eq-bytes w, ← pow-byte_count w, ← b.0) (from_be_bytes-lt _ b.1)

module _ (rs : RegisterSet) (r : Register) (h : IsRegisterFile rs) where
  set_register_bytes-eq-write :
      (w : Width) (bs : List ℕ)
      → length bs ≡ byte_count w
      → set_register_bytes w rs r bs
        ≡ write_register rs r (copy_tail (skip w) (get_register_8b rs r) bs)
  unfolding set_register_bytes set_register_b set_register_2b set_register_4b set_register_8b
      copy_tail
  set_register_bytes-eq-write w8 [] e = absurd (omega arith)
  set_register_bytes-eq-write w8 (b ∷ []) e =
      ap (write_register rs r) (set_last (get_register_8b rs r) 7 b ((word_lem rs r h).0))
  set_register_bytes-eq-write w8 (b ∷ c ∷ bs) e = absurd (omega arith)
  set_register_bytes-eq-write w16 bs e = refl
  set_register_bytes-eq-write w32 bs e = refl
  set_register_bytes-eq-write w64 bs e = refl

  pub set_register-eq-bytes :
      (w : Width) (v : ℕ)
      → v < modulus w
      → set_register w rs r v ≡ set_register_bytes w rs r (to_be_bytes (byte_count w) v)
  unfolding set_register set_register8 set_register16 set_register32 set_register64
      set_register_bytes set_register_b set_register_2b set_register_4b set_register_8b
  set_register-eq-bytes w8 v e =
      let small : v % 256 ≡ v = omega arith in
      ap (λ b. write_register rs r (set (get_register_8b rs r) 7 b))
        (sym (unfold to_be_bytes in small))
  set_register-eq-bytes w16 v e = refl
  set_register-eq-bytes w32 v e = refl
  set_register-eq-bytes w64 v e = refl

  module _ (w : Width) (bs : List ℕ) (b : IsBytes w bs) where
    pub set_register_bytes-IsRegisterFile : IsRegisterFile (set_register_bytes w rs r bs)
    set_register_bytes-IsRegisterFile = rw (set_register_bytes-eq-write w bs b.0) (
        write_register-IsRegisterFile rs r _ h (
          copy_tail-IsWord (get_register_8b rs r) bs (skip w) (word_lem rs r h) (skip-le w)
            (b.0 ∙ sym (skip_back w)) b.1))

    pub get-set_register_bytes :
        r.index < 256 → get_register_bytes w (set_register_bytes w rs r bs) r ≡ bs
    get-set_register_bytes hr =
        get_register_bytes-eq-drop (set_register_bytes w rs r bs) r w
        ∙ rw (set_register_bytes-eq-write w bs b.0) (
            rw (get_register_8b-write_self rs r (copy_tail (skip w) (get_register_8b rs r) bs) h hr)
              (drop-copy_tail (get_register_8b rs r) bs (skip w) (word_lem rs r h) (skip-le w)))

    -- The whole register keeps its high part and takes the bytes as its low part.
    get_register64-set_bytes :
        r.index < 256
        → get_register64 (set_register_bytes w rs r bs) r
          ≡ get_register64 rs r / modulus w * modulus w + from_be_bytes bs
    unfolding get_register64
    get_register64-set_bytes hr = rw (set_register_bytes-eq-write w bs b.0) (
        rw (get_register_8b-write_self rs r (copy_tail (skip w) (get_register_8b rs r) bs) h hr) (
          copy_tail-from_be_bytes (get_register_8b rs r) bs (skip w) (word_lem rs r h) (skip-le w)
            (modulus w) (pow-skip w) (b.0 ∙ sym (skip_back w))))

    pub get_register_8b-set_bytes_ne :
        (q : Register)
        → r.index ≢ q.index
        → get_register_8b (set_register_bytes w rs r bs) q ≡ get_register_8b rs q
    get_register_8b-set_bytes_ne q ne =
        rw (set_register_bytes-eq-write w bs b.0) (get_register_8b-write_ne rs r q _ ne)

  module _ (w : Width) (v : ℕ) (fits : v < modulus w) where
    value_back : from_be_bytes (to_be_bytes (byte_count w) v) ≡ v
    value_back = from-to_be_bytes (byte_count w) v (rw (pow-byte_count w) fits)

    pub set_register-IsRegisterFile : IsRegisterFile (set_register w rs r v)
    set_register-IsRegisterFile = rw (set_register-eq-bytes w v fits) (
        set_register_bytes-IsRegisterFile w (to_be_bytes (byte_count w) v)
          (to_be_bytes-IsBytes w v))

-- In a set of 256 words, reading a register at the width it was written gives the value written, if
-- the value fits the width.
pub get-set_register :
    (w : Width) (rs : RegisterSet) (r : Register) (v : ℕ)
    → IsRegisterFile rs
    → r.index < 256
    → v < modulus w
    → get_register w (set_register w rs r v) r ≡ v
get-set_register w rs r v h hr fits =
    get_register-eq-bytes (set_register w rs r v) r (set_register-IsRegisterFile rs r h w v fits) w
    ∙ rw (set_register-eq-bytes rs r h w v fits) (
        rw
          (get-set_register_bytes rs r h w (to_be_bytes (byte_count w) v) (to_be_bytes-IsBytes w v)
            hr)
          (value_back rs r h w v fits))

-- In a set of 256 words, a write of a value that fits its width replaces the low part of the
-- register's 64-bit value and keeps the high part.
pub get_register64-set_register :
    (w : Width) (rs : RegisterSet) (r : Register) (v : ℕ)
    → IsRegisterFile rs
    → r.index < 256
    → v < modulus w
    → get_register64 (set_register w rs r v) r ≡ get_register64 rs r / modulus w * modulus w + v
get_register64-set_register w rs r v h hr fits = rw (set_register-eq-bytes rs r h w v fits) (
    get_register64-set_bytes rs r h w (to_be_bytes (byte_count w) v) (to_be_bytes-IsBytes w v) hr
    ∙ rw (value_back rs r h w v fits))

-- In a set of 256 words, a write of a value that fits its width leaves every byte of every other
-- register.
pub get_register_8b-set_register_ne :
    (w : Width) (rs : RegisterSet) (r q : Register) (v : ℕ)
    → IsRegisterFile rs
    → v < modulus w
    → r.index ≢ q.index
    → get_register_8b (set_register w rs r v) q ≡ get_register_8b rs q
get_register_8b-set_register_ne w rs r q v h fits ne = rw (set_register-eq-bytes rs r h w v fits) (
    get_register_8b-set_bytes_ne rs r h w (to_be_bytes (byte_count w) v) (to_be_bytes-IsBytes w v) q
      ne)
