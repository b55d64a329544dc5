-- ===== src/Prelude/Bytes.antt =====
-- Machine words as big-endian byte strings: Rust's `to_be_bytes` and `from_be_bytes`.
use native.Mathlib.Nat.{pow-suc, add-zero, zero-add}
use hashc.Prelude.{
  ℕ, zero, suc, ◌+◌, ◌*◌, ◌/◌, ◌%◌, ◌^◌, ◌<◌, ◌≡◌, refl, ap, ◌∙◌, List, [], ◌∷◌, ◌++◌, arith,
  length, append-nil, take, drop, set, get_or, replicate,
}

abbrev pub All {ℓ κ} : {A : Type ℓ} → (A → Type κ) → List A → Type κ
All P [] = Unit
All P (x ∷ xs) = P x × All P xs

abbrev pub IsByte : ℕ → Type 0
IsByte b = b < 256

push_bytes : ℕ → ℕ → List ℕ → List ℕ
push_bytes zero v rest = rest
push_bytes (suc n) v rest = push_bytes n (v / 256) ((v % 256) ∷ rest)

read_bytes : ℕ → List ℕ → ℕ
read_bytes acc [] = acc
read_bytes acc (b ∷ bs) = read_bytes (acc * 256 + b) bs

-- `v.to_be_bytes()` of a word of `n` bytes.
unfoldable pub to_be_bytes : ℕ → ℕ → List ℕ
unfolding push_bytes
to_be_bytes n v = push_bytes n v []

-- `uN::from_be_bytes(bs)`.
unfoldable pub from_be_bytes : List ℕ → ℕ
unfolding read_bytes
from_be_bytes bs = read_bytes 0 bs

read-push :
    (n acc v : ℕ) (rest : List ℕ)
    → v < 256 ^ n
    → read_bytes acc (push_bytes n v rest) ≡ read_bytes (acc * 256 ^ n + v) rest
unfolding push_bytes read_bytes
read-push zero acc v rest h = ap (λ t. read_bytes t rest) (omega arith)
read-push (suc n) acc v rest h =
    read-push n acc (v / 256) ((v % 256) ∷ rest) (omega (arith, pow-suc 256 n))
    ∙ ap (λ t. read_bytes t rest) (rw (pow-suc 256 n) (omega arith))

div_back : (acc b : ℕ) → b < 256 → (acc * 256 + b) / 256 ≡ acc
div_back acc b h = omega arith

mod_back : (acc b : ℕ) → b < 256 → (acc * 256 + b) % 256 ≡ b
mod_back acc b h = omega arith

suc_out : (n k : ℕ) → suc n + k ≡ n + suc k
suc_out n k = omega arith

push-read :
    (bs : List ℕ) (k acc : ℕ) (rest : List ℕ)
    → All IsByte bs
    → push_bytes (length bs + k) (read_bytes acc bs) rest ≡ push_bytes k acc (bs ++ rest)
unfolding push_bytes read_bytes
push-read [] k acc rest h = rw zero-add
push-read (b ∷ bs) k acc rest h =
    rw (suc_out (length bs) k)
      (push-read bs (suc k) (acc * 256 + b) rest h.1 ∙ rw (div_back acc b h.0, mod_back acc b h.0))

length-push : (n v : ℕ) (rest : List ℕ) → length (push_bytes n v rest) ≡ n + length rest
unfolding push_bytes
length-push zero v rest = omega arith
length-push (suc n) v rest = omega (arith, length-push n (v / 256) ((v % 256) ∷ rest))

All-push : (n v : ℕ) (rest : List ℕ) → All IsByte rest → All IsByte (push_bytes n v rest)
unfolding push_bytes
All-push zero v rest h = h
All-push (suc n) v rest h = All-push n (v / 256) ((v % 256) ∷ rest) (omega arith, h)

read-split : (acc : ℕ) (bs : List ℕ) → read_bytes acc bs ≡ acc * 256 ^ length bs + read_bytes 0 bs
unfolding read_bytes
read-split acc [] = omega arith
read-split acc (b ∷ bs) =
    read-split (acc * 256 + b) bs
    ∙ rw (pow-suc 256 (length bs)) (omega (arith, read-split (0 * 256 + b) bs))

read-append :
    (acc : ℕ) (xs ys : List ℕ) → read_bytes acc (xs ++ ys) ≡ read_bytes (read_bytes acc xs) ys
unfolding read_bytes
read-append acc [] ys = refl
read-append acc (x ∷ xs) ys = read-append (acc * 256 + x) xs ys

read-lt : (bs : List ℕ) → All IsByte bs → read_bytes 0 bs < 256 ^ length bs
unfolding read_bytes
read-lt [] h = omega arith
read-lt (b ∷ bs) h = rw (pow-suc 256 (length bs)) (
    lt_lem b (256 ^ length bs) (read_bytes 0 bs) h.0 (read-lt bs h.1) (read-split (0 * 256 + b) bs))
  where
    lt_lem : (b p r : ℕ) {t : ℕ} → b < 256 → r < p → t ≡ (0 * 256 + b) * p + r → t < p * 256
    lt_lem b p r hb hr e = rw e (grind arith)

pub length-to_be_bytes : (n v : ℕ) → length (to_be_bytes n v) ≡ n
unfolding to_be_bytes
length-to_be_bytes n v = omega (arith, length-push n v [])

pub to_be_bytes-All : (n v : ℕ) → All IsByte (to_be_bytes n v)
unfolding to_be_bytes
to_be_bytes-All n v = All-push n v [] tt

-- Decoding the bytes of a word gives the word.
pub from-to_be_bytes : (n v : ℕ) → v < 256 ^ n → from_be_bytes (to_be_bytes n v) ≡ v
unfolding to_be_bytes from_be_bytes
from-to_be_bytes n v h = read-push n 0 v [] h ∙ omega arith

-- Encoding what a byte string stands for gives the string.
pub to-from_be_bytes :
    (bs : List ℕ) → All IsByte bs → to_be_bytes (length bs) (from_be_bytes bs) ≡ bs
unfolding to_be_bytes from_be_bytes
to-from_be_bytes bs h = rw (← add-zero (length bs)) (push-read bs 0 0 [] h ∙ append-nil bs)

pub from_be_bytes-append :
    (xs ys : List ℕ)
    → from_be_bytes (xs ++ ys) ≡ from_be_bytes xs * 256 ^ length ys + from_be_bytes ys
unfolding from_be_bytes
from_be_bytes-append xs ys = read-append 0 xs ys ∙ read-split (read_bytes 0 xs) ys

pub from_be_bytes-lt : (bs : List ℕ) → All IsByte bs → from_be_bytes bs < 256 ^ length bs
unfolding from_be_bytes
from_be_bytes-lt bs h = read-lt bs h

module _ {ℓ κ} {A : Type ℓ} (P : A → Type κ) where
  pub All-append : (xs ys : List A) → All P xs → All P ys → All P (xs ++ ys)
  All-append [] ys hx hy = hy
  All-append (x ∷ xs) ys hx hy = (hx.0, All-append xs ys hx.1 hy)

  pub All-take : (k : ℕ) (xs : List A) → All P xs → All P (take k xs)
  All-take zero xs h = tt
  All-take (suc k) [] h = tt
  All-take (suc k) (x ∷ xs) h = (h.0, All-take k xs h.1)

  pub All-drop : (k : ℕ) (xs : List A) → All P xs → All P (drop k xs)
  All-drop zero xs h = h
  All-drop (suc k) [] h = tt
  All-drop (suc k) (x ∷ xs) h = All-drop k xs h.1

  pub All-set : (xs : List A) (i : ℕ) (v : A) → All P xs → P v → All P (set xs i v)
  All-set [] i v h hv = tt
  All-set (x ∷ xs) zero v h hv = (hv, h.1)
  All-set (x ∷ xs) (suc i) v h hv = (h.0, All-set xs i v h.1 hv)

  pub All-get_or : (xs : List A) (i : ℕ) (d : A) → All P xs → P d → P (get_or xs i d)
  All-get_or [] i d h hd = hd
  All-get_or (x ∷ xs) zero d h hd = h.0
  All-get_or (x ∷ xs) (suc i) d h hd = All-get_or xs i d h.1 hd

  pub All-replicate : (n : ℕ) (a : A) → P a → All P (replicate n a)
  All-replicate zero a h = tt
  All-replicate (suc n) a h = (h, All-replicate n a h)
