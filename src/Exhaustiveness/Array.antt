-- ===== src/Exhaustiveness/Array.antt =====
-- compiler/hash-exhaustiveness/src/list.rs: the lengths of array patterns, and the splitting of a pattern
-- of variable length. A length is a `usize`; `none` is a panic of its arithmetic.
pub mod Growth
pub mod Lengths
pub mod Tests
use hashc.Prelude.{
  ℕ, zero, suc, ◌+◌, ◌-◌, ◌^◌, Bool, true, false, Option, none, some, List, [], ◌∷◌, ◌++◌, max, leb,
  ltb, ◌==◌, if◌then◌else◌,
}

pub data ArrayKind : Type 0 where
  fixed : ℕ → ArrayKind
  var : ℕ → ℕ → ArrayKind

abbrev pub bind {ℓ κ} : {A : Type ℓ} → {B : Type κ} → Option A → (A → Option B) → Option B
bind none f = none
bind (some a) f = f a

infixl 10 ◌>>=◌
abbrev pub ◌>>=◌ {ℓ κ} : {A : Type ℓ} → {B : Type κ} → Option A → (A → Option B) → Option B
◌>>=◌ = bind

-- `a + b` and `a - b` on `usize`.
unfoldable pub usize_add : ℕ → ℕ → Option ℕ
usize_add a b = if ltb (a + b) (2 ^ 64) then some (a + b) else none

unfoldable pub usize_sub : ℕ → ℕ → Option ℕ
usize_sub a b = if leb b a then some (a - b) else none

unfoldable pub kind_arity : ArrayKind → Option ℕ
kind_arity (fixed length) = some length
kind_arity (var prefix suffix) = usize_add prefix suffix

unfoldable pub covers_length : ArrayKind → ℕ → Option Bool
covers_length (fixed len) other_len = some (len == other_len)
covers_length (var prefix suffix) other_len = do n ← usize_add prefix suffix; some (leb n other_len)

pub record Array : Type 0 where
  pub kind : ArrayKind

unfoldable pub arity : Array → Option ℕ
unfolding kind_arity
arity self = kind_arity self.kind

unfoldable pub is_covered_by : Array → Array → Option Bool
unfolding arity covers_length
is_covered_by self other = do n ← arity self; covers_length other.kind n

pub record SplitVarList : Type 0 where
  pub arity : ℕ
  pub max_list : ArrayKind

unfoldable pub new : ℕ → ℕ → Option SplitVarList
new prefix suffix = do
  n ← usize_add prefix suffix
  some (record { arity = n; max_list = var prefix suffix })

-- The loop's variables.
pub record LengthsSeen : Type 0 where
  pub fixed_len : ℕ
  pub prefix_len : ℕ
  pub suffix_len : ℕ

unfoldable pub longest_step : ArrayKind → LengthsSeen → LengthsSeen
longest_step (fixed len) l = record l { fixed_len = max l.fixed_len len }
longest_step (var prefix suffix) l = record l {
  prefix_len = max l.prefix_len prefix;
  suffix_len = max l.suffix_len suffix;
}

unfoldable pub longest : List ArrayKind → LengthsSeen → LengthsSeen
longest [] l = l
longest (slice ∷ slices) l = longest slices (longest_step slice l)

-- The list that is longer than every one seen.
unfoldable pub max_list_of : LengthsSeen → Option ArrayKind
max_list_of l = do
  above ← usize_add l.fixed_len 1
  total ← usize_add l.prefix_len l.suffix_len
  if leb total above
      then (do prefix ← usize_sub above l.suffix_len; some (var prefix l.suffix_len))
      else some (var l.prefix_len l.suffix_len)

unfoldable pub split_max : List ArrayKind → ArrayKind → Option ArrayKind
split_max slices (fixed len) = some (fixed len)
split_max slices (var prefix suffix) =
    max_list_of
      (longest slices (record { fixed_len = 0; prefix_len = prefix; suffix_len = suffix }))

unfoldable pub split : SplitVarList → List ArrayKind → Option SplitVarList
split self slices = do list ← split_max slices self.max_list; some (record self { max_list = list })

-- The arrays of `count` lengths from `start` on.
unfoldable pub fixed_arrays : ℕ → ℕ → List Array
fixed_arrays start zero = []
fixed_arrays start (suc count) = (record { kind = fixed start }) ∷ fixed_arrays (suc start) count

unfoldable pub iter : SplitVarList → Option (List Array)
iter self = do
  n ← kind_arity self.max_list
  some (fixed_arrays self.arity (n - self.arity) ++ (record { kind = self.max_list }) ∷ [])

-- The partition of an array pattern of variable length, against the ones seen.
unfoldable pub split_arrays : ℕ → ℕ → List ArrayKind → Option (List Array)
split_arrays prefix suffix slices = do
  list ← new prefix suffix
  apart ← split list slices
  iter apart
