-- ===== src/Exhaustiveness/Array/Tests.antt =====
-- compiler/hash-exhaustiveness/src/list.rs: the splitting of `[a, ..., b]` where `[_, _, _]` and `[..., _]`
-- were seen.
use hashc.Prelude.{◌≡◌, refl, some, List, [], ◌∷◌}
use hashc.Exhaustiveness.Array.{
  Array, ArrayKind, fixed, var, longest, longest_step, max_list_of, usize_add, usize_sub, new,
  split, split_max, iter, split_arrays, fixed_arrays, kind_arity,
}

abbrev seen : List ArrayKind
seen = fixed 3 ∷ var 0 1 ∷ []

abbrev parts : List Array
parts = (record { kind = fixed 2 }) ∷ (record { kind = fixed 3 }) ∷ (record { kind = var 3 1 }) ∷ []

split_seen : split_arrays 1 1 seen ≡ some parts
unfolding split_arrays new split split_max iter kind_arity fixed_arrays longest longest_step
    max_list_of usize_add usize_sub
split_seen = refl
