-- ===== src/Target/Equal.antt =====
-- compiler/hash-target/src/abi.rs: the derived equality of scalars and of representations.
use hashc.Prelude.{Bool, true, false, not, ◌&&◌, ◌==◌}
use hashc.Target.Primitives.{FloatTy, f32, f64}
use hashc.Target.Abi.{
  ScalarKind, Scalar, AbiRepresentation, int_rank, int_kind, float_kind, pointer, initialised,
  union_scalar, uninhabited, scalar_abi, pair_abi, vector_abi, aggregate_abi,
}

abbrev bool_eq : Bool → Bool → Bool
bool_eq true b = b
bool_eq false b = not b

abbrev float_eq : FloatTy → FloatTy → Bool
float_eq f32 f32 = true
float_eq f64 f64 = true
float_eq _ _ = false

unfoldable pub kind_eq : ScalarKind → ScalarKind → Bool
kind_eq (int_kind i signed) (int_kind j signed') =
    int_rank i == int_rank j && bool_eq signed signed'
kind_eq (float_kind f) (float_kind g) = float_eq f g
kind_eq (pointer space) (pointer space') = space == space'
kind_eq _ _ = false

unfoldable pub scalar_eq : Scalar → Scalar → Bool
unfolding kind_eq
scalar_eq (initialised k r) (initialised k' r') =
    kind_eq k k' && (r.start == r'.start && r.end == r'.end)
scalar_eq (union_scalar k) (union_scalar k') = kind_eq k k'
scalar_eq _ _ = false

unfoldable pub abi_eq : AbiRepresentation → AbiRepresentation → Bool
unfolding scalar_eq
abi_eq uninhabited uninhabited = true
abi_eq (scalar_abi s) (scalar_abi t) = scalar_eq s t
abi_eq (pair_abi s t) (pair_abi s' t') = scalar_eq s s' && scalar_eq t t'
abi_eq (vector_abi n s) (vector_abi m t) = n == m && scalar_eq s t
abi_eq aggregate_abi aggregate_abi = true
abi_eq _ _ = false
