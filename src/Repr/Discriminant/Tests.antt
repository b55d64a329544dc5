-- ===== src/Repr/Discriminant/Tests.antt =====
-- compiler/hash-repr/src/compute.rs and ty.rs: the tags of two enums, one with a negative discriminant.
use hashc.Prelude.{ℕ, ◌-◌, ◌^◌, ◌≡◌, refl, true, false, [], ◌∷◌, List, arith}
use hashc.Target.Size.{from_bits}
use hashc.Target.DataLayout.{int8, int16}
use hashc.Target.Abi.{is_uninhabited}
use hashc.Repr.Layout.{done, Layout}
use hashc.Repr.Discriminant.{
  Adt, any_uninhabited, compute_discriminant_range, discriminant_representation,
}
use hashc.Repr.Discriminant.Tag.{Holds, discriminant_representation-Holds}
use hashc.Repr.Univariant.Tests.{target, byte, optimised}

abbrev enum_of : List ℕ → Adt
enum_of discriminants = record {
  discriminants = discriminants;
  is_struct = false;
  is_tuple = false;
  is_union = false;
  is_enum = true;
  metadata = optimised;
}

abbrev rows : List (List Layout)
rows = [] ∷ (byte ∷ []) ∷ []

range_run : compute_discriminant_range target (enum_of (3 ∷ 300 ∷ [])) rows ≡ done (3, 300)
unfolding compute_discriminant_range from_bits is_uninhabited
range_run = refl

representation_run :
    discriminant_representation (enum_of (3 ∷ 300 ∷ [])) target 3 300 ≡ done (int16, false)
unfolding discriminant_representation
representation_run = refl

-- The discriminants -1 and 5.
negative_run :
    compute_discriminant_range target (enum_of ((2 ^ 128 - 1) ∷ 5 ∷ [])) rows
    ≡ done (2 ^ 128 - 1, 5)
unfolding compute_discriminant_range from_bits is_uninhabited
negative_run = refl

negative_representation_run :
    discriminant_representation (enum_of ((2 ^ 128 - 1) ∷ 5 ∷ [])) target (2 ^ 128 - 1) 5
    ≡ done (int8, true)
unfolding discriminant_representation
negative_representation_run = refl

byte_is_inhabited : any_uninhabited (byte ∷ []) ≡ false
unfolding any_uninhabited is_uninhabited
byte_is_inhabited = refl

discriminant_representation-Holds_example : Holds int16 false 300
discriminant_representation-Holds_example =
    discriminant_representation-Holds target (enum_of (3 ∷ 300 ∷ [])) rows 3 300 int16 false 1 300
      (byte ∷ []) refl (omega arith, (omega arith, tt)) (omega arith) range_run representation_run
      refl refl byte_is_inhabited
