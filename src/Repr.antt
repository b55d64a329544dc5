-- ===== src/Repr.antt =====
-- compiler/hash-repr: the layout of types in memory. `Layout` holds the data of lib.rs; the others are the
-- parts of compute.rs.
pub mod Layout
pub mod Placement
pub mod ScalarLike
pub mod Univariant
pub mod Target
pub mod Primitive
pub mod Compound
pub mod Discriminant
pub mod EnumAbi
pub mod Enum
pub mod Adt
