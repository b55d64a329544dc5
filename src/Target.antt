-- ===== src/Target.antt =====
-- What the compiler knows of a target's memory: compiler/hash-target.
pub mod Size
pub mod Alignment
pub mod Align
pub mod Primitives
pub mod DataLayout
pub mod Abi
pub mod Equal
