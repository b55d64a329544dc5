-- ===== src/Exhaustiveness.antt =====
-- Exhaustiveness checking of patterns: compiler/hash-exhaustiveness.
pub mod Range
pub mod Array
pub mod Construct
pub mod Wildcard
