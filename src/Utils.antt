-- ===== src/Utils.antt =====
-- The shared utilities of the compiler: compiler/hash-utils.
pub mod RangeMap
