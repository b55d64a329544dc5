-- ===== src/Target/Primitives.antt =====
-- compiler/hash-target/src/primitives.rs: the primitive types.

pub data SIntTy : Type 0 where
  i8 i16 i32 i64 i128 isize : SIntTy

pub data UIntTy : Type 0 where
  u8 u16 u32 u64 u128 usize : UIntTy

pub data BigIntTy : Type 0 where
  ibig ubig : BigIntTy

pub data IntTy : Type 0 where
  int : SIntTy → IntTy
  uint : UIntTy → IntTy
  big : BigIntTy → IntTy

pub data FloatTy : Type 0 where
  f32 f64 : FloatTy
