-- ===== src/Base/Float.antt =====
-- `f32`: a value is a number that stands for its bit pattern, and the operations of the processor
-- are a parameter of the definitions that use them.
use Prim.Native.Nat.{ℕ}
use mathlib.Core.Bool.{Bool}

abbrev pub F32 : Type 0
F32 = ℕ

pub record FloatOps : Type 0 where
  pub add : F32 → F32 → F32
  pub sub : F32 → F32 → F32
  pub mul : F32 → F32 → F32
  pub div : F32 → F32 → F32
  pub gt : F32 → F32 → Bool
  pub zero_f : F32
  pub one_f : F32
  pub neg_one_f : F32
  -- `as f32` of a `u64`.
  pub of_u64 : ℕ → F32
