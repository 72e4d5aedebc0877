-- ===== src/Base/Float.antt =====
-- IEEE floating point (`f64`, `f32`), which antt does not have: the types, their constants and
-- their operations are parameters.
use lanscope.Base.{ℕ, Bool}
use lanscope.Base.Text.{Bytes}

pub record Floats : Type 1 where
  pub F64 : Type 0
  pub F32 : Type 0
  -- `n as f64`, `n as f32`, `x as f32`
  pub of_int : ℕ → F64
  pub of_int32 : ℕ → F32
  pub narrow : F64 → F32
  -- the decimal literal n / 10 ^ k
  pub literal : ℕ → ℕ → F64
  pub add : F64 → F64 → F64
  pub sub : F64 → F64 → F64
  pub mul : F64 → F64 → F64
  pub div : F64 → F64 → F64
  -- `a < b` and `a <= b`
  pub lt : F64 → F64 → Bool
  pub le : F64 → F64 → Bool
  pub literal32 : ℕ → ℕ → F32
  pub le32 : F32 → F32 → Bool
  -- `{:.0}` and `{:.2}`
  pub print_rounded : F64 → Bytes
  pub print_two_places : F32 → Bytes
