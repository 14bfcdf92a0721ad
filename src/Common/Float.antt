-- ===== src/Common/Float.antt =====
-- `f64`, its arithmetic and its conversions, as an interface: the models have no floating point. Nothing
-- is assumed of the operations; what is proved holds for whatever they return. That a conversion
-- to a duration is in range, and does not panic, is left to it.
use Prim.Native.Nat.{ℕ}
use mathlib.Core.Bool.{Bool}

pub record Float : Type 1 where
  pub F : Type 0
  pub of_nat : ℕ → F
  pub plus : F → F → F
  pub minus : F → F → F
  pub times : F → F → F
  pub over : F → F → F
  pub smaller : F → F → F
  pub larger : F → F → F
  -- f64::MIN_POSITIVE
  pub min_positive : F
  -- `a <= b`
  pub le : F → F → Bool
  -- `a < b` and `a == b`
  pub lt : F → F → Bool
  pub eq : F → F → Bool
  -- 1e-9
  pub epsilon : F
  -- Duration::as_secs_f64 and Duration::from_secs_f64
  pub as_secs : ℕ → F
  pub from_secs : F → ℕ
