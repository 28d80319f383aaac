-- ===== src/Base/Float64.antt =====
-- The float64 type of the language: its operations, with no law assumed of any of them.
use mathlib.Core.Bool.{Bool, not, ◌&&◌}
use neurosymbolic_system.Base.Int.{ℤ, Duration}

pub record Floats : Type 1 where
  pub F : Type 0
  pub f_zero : F
  pub f_half : F
  pub f_one : F
  pub f_pi : F
  pub f_add : F → F → F
  pub f_sub : F → F → F
  pub f_mul : F → F → F
  pub f_div : F → F → F
  pub f_mod : F → F → F
  pub f_cos : F → F
  pub f_lt : F → F → Bool
  pub f_le : F → F → Bool
  pub f_eq : F → F → Bool
  pub is_nan : F → Bool
  pub is_inf : F → Bool
  pub seconds : Duration → F
  pub of_int : ℤ → F

-- `isFinite`
unfoldable pub is_finite : (fl : Floats) → fl.F → Bool
is_finite fl x = not (fl.is_nan x) && not (fl.is_inf x)
