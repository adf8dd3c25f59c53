-- ===== src/Float.antt =====
-- What the code uses of Go's `float64` and of package `math`. The numbers are a type `F` with these
-- operations; `trunc` is the conversion to an `int` and `ceil` that of `math.Ceil(x)`,
-- `floor` that of `math.Floor(x)`.
use travel_mcp.Prelude.{ℕ, ℤ, Bool}

pub record Float (F : Type 0) : Type 0 where
  pub of_ℕ : ℕ → F
  pub add : F → F → F
  pub sub : F → F → F
  pub mul : F → F → F
  pub div : F → F → F
  pub lt : F → F → Bool
  pub le : F → F → Bool
  pub eq : F → F → Bool
  pub sin : F → F
  pub cos : F → F
  pub asin : F → F
  pub sqrt : F → F
  pub pi : F
  pub is_inf : F → Bool
  pub is_nan : F → Bool
  pub trunc : F → ℕ
  pub ceil : F → ℕ
  pub floor : F → ℤ
