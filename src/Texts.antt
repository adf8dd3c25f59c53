-- ===== src/Texts.antt =====
-- What the code uses of Go's package `strings`, as an interface. `trim_cut` is `strings.Trim` with its
-- cutset, `runes` the length of `[]rune(s)`, `bytes` that of the text.
use travel_mcp.Prelude.{ℕ, String, Bool, List}

pub record Texts : Type 0 where
  pub lower : String → String
  pub upper : String → String
  pub trim_space : String → String
  pub trim_cut : String → String → String
  pub fields : String → List String
  pub split : String → String → List String
  pub has : String → String → Bool
  pub has_prefix : String → String → Bool
  pub has_suffix : String → String → Bool
  pub runes : String → ℕ
  pub bytes : String → ℕ
