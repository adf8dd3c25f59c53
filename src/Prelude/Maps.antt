-- ===== src/Prelude/Maps.antt =====
-- Go maps with text keys that the code only reads and writes by key: functions into `Option`.
use Prim.Native.String.{String}
use mathlib.Core.Path.{◌≡◌}
use mathlib.Core.Logic.{◌≢◌}
use mathlib.Core.Bool.{Bool, false, ◌||◌}
use mathlib.Core.List.{List, [], ◌∷◌}
use mathlib.Core.Option.{Option, none, some}
use native.Mathlib.Omega.{arith}
use text.Mathlib.TextEquality.{eq_iff}
use travel_mcp.Prelude.Tests.{if◌then◌else◌, str_eq}

module _ {ℓ} {V : Type ℓ} where
  abbrev pub update : (String → Option V) → String → V → String → Option V
  update m k v j = if str_eq k j then some v else m j

  pub update_same : (m : String → Option V) (k j : String) (v : V) → k ≡ j → update m k v j ≡ some v
  update_same m k j v e = ground (arith, eq_iff k j)

  pub update_other : (m : String → Option V) (k j : String) (v : V) → k ≢ j → update m k v j ≡ m j
  update_other m k j v e = ground (arith, eq_iff k j)

  -- Go maps that the code also ranges over: association lists, in some order of iteration.
  unfoldable pub lookup : String → List (String × V) → Option V
  lookup k [] = none
  lookup k ((j, v) ∷ m) = if str_eq j k then some v else lookup k m

-- A Go set of texts.
unfoldable pub contains : List String → String → Bool
contains [] k = false
contains (j ∷ js) k = str_eq j k || contains js k
