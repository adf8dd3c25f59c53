-- ===== src/Model/Modes.antt =====
-- internal/model/model.go: the modes that a query names, `ParseTransitMode` and `ParseTransitModes`.
pub mod Named
use travel_mcp.Prelude.{
  String, Bool, true, false, ◌||◌, List, [], ◌∷◌, ◌++◌, Option, none, some, str_eq, if◌then◌else◌,
  contains,
}
use travel_mcp.Strings.{trim_space, split_on}

-- A coach is a bus.
unfoldable pub parse_transit_mode : String → Option String
parse_transit_mode s =
    if str_eq s "bus" || str_eq s "BUS"
    then some "bus"
    else if str_eq s "coach" || str_eq s "COACH"
    then some "bus"
    else if str_eq s "tram" || str_eq s "TRAM"
    then some "tram"
    else if str_eq s "rail" || str_eq s "RAIL"
    then some "rail"
    else if str_eq s "metro" || str_eq s "METRO"
    then some "metro"
    else if str_eq s "flight" || str_eq s "FLIGHT"
    then some "flight"
    else if str_eq s "walk" || str_eq s "WALK"
    then some "walk"
    else none

-- The mode of a part, unless the part is empty.
unfoldable pub mode_of : String → Option String
mode_of part = let p = trim_space part in if str_eq p "" then none else parse_transit_mode p

-- The modes so far and those of the parts, each once; `seen` holds the same modes as `out`.
unfoldable pub add_modes : List String → List String → List String
add_modes out [] = out
add_modes out (part ∷ parts) = elim (mode_of part) [
  | none ↦ add_modes out parts
  | some m ↦ add_modes (if contains out m then out else out ++ (m ∷ [])) parts
]

unfoldable pub parse_transit_modes : String → List String
parse_transit_modes csv = if str_eq csv "" then [] else add_modes [] (split_on 44 csv)
