-- ===== src/Model/Modes/Named.antt =====
-- The modes that a list of names comes to.
use travel_mcp.Prelude.{
  ◌≡◌, refl, sym, ap, ◌∙◌, inl, inr, String, Bool, true, false, ◌||◌, List, [], ◌∷◌, ◌++◌, Option,
  none, some, str_eq, contains, lookup, arith, eq_iff, if◌then◌else◌, Bool-cases, Option-cases,
}
use travel_mcp.Strings.{split_on, trim_space}
use travel_mcp.Model.Modes.{mode_of, add_modes, parse_transit_modes, parse_transit_mode}

abbrev is_mode : String → Option String → Bool
is_mode m none = false
is_mode m (some n) = str_eq n m

-- The names of the modes; a coach is a bus.
abbrev pub mode_names : List (String × String)
mode_names =
    ("bus", "bus")
    ∷ ("BUS", "bus")
    ∷ ("coach", "bus")
    ∷ ("COACH", "bus")
    ∷ ("tram", "tram")
    ∷ ("TRAM", "tram")
    ∷ ("rail", "rail")
    ∷ ("RAIL", "rail")
    ∷ ("metro", "metro")
    ∷ ("METRO", "metro")
    ∷ ("flight", "flight")
    ∷ ("FLIGHT", "flight")
    ∷ ("walk", "walk")
    ∷ ("WALK", "walk")
    ∷ []

-- Whether one of the parts, less the space around it, is a name of the mode.
abbrev pub names : String → List String → Bool
names m [] = false
names m (part ∷ parts) = is_mode m (lookup (trim_space part) mode_names) || names m parts

lookup-two :
    (s a b v : String) (rest : List (String × String)) (r : Option String)
    → r ≡ lookup s rest
    → (if str_eq s a || str_eq s b then some v else r) ≡ lookup s ((a, v) ∷ (b, v) ∷ rest)
unfolding lookup
lookup-two s a b v rest r e = ground (arith, e, eq_iff s a, eq_iff a s, eq_iff s b, eq_iff b s)

parse_transit_mode-lookup : (s : String) → parse_transit_mode s ≡ lookup s mode_names
unfolding parse_transit_mode lookup
parse_transit_mode-lookup s =
    let walks : List (String × String) = ("walk", "walk") ∷ ("WALK", "walk") ∷ [] in
    let flights : List (String × String) = ("flight", "flight") ∷ ("FLIGHT", "flight") ∷ walks in
    let metros : List (String × String) = ("metro", "metro") ∷ ("METRO", "metro") ∷ flights in
    let rails : List (String × String) = ("rail", "rail") ∷ ("RAIL", "rail") ∷ metros in
    let trams : List (String × String) = ("tram", "tram") ∷ ("TRAM", "tram") ∷ rails in
    let coaches : List (String × String) = ("coach", "bus") ∷ ("COACH", "bus") ∷ trams in
    (lookup-two s "bus" "BUS" "bus" coaches _ (
      lookup-two s "coach" "COACH" "bus" trams _ (
        lookup-two s "tram" "TRAM" "tram" rails _ (
          lookup-two s "rail" "RAIL" "rail" metros _ (
            lookup-two s "metro" "METRO" "metro" flights _ (
              lookup-two s "flight" "FLIGHT" "flight" walks _
                (lookup-two s "walk" "WALK" "walk" [] _ refl)))))))

mode_of-lookup : (part : String) → mode_of part ≡ lookup (trim_space part) mode_names
unfolding mode_of lookup
mode_of-lookup part = elim (Bool-cases (str_eq (trim_space part) "")) [
  | inl y ↦
      rw (y, mode_of) (sym (ap (λ z. lookup z mode_names) ((eq_iff (trim_space part) "").0 y)))
  | inr n ↦ rw (n, mode_of) (parse_transit_mode-lookup (trim_space part))
]

contains-snoc :
    (ks : List String) (k m : String) → contains (ks ++ (k ∷ [])) m ≡ (contains ks m || str_eq k m)
unfolding contains
contains-snoc [] k m = ground arith
contains-snoc (i ∷ ks) k m = ground (arith, contains-snoc ks k m)

contains_same :
    (ks : List String) (k m : String) → str_eq k m ≡ true → contains ks k ≡ contains ks m
unfolding contains
contains_same ks k m y = ap (contains ks) ((eq_iff k m).0 y)

contains-add_modes :
    (m : String) (parts out : List String)
    → contains (add_modes out parts) m ≡ (contains out m || names m parts)
unfolding add_modes
contains-add_modes m [] out = ground arith
contains-add_modes m (part ∷ parts) out =
    rw (sym (mode_of-lookup part)) (elim (Option-cases (mode_of part)) [
      | inl n ↦ rw (n, add_modes) (contains-add_modes m parts out)
      | inr (k, e) ↦ elim (Bool-cases (contains out k)) [
        | inl y ↦
            let rest = contains-add_modes m parts out in
            elim (Bool-cases (str_eq k m)) [
              | inl z ↦
                  let known = sym (contains_same out k m z) ∙ y in
                  rw (e, y, add_modes) (ground arith)
              | inr w ↦ rw (e, y, w, add_modes) rest
            ]
        | inr n ↦
            let rest = contains-add_modes m parts (out ++ (k ∷ [])) in
            let new = contains-snoc out k m in rw (e, n, add_modes) (ground arith)
      ]
    ])

-- No mode stands twice.
abbrev pub NoneTwice : List String → Type 0
NoneTwice [] = Unit
NoneTwice (m ∷ ms) = (contains ms m ≡ false) × NoneTwice ms

NoneTwice-snoc :
    (ks : List String) (k : String)
    → NoneTwice ks
    → contains ks k ≡ false
    → NoneTwice (ks ++ (k ∷ []))
unfolding contains
NoneTwice-snoc [] k h f = (refl, tt)
NoneTwice-snoc (i ∷ ks) k (h, hs) f = (
  contains-snoc ks k i ∙ ground (arith, eq_iff i k, eq_iff k i),
  NoneTwice-snoc ks k hs (ground arith),
)

add_modes-NoneTwice : (parts out : List String) → NoneTwice out → NoneTwice (add_modes out parts)
unfolding add_modes
add_modes-NoneTwice [] out h = h
add_modes-NoneTwice (part ∷ parts) out h = elim (Option-cases (mode_of part)) [
  | inl n ↦ rw (n, add_modes) (add_modes-NoneTwice parts out h)
  | inr (k, e) ↦ elim (Bool-cases (contains out k)) [
    | inl y ↦ rw (e, y, add_modes) (add_modes-NoneTwice parts out h)
    | inr n ↦
        rw (e, n, add_modes)
          (add_modes-NoneTwice parts (out ++ (k ∷ [])) (NoneTwice-snoc out k h n))
  ]
]

-- The modes of a text that is not empty are those that its parts between commas name, less the space
-- around them, each of them once.
pub parse_transit_modes_lem :
    (csv m : String)
    → str_eq csv "" ≡ false
    → (contains (parse_transit_modes csv) m ≡ names m (split_on 44 csv))
      × NoneTwice (parse_transit_modes csv)
unfolding parse_transit_modes contains
parse_transit_modes_lem csv m given =
    rw (given, parse_transit_modes)
      (contains-add_modes m (split_on 44 csv) [], add_modes-NoneTwice (split_on 44 csv) [] tt)
