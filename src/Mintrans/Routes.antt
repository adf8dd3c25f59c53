-- ===== src/Mintrans/Routes.antt =====
-- internal/adapters/mintrans/trips.go, `FlattenTrips`: the stops and the routes by their keys, the ends of
-- a route, and what the trips of a schedule share.
use travel_mcp.Prelude.{
  String, ◌&&◌, ◌||◌, List, [], ◌∷◌, Option, none, some, str_eq, if◌then◌else◌, update, last?,
}
use travel_mcp.Mintrans.Register.{
  null, ReestrRoute, ReestrStop, ReestrSchedStop, ReestrSched, FlatTrip,
}

-- `stops[id]`, the last stop of that id.
unfoldable pub stop_by_id :
    {F : Type 0} → ReestrStop F → List (ReestrStop F) → String → ReestrStop F
stop_by_id found [] id = found
stop_by_id found (st ∷ stops) id = stop_by_id (if str_eq st.id id then st else found) stops id

abbrev pub no_stop : {F : Type 0} → ReestrStop F
no_stop = record { id = ""; name = ""; region = ""; op_reg = ""; lat = none; lon = none }

-- `carrier[reg]`, the last route of that number.
unfoldable pub route_by_reg : ReestrRoute → List ReestrRoute → String → ReestrRoute
route_by_reg found [] reg = found
route_by_reg found (r ∷ routes) reg =
    route_by_reg (if str_eq r.reg reg then r else found) routes reg

abbrev pub no_route : ReestrRoute
no_route = record { reg = ""; name = ""; order = null; carrier = ""; carrier_inn = "" }

unfoldable pub ends_of : (String → Option (String × String)) → String → String × String
ends_of m route = elim (m route) [ none ↦ ("", "") | some ep ↦ ep ]

unfoldable pub last_stop : ReestrSchedStop → List ReestrSchedStop → String
last_stop s rest = elim (last? (s ∷ rest)) [ none ↦ "" | some l ↦ l.stop ]

-- The first and the last stop of a route: those of a schedule forward, else of the first one backward.
unfoldable pub note_ends :
    (String → Option (String × String)) → ReestrSched → String → Option (String × String)
note_ends m sc = elim sc.stops [
  | [] ↦ m
  | s ∷ rest ↦
      let ep = ends_of m sc.route in
      if str_eq sc.direction "forward"
        || (str_eq sc.direction "backward" && (str_eq ep.0 "" && str_eq ep.1 ""))
      then update m sc.route (s.stop, last_stop s rest)
      else m
]

unfoldable pub endpoints :
    (String → Option (String × String)) → List ReestrSched → String → Option (String × String)
endpoints m [] = m
endpoints m (sc ∷ scheds) = endpoints (note_ends m sc) scheds

unfoldable pub base_trip :
    {F : Type 0}
    → List ReestrRoute
    → (String → Option (String × String))
    → ReestrSched
    → String
    → FlatTrip F
base_trip routes ends sc period =
    let r = route_by_reg no_route routes sc.route in
    let ep = ends_of ends sc.route in
    record {
      route_reg = sc.route;
      direction = sc.direction;
      service_id = sc.service_id;
      run = 0;
      period = period;
      carrier = r.carrier;
      carrier_inn = r.carrier_inn;
      route_from = ep.0;
      route_to = ep.1;
      stops = [];
      untimed = [];
      frequency_only = str_eq period "";
      weekdays = none;
    }
