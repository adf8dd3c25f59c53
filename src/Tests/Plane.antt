-- ===== src/Tests/Plane.antt =====
-- A plane in place of the globe: whole numbers, on which sines are the arguments themselves.
use travel_mcp.Prelude.{
  ℕ, ◌+◌, ◌-◌, ◌*◌, ◌/◌, String, false, [], ◌∷◌, none, ltb, leb, ◌==◌, pos, negsuc,
}
use travel_mcp.Model.{Stop, Connection, Transfer, Network, SearchParams}
use travel_mcp.Float.{Float}

instance abbrev pub plane : Float ℕ
plane = record {
  of_ℕ = λ n. n;
  add = λ a b. a + b;
  sub = λ a b. a - b;
  mul = λ a b. a * b;
  div = λ a b. a / b;
  lt = ltb;
  le = leb;
  eq = λ a b. a == b;
  sin = λ x. x;
  cos = λ x. 1;
  asin = λ x. x;
  sqrt = λ x. x;
  pi = 3;
  is_inf = λ x. false;
  is_nan = λ x. false;
  trunc = λ x. x;
  ceil = λ x. x;
  floor = λ x. pos x;
}

abbrev pub stop : String → String → Stop ℕ
stop id name = record {
  id = id;
  provider_id = "p";
  name = name;
  lat = 1;
  lon = 1;
  stop_type = "station";
  zone_id = "";
}

abbrev pub bus : String → String → String → ℕ → ℕ → Connection
bus trip from to dep arr = record {
  trip_id = trip;
  provider_id = "p";
  route_id = "r";
  mode = "bus";
  from = from;
  to = to;
  departure = dep;
  arrival = arr;
  distance_m = 0;
}

abbrev pub footpath : String → String → ℕ → Transfer
footpath from to minutes = record {
  from_stop_id = from;
  to_stop_id = to;
  minutes = minutes;
  min_transfer_time = 0;
  distance_m = 0;
}

-- Two buses from A to B and a footpath on to C, from where a third bus goes to D.
abbrev pub town : Network ℕ
town = record {
  stops =
      ("A", stop "A" "Alpha")
      ∷ ("B", stop "B" "Beta")
      ∷ ("C", stop "C" "Gamma")
      ∷ ("D", stop "D" "Delta")
      ∷ [];
  trips = [];
  connections =
      bus "t1" "A" "B" 600 1800 ∷ bus "t2" "A" "B" 900 1500 ∷ bus "t3" "C" "D" 2400 3000 ∷ [];
  transfers = footpath "B" "C" 10 ∷ [];
  fare_attributes = [];
  fare_rules = [];
  stop_zones = [];
  transfers_by_stop = [];
  provisional_stops = [];
}

abbrev pub anyhow : SearchParams
anyhow = record {
  departure = 300;
  arrival = none;
  max_transfers = negsuc 0;
  allowed_modes = [];
  max_walk_minutes = pos 30;
  allow_gap = false;
  preference = "";
}
