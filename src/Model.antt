-- ===== src/Model.antt =====
-- internal/model/model.go: the canonical network. A `time.Time` is a number of seconds, modes and
-- stop types are the texts that they are in the source, and coordinates are of a type `F`.
pub mod Indexes
pub mod Walks
pub mod Modes
use travel_mcp.Prelude.{ℕ, String, Bool, List, Option, ℤ}

-- Times of day and durations are in seconds; `time.Minute` is 60 of them.
abbrev pub minute : ℕ
minute = 60

abbrev pub day : ℕ
day = 86400

pub record Transfer : Type 0 where
  pub from_stop_id : String
  pub to_stop_id : String
  pub minutes : ℕ
  pub min_transfer_time : ℕ
  pub distance_m : ℕ

pub record Connection : Type 0 where
  pub trip_id : String
  pub provider_id : String
  pub route_id : String
  pub mode : String
  pub from : String
  pub to : String
  pub departure : ℕ
  pub arrival : ℕ
  pub distance_m : ℕ

pub record Coords (F : Type 0) : Type 0 where
  pub lat : F
  pub lon : F

-- `GeoCell`, an index key that is derived from the coordinates, is left out.
pub record Stop (F : Type 0) : Type 0 where
  pub id : String
  pub provider_id : String
  pub name : String
  pub lat : F
  pub lon : F
  pub stop_type : String
  pub zone_id : String

abbrev pub coordinates : {F : Type 0} → Stop F → Coords F
coordinates s = record { lat = s.lat; lon = s.lon }

pub record StopTime : Type 0 where
  pub stop_id : String
  pub sequence : ℕ
  pub arrival_sec : ℕ
  pub departure_sec : ℕ
  pub is_provisional : Bool

pub record Trip : Type 0 where
  pub id : String
  pub route_id : String
  pub provider_id : String
  pub mode : String
  pub stop_times : List StopTime

pub record FareAttribute (F : Type 0) : Type 0 where
  pub fare_id : String
  pub price : F
  pub currency : String

pub record FareRule : Type 0 where
  pub fare_id : String
  pub route_id : String
  pub origin_zone : Option String
  pub destination_zone : Option String

-- The fields that the planner and the pricing read. A map is an association list; a text that is no
-- key of it reads as a missing one.
pub record Network (F : Type 0) : Type 0 where
  pub stops : List (String × Stop F)
  pub trips : List (String × Trip)
  pub connections : List Connection
  pub transfers : List Transfer
  pub fare_attributes : List (String × FareAttribute F)
  pub fare_rules : List FareRule
  pub stop_zones : List (String × String)
  pub transfers_by_stop : List (String × List Transfer)
  pub provisional_stops : List (String × Bool)

-- `MaxTransfers` and `MaxWalkMinutes` are signed in the source, and the code asks for their sign.
pub record SearchParams : Type 0 where
  pub departure : ℕ
  pub arrival : Option ℕ
  pub max_transfers : ℤ
  pub allowed_modes : List String
  pub max_walk_minutes : ℤ
  pub allow_gap : Bool
  pub preference : String

pub record Cost (F : Type 0) : Type 0 where
  pub has : Bool
  pub amount : F
  pub currency : String
  pub basis : String
  pub method : String

pub record LegPoint (F : Type 0) : Type 0 where
  pub stop_id : String
  pub name : String
  pub lat : F
  pub lon : F

pub record Leg (F : Type 0) : Type 0 where
  pub mode : String
  pub provider_id : String
  pub route_id : String
  pub trip_id : String
  pub from : LegPoint F
  pub to : LegPoint F
  pub departure : ℕ
  pub arrival : ℕ
  pub self_provided : Bool
  pub cost : Cost F

-- A journey has alternatives of a type `A`: those of an answer have alternatives again, and those of
-- an alternative's alternative have none.
pub record Journey (F A : Type 0) : Type 0 where
  pub from : Coords F
  pub to : Coords F
  pub departure : ℕ
  pub arrival : ℕ
  pub legs : List (Leg F)
  pub transfers : ℕ
  pub alternatives : List A
