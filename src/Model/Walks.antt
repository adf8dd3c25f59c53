-- ===== src/Model/Walks.antt =====
-- internal/model/model.go, `BuildWalkTransfers`: walks between stops that are near each other. Stops are
-- within the usual degrees, so that a cell's numbers are not negative.
pub mod Linked
pub mod Loops
pub mod Cells
pub mod Touching
pub mod Complete
pub mod Ways
use mathlib.Core.Option.{get_or}
use travel_mcp.Prelude.{
  ℕ, zero, suc, ◌+◌, ◌==◌, String, Bool, true, false, ◌&&◌, List, [], ◌∷◌, ◌++◌, map, Option, none,
  some, contains, lookup, if◌then◌else◌,
}
use travel_mcp.Strings.{◌<>◌}
use travel_mcp.Float.{Float}
use travel_mcp.Geo.{haversine}
use travel_mcp.Model.{Transfer, Stop, Network, coordinates}

-- `from+"|"+to`
unfoldable pub key : String → String → String
key a b = a <> ("|" <> b)

abbrev pub key_of : Transfer → String
key_of tr = key tr.from_stop_id tr.to_stop_id

abbrev pub Cell : Type 0
Cell = ℕ × ℕ

unfoldable pub same_cell : Cell → Cell → Bool
same_cell (i, j) (k, l) = i == k && j == l

-- `byCell[c] = append(byCell[c], id)`
unfoldable pub into_cell : Cell → String → List (Cell × List String) → List (Cell × List String)
into_cell c id [] = (c, id ∷ []) ∷ []
into_cell c id ((d, ids) ∷ cells) =
    let rest = into_cell c id cells in
    if same_cell d c then (d, ids ++ (id ∷ [])) ∷ cells else (d, ids) ∷ rest

-- `byCell[c]`
unfoldable pub ids_in : List (Cell × List String) → Cell → List String
ids_in [] c = []
ids_in ((d, ids) ∷ cells) c = let rest = ids_in cells c in if same_cell d c then ids else rest

-- The four neighbours whose other four look back; a cell left of the first one has no stops.
unfoldable pub neighbours : Cell → List Cell
neighbours (i, zero) = (suc i, zero) ∷ (i, suc zero) ∷ (suc i, suc zero) ∷ []
neighbours (i, suc j) = (suc i, suc j) ∷ (i, suc (suc j)) ∷ (suc i, suc (suc j)) ∷ (suc i, j) ∷ []

-- The transfers, and the keys of those that there are.
pub record Walks : Type 0 where
  pub transfers : List Transfer
  pub seen : List String

module _ {F : Type 0} ⦃fl : Float F⦄ where
  open fl use {of_ℕ, add, mul, div, lt, trunc}

  abbrev pub walk_transfer_radius_m : F
  walk_transfer_radius_m = of_ℕ 400

  unfoldable pub walk_transfer_minutes : F → ℕ
  walk_transfer_minutes dist_m = trunc (mul (div dist_m (of_ℕ 5000)) (of_ℕ 60)) + 2

  unfoldable pub walk_cell : Stop F → Cell
  walk_cell s =
      (trunc (mul (add s.lat (of_ℕ 90)) (of_ℕ 10)), trunc (mul (add s.lon (of_ℕ 180)) (of_ℕ 10)))

  unfoldable pub by_cell :
      (String → Bool)
      → List (Cell × List String)
      → List (String × Stop F)
      → List (Cell × List String)
  by_cell provisional cells [] = cells
  by_cell provisional cells ((id, s) ∷ stops) =
      by_cell provisional (if provisional id then cells else into_cell (walk_cell s) id cells) stops

  unfoldable pub walk : String → String → F → Transfer
  walk a b dist_m = record {
    from_stop_id = a;
    to_stop_id = b;
    minutes = walk_transfer_minutes dist_m;
    min_transfer_time = 0;
    distance_m = 0;
  }

  unfoldable pub add_missing : String → String → F → Walks → Walks
  add_missing a b dist_m w = if contains w.seen (key a b) then w else record {
    transfers = w.transfers ++ (walk a b dist_m ∷ []);
    seen = w.seen ++ (key a b ∷ []);
  }

  unfoldable pub dist_m : Stop F → Stop F → F
  dist_m s t = mul (haversine (coordinates s) (coordinates t)) (of_ℕ 1000)

  -- The body of the loops over pairs.
  unfoldable pub link : List (String × Stop F) → Walks → String → String → Walks
  link stops w a b = elim (lookup a stops) [
    | none ↦ w
    | some s ↦ elim (lookup b stops) [
      | none ↦ w
      | some t ↦
          let d = dist_m s t in
          if lt walk_transfer_radius_m d then w else add_missing b a d (add_missing a b d w)
    ]
  ]

  unfoldable pub link_with : List (String × Stop F) → String → Walks → List String → Walks
  link_with stops a w [] = w
  link_with stops a w (b ∷ bs) = link_with stops a (link stops w a b) bs

  -- The pairs of a cell.
  unfoldable pub link_cell : List (String × Stop F) → Walks → List String → Walks
  link_cell stops w [] = w
  link_cell stops w (a ∷ ids) = link_cell stops (link_with stops a w ids) ids

  unfoldable pub link_cells : List (String × Stop F) → Walks → List (Cell × List String) → Walks
  link_cells stops w [] = w
  link_cells stops w ((c, ids) ∷ cells) = link_cells stops (link_cell stops w ids) cells

  -- The pairs of two cells.
  unfoldable pub link_across : List (String × Stop F) → Walks → List String → List String → Walks
  link_across stops w [] others = w
  link_across stops w (a ∷ ids) others = link_across stops (link_with stops a w others) ids others

  unfoldable pub link_neighbours :
      List (String × Stop F) → List (Cell × List String) → List String → Walks → List Cell → Walks
  link_neighbours stops all ids w [] = w
  link_neighbours stops all ids w (c ∷ cs) =
      link_neighbours stops all ids (link_across stops w ids (ids_in all c)) cs

  unfoldable pub link_borders :
      List (String × Stop F) → List (Cell × List String) → Walks → List (Cell × List String) → Walks
  link_borders stops all w [] = w
  link_borders stops all w ((c, ids) ∷ cells) =
      link_borders stops all (link_neighbours stops all ids w (neighbours c)) cells

  abbrev pub is_provisional : Network F → String → Bool
  is_provisional net id = get_or (lookup id net.provisional_stops) false

  unfoldable pub walks : Network F → Walks
  walks net =
      let cells = by_cell (is_provisional net) [] net.stops in
      let start : Walks = record { transfers = net.transfers; seen = map key_of net.transfers } in
      link_borders net.stops cells (link_cells net.stops start cells) cells

  unfoldable pub build_walk_transfers : Network F → Network F
  build_walk_transfers net = record net { transfers = (walks net).transfers }
