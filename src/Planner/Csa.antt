-- ===== src/Planner/Csa.antt =====
-- internal/planner/planner.go, `csa`: the whole search over one network.
pub mod Order
pub mod Search
pub mod Indexed
use mathlib.Core.Option.{get_or}
use travel_mcp.Prelude.{
  ℕ, zero, suc, ◌-◌, String, Bool, true, false, not, ◌&&◌, ◌||◌, List, [], ◌∷◌, Option, none, some,
  ltb, ◌==◌, str_eq, if◌then◌else◌, lookup, contains, length, last?, keep, ℤ, pos, negsuc,
}
use travel_mcp.Model.{Connection, Transfer, Network, SearchParams, Leg}
use travel_mcp.Float.{Float}
use travel_mcp.Planner.Result.{
  Result, ok, err, no_route, too_many_transfers, transfers_forbidden, nil_stop, out_of_fuel,
}
use travel_mcp.Planner.Scan.{Labels, Graph, labels}
use travel_mcp.Planner.Speed.{is_implausible_connection}
use travel_mcp.Planner.Route.{reconstruct}
use travel_mcp.Planner.Legs.{build_legs}

-- `len(allowed) > 0 && !allowed[mode]` passes the connection over.
unfoldable pub mode_allowed : List String → String → Bool
mode_allowed [] mode = true
mode_allowed (m ∷ modes) mode = contains (m ∷ modes) mode

-- By departure, and by arrival among equals.
pub departs_before : Connection → Connection → Bool
departs_before a b =
    if a.departure == b.departure then ltb a.arrival b.arrival else ltb a.departure b.departure

pub insert_conn : Connection → List Connection → List Connection
insert_conn c [] = c ∷ []
insert_conn c (d ∷ ds) = if departs_before d c then d ∷ insert_conn c ds else c ∷ d ∷ ds

-- What `sort.Slice` does with that order.
pub sort_conns : List Connection → List Connection
sort_conns [] = []
sort_conns (c ∷ cs) = insert_conn c (sort_conns cs)

-- `conns[0].Departure.After(conns[len(conns)-1].Departure)`
unfoldable pub first_after_last : List Connection → Bool
first_after_last [] = false
first_after_last (c ∷ cs) = elim (last? (c ∷ cs)) [
  | none ↦ false
  | some z ↦ ltb z.departure c.departure
]

unfoldable pub scan_order : List Connection → List Connection
scan_order conns = if first_after_last conns then sort_conns conns else conns

-- The index of the transfers by their first stop, built here if the network has none.
unfoldable pub transfers_from :
    List (String × List Transfer) → List Transfer → String → List Transfer
transfers_from [] transfers s = keep (λ tr. str_eq tr.from_stop_id s) transfers
transfers_from (e ∷ index) transfers s = get_or (lookup s (e ∷ index)) []

-- The two tests on the number of transfers; a negative limit is none.
unfoldable pub check_transfers : {F : Type 0} → ℤ → List (Leg F) → Result (List (Leg F))
check_transfers (negsuc n) legs = ok legs
check_transfers (pos zero) legs =
    if ltb 0 (length legs - 1) then err transfers_forbidden else ok legs
check_transfers (pos (suc n)) legs =
    if ltb (suc n) (length legs - 1)
    then err (too_many_transfers (length legs - 1) (suc n))
    else ok legs

module _ {F : Type 0} ⦃fl : Float F⦄ where
  unfoldable pub graph : Network F → SearchParams → Graph
  graph net params = record {
    provisional = λ s. get_or (lookup s net.provisional_stops) false;
    transfers_from = transfers_from net.transfers_by_stop net.transfers;
    boards = λ c. mode_allowed params.allowed_modes c.mode && not (is_implausible_connection c net);
  }

  -- From the labels on: the target was reached, its route is read off, and the legs are built.
  unfoldable pub finish :
      ℕ → Network F → String → String → SearchParams → Labels → Result (List (Leg F))
  finish fuel net from_stop to_stop params l = elim (l.pred to_stop) [
    | none ↦ err no_route
    | some p ↦ elim (reconstruct fuel l.pred from_stop to_stop) [
      | none ↦ err out_of_fuel
      | some steps ↦ elim (build_legs net.stops l.arr steps) [
        | none ↦ err nil_stop
        | some legs ↦ check_transfers params.max_transfers legs
      ]
    ]
  ]

  unfoldable pub csa : ℕ → Network F → String → String → ℕ → SearchParams → Result (List (Leg F))
  csa fuel net from_stop to_stop depart params =
      elim (labels (graph net params) fuel (scan_order net.connections) from_stop depart) [
        | none ↦ err out_of_fuel
        | some l ↦ finish fuel net from_stop to_stop params l
      ]
