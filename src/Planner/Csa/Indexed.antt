-- ===== src/Planner/Csa/Indexed.antt =====
-- The search on a network with its index of transfers, and without.
use travel_mcp.Prelude.{ℕ, ◌≡◌, refl, ap, String, List, [], ◌∷◌, none, some, str_eq, keep, lookup}
use travel_mcp.Model.{Transfer, Network, SearchParams}
use travel_mcp.Model.Indexes.{index_transfers, build_indexes}
use travel_mcp.Model.Indexes.Built.{under, under-index_transfers}
use travel_mcp.Float.{Float}
use travel_mcp.Planner.Result.{err, out_of_fuel}
use travel_mcp.Planner.Scan.{labels}
use travel_mcp.Planner.Speed.{is_implausible_connection}
use travel_mcp.Planner.Csa.{scan_order, transfers_from, graph, finish, csa}

transfers_from_under :
    (index : List (String × List Transfer)) (transfers : List Transfer) (s : String)
    → (under s index ≡ keep (λ tr. str_eq tr.from_stop_id s) transfers)
    → transfers_from index transfers s ≡ keep (λ tr. str_eq tr.from_stop_id s) transfers
unfolding transfers_from
transfers_from_under [] transfers s e = refl
transfers_from_under (x ∷ index) transfers s e = e

-- The transfers that the index has for a stop are those that a search without an index finds.
pub transfers_from-index_transfers :
    (transfers : List Transfer) (s : String)
    → transfers_from (index_transfers [] transfers) transfers s ≡ transfers_from [] transfers s
unfolding transfers_from keep lookup
transfers_from-index_transfers transfers s =
    transfers_from_under (index_transfers [] transfers) transfers s
      (under-index_transfers s [] transfers)

module _ {F : Type 0} ⦃fl : Float F⦄ where
  -- The network with its indexes built, but for that of the transfers.
  abbrev pub unindexed : Network F → Network F
  unindexed net = record (build_indexes net).0 { transfers_by_stop = [] }

  graph-unindexed :
      (net : Network F) (params : SearchParams)
      → graph (build_indexes net).0 params ≡ graph (unindexed net) params
  unfolding graph build_indexes is_implausible_connection
  graph-unindexed net params i = record {
    provisional = (graph (unindexed net) params).provisional;
    transfers_from = λ s. transfers_from-index_transfers net.transfers s i;
    boards = (graph (unindexed net) params).boards;
  }

  -- The search finds the same on a network with its index of transfers as it does without: what it
  -- makes for itself is what the index holds.
  pub csa-build_indexes :
      (fuel : ℕ) (net : Network F) (from_stop to_stop : String) (depart : ℕ) (params : SearchParams)
      → csa fuel (build_indexes net).0 from_stop to_stop depart params
        ≡ csa fuel (unindexed net) from_stop to_stop depart params
  unfolding csa finish build_indexes
  csa-build_indexes fuel net from_stop to_stop depart params =
      ap
        (λ g. elim (labels g fuel (scan_order net.connections) from_stop depart) [
          | none ↦ err out_of_fuel
          | some l ↦ finish fuel (unindexed net) from_stop to_stop params l
        ])
        (graph-unindexed net params)
