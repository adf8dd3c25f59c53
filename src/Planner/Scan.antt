-- ===== src/Planner/Scan.antt =====
-- internal/planner/planner.go, `csa`: the scan over the connections and the relaxation of foot
-- transfers. `arr` and `pred` are the two maps of the source. The work list of `relax` is run on
-- fuel; `none` means that the fuel ran out, and Total is about that.
pub mod Moves
pub mod Sound
pub mod Closed
pub mod Earliest
pub mod Total
pub mod Trail
use mathlib.Core.Option
use mathlib.Core.Option.{get_or}
use travel_mcp.Prelude.{
  ℕ, zero, suc, ◌+◌, ◌*◌, String, Bool, true, List, [], ◌∷◌, ◌++◌, Option, none, some, ltb, not,
  if◌then◌else◌, update,
}
use travel_mcp.Model.{Transfer, Connection, minute}

-- `prev`: how a stop was reached, by a connection or on foot from another stop.
pub data Prev : Type 0 where
  by_conn : Connection → Prev
  by_foot : String → Prev

pub record Labels : Type 0 where
  pub arr : String → Option ℕ
  pub pred : String → Option Prev

-- What `csa` reads of the network: `ProvisionalStops`, the transfers by their first stop, and the
-- two tests on modes and speeds that let a connection be boarded.
pub record Graph : Type 0 where
  pub provisional : String → Bool
  pub transfers_from : String → List Transfer
  pub boards : Connection → Bool

unfoldable pub init : String → ℕ → Labels
init from depart = record { arr = update (λ _. none) from depart; pred = λ _. none }

-- `at, ok := arr[k]; !ok || t.Before(at)`
unfoldable pub improves : (String → Option ℕ) → String → ℕ → Bool
improves arr k t = elim (arr k) [ none ↦ true | some at ↦ ltb t at ]

unfoldable pub relabel : Labels → String → ℕ → Prev → Labels
relabel l k t p = record { arr = update l.arr k t; pred = update l.pred k p }

-- One turn of the inner loop of `relax`, over the labels and the work list.
unfoldable pub relax_edge :
    Graph → String → ℕ → Transfer → Labels × List String → Labels × List String
relax_edge g cur cur_t tr (l, queue) =
    let cand = cur_t + tr.minutes * minute in
    if g.provisional tr.to_stop_id
    then (l, queue)
    else if improves l.arr tr.to_stop_id cand
    then (relabel l tr.to_stop_id cand (by_foot cur), queue ++ (tr.to_stop_id ∷ []))
    else (l, queue)

unfoldable pub relax_edges :
    Graph → String → ℕ → List Transfer → Labels × List String → Labels × List String
relax_edges g cur cur_t [] st = st
relax_edges g cur cur_t (tr ∷ trs) st = relax_edges g cur cur_t trs (relax_edge g cur cur_t tr st)

-- One turn of the outer loop, for the stop that is taken off the work list.
unfoldable pub visit : Graph → String → Labels × List String → Labels × List String
visit g cur (l, queue) =
    if g.provisional cur
    then (l, queue)
    else relax_edges g cur (get_or (l.arr cur) 0) (g.transfers_from cur) (l, queue)

unfoldable pub relax_loop : Graph → ℕ → Labels × List String → Option Labels
relax_loop g fuel (l, []) = some l
relax_loop g zero (l, cur ∷ queue) = none
relax_loop g (suc fuel) (l, cur ∷ queue) = relax_loop g fuel (visit g cur (l, queue))

unfoldable pub relax : Graph → ℕ → String → Labels → Option Labels
unfolding relax_loop
relax g fuel stop l = relax_loop g fuel (l, stop ∷ [])

-- One turn of the scan.
unfoldable pub scan_one : Graph → ℕ → Connection → Labels → Option Labels
scan_one g fuel c l = if not (g.boards c) then some l else elim (l.arr c.from) [
  | none ↦ some l
  | some at_from ↦
      if ltb c.departure at_from
      then some l
      else if not (improves l.arr c.to c.arrival)
      then some l
      else relax g fuel c.to (relabel l c.to c.arrival (by_conn c))
]

unfoldable pub scan : Graph → ℕ → List Connection → Labels → Option Labels
unfolding Option.bind
scan g fuel [] l = some l
scan g fuel (c ∷ cs) l = Option.bind (scan_one g fuel c l) (scan g fuel cs)

-- `relax(fromStop)` and the scan, from the empty maps.
unfoldable pub labels : Graph → ℕ → List Connection → String → ℕ → Option Labels
unfolding Option.bind
labels g fuel conns from depart =
    Option.bind (relax g fuel from (init from depart)) (scan g fuel conns)
