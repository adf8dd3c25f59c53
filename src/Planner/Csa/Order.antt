-- ===== src/Planner/Csa/Order.antt =====
-- The order in which `csa` scans the connections, and the stops that its transfers end at.
use mathlib.Core.Option.{get_or}
use travel_mcp.Prelude.{
  ℕ, ◌≤◌, ◌≡◌, refl, ap, ◌⊎◌, ◌↔◌, inl, inr, String, true, false, List, [], ◌∷◌, ◌++◌, arith, In,
  All, All-In, In-append_left, In-append_right, In-keep, Bool-cases, lookup, str_eq, map,
}
use travel_mcp.Model.{Connection, Transfer}
use travel_mcp.Planner.Scan.Earliest.{IsSorted}
use travel_mcp.Planner.Csa.{
  departs_before, insert_conn, sort_conns, first_after_last, scan_order, transfers_from,
}

earlier : (d c : Connection) → departs_before d c ≡ true → d.departure ≤ c.departure
unfolding departs_before
earlier d c h = ground arith

later : (d c : Connection) → departs_before d c ≡ false → c.departure ≤ d.departure
unfolding departs_before
later d c h = ground arith

All-le :
    (a b : ℕ) (cs : List Connection)
    → a ≤ b
    → All (λ e. b ≤ e.departure) cs
    → All (λ e. a ≤ e.departure) cs
All-le a b [] h bs = tt
All-le a b (e ∷ cs) h (be, bs) = (omega arith, All-le a b cs h bs)

All-insert_conn :
    (P : Connection → Type 0) (c : Connection) (cs : List Connection)
    → P c
    → All P cs
    → All P (insert_conn c cs)
unfolding insert_conn
All-insert_conn P c [] pc h = (pc, tt)
All-insert_conn P c (d ∷ cs) pc (pd, h) = elim (Bool-cases (departs_before d c)) [
  | inl y ↦ rw y (pd, All-insert_conn P c cs pc h)
  | inr n ↦ rw n (pc, (pd, h))
]

insert_conn-IsSorted :
    (c : Connection) (cs : List Connection) → IsSorted cs → IsSorted (insert_conn c cs)
unfolding insert_conn
insert_conn-IsSorted c [] s = (tt, tt)
insert_conn-IsSorted c (d ∷ cs) (first, s) = elim (Bool-cases (departs_before d c)) [
  | inl y ↦ rw y (All-insert_conn _ c cs (earlier d c y) first, insert_conn-IsSorted c cs s)
  | inr n ↦
      rw n (((later d c n), All-le c.departure d.departure cs (later d c n) first), (first, s))
]

sort_conns-IsSorted : (cs : List Connection) → IsSorted (sort_conns cs)
unfolding sort_conns
sort_conns-IsSorted [] = tt
sort_conns-IsSorted (c ∷ cs) = insert_conn-IsSorted c (sort_conns cs) (sort_conns-IsSorted cs)

All-sort_conns : (P : Connection → Type 0) (cs : List Connection) → All P cs → All P (sort_conns cs)
unfolding sort_conns
All-sort_conns P [] h = tt
All-sort_conns P (c ∷ cs) (p, h) = All-insert_conn P c (sort_conns cs) p (All-sort_conns P cs h)

-- `insert_conn` and `sort_conns` neither lose nor invent a connection.
insert_conn-In : (c e : Connection) (cs : List Connection) → In e (c ∷ cs) → In e (insert_conn c cs)
unfolding insert_conn
insert_conn-In c e [] h = h
insert_conn-In c e (d ∷ cs) h = elim (Bool-cases (departs_before d c)) [
  | inl y ↦ rw y (moved (insert_conn-In c e cs) h)
  | inr n ↦ rw n h
]
  where
    moved :
        (In e (c ∷ cs) → In e (insert_conn c cs)) → In e (c ∷ d ∷ cs) → In e (d ∷ insert_conn c cs)
    moved ih (inl ec) = inr (ih (inl ec))
    moved ih (inr (inl ed)) = inl ed
    moved ih (inr (inr m)) = inr (ih (inr m))

sort_conns-In : (e : Connection) (cs : List Connection) → In e cs → In e (sort_conns cs)
unfolding sort_conns
sort_conns-In e [] h = h
sort_conns-In e (c ∷ cs) (inl ec) = insert_conn-In c e (sort_conns cs) (inl ec)
sort_conns-In e (c ∷ cs) (inr m) = insert_conn-In c e (sort_conns cs) (inr (sort_conns-In e cs m))

In-All : (cs : List Connection) → All (λ c. In c cs) cs
In-All cs = self cs (λ a m. m)
  where
    self : (ds : List Connection) → ((a : Connection) → In a ds → In a cs) → All (λ c. In c cs) ds
    self [] sub = tt
    self (d ∷ ds) sub = (sub d (inl refl), self ds (λ a m. sub a (inr m)))

-- The scan can use the order that it is given, or sees that it must sort.
abbrev pub IsOrdered : List Connection → Type 0
IsOrdered conns = IsSorted conns ⊎ (first_after_last conns ≡ true)

pub scan_order-IsSorted : (conns : List Connection) → IsOrdered conns → IsSorted (scan_order conns)
unfolding scan_order
scan_order-IsSorted conns o = elim (Bool-cases (first_after_last conns)) [
  | inl y ↦ rw y (sort_conns-IsSorted conns)
  | inr n ↦ rw n (given n o)
]
  where
    given : first_after_last conns ≡ false → IsOrdered conns → IsSorted conns
    given n (inl s) = s
    given n (inr y) = absurd (ground arith)

pub scan_order-In :
    (conns : List Connection) (c : Connection) → In c (scan_order conns) ↔ In c conns
unfolding scan_order
scan_order-In conns c = elim (Bool-cases (first_after_last conns)) [
  | inl y ↦ rw y (
    (λ m. All-In _ c (sort_conns conns) (All-sort_conns _ conns (In-All conns)) m),
    sort_conns-In c conns,
  )
  | inr n ↦ rw n ((λ m. m), (λ m. m))
]

-- The stops at which the transfers end.
ends : List (String × List Transfer) → List String
ends [] = []
ends ((s, trs) ∷ index) = map (λ tr. tr.to_stop_id) trs ++ ends index

pub all_ends : List (String × List Transfer) → List Transfer → List String
all_ends index transfers = ends index ++ map (λ tr. tr.to_stop_id) transfers

In-map_end :
    (tr : Transfer) (trs : List Transfer)
    → In tr trs
    → In tr.to_stop_id (map (λ x. x.to_stop_id) trs)
In-map_end tr [] m = m
In-map_end tr (x ∷ trs) (inl e) = inl (ap (λ (y : Transfer). y.to_stop_id) e)
In-map_end tr (x ∷ trs) (inr m) = inr (In-map_end tr trs m)

lookup-ends :
    (s : String) (tr : Transfer) (index : List (String × List Transfer))
    → In tr (get_or (lookup s index) [])
    → In tr.to_stop_id (ends index)
unfolding lookup ends
lookup-ends s tr [] m = m
lookup-ends s tr ((k, trs) ∷ index) m = elim (Bool-cases (str_eq k s)) [
  | inl y ↦ In-append_left _ _ _ (In-map_end tr trs (rw y at m))
  | inr n ↦ In-append_right _ (map (λ x. x.to_stop_id) trs) _ (lookup-ends s tr index (rw n at m))
]

pub transfers_from-ends :
    (index : List (String × List Transfer)) (transfers : List Transfer) (s : String) (tr : Transfer)
    → In tr (transfers_from index transfers s)
    → In tr.to_stop_id (all_ends index transfers)
unfolding transfers_from all_ends ends
transfers_from-ends [] transfers s tr m = In-map_end tr transfers (In-keep _ tr transfers m)
transfers_from-ends ((k, trs) ∷ index) transfers s tr m =
    In-append_left _ (ends ((k, trs) ∷ index)) _ (lookup-ends s tr ((k, trs) ∷ index) m)
