-- ===== src/Model/Walks/Loops.antt =====
-- The loops over the pairs of stops.
use travel_mcp.Prelude.{
  ◌≡◌, sym, subst, ap, ◌∙◌, inl, inr, String, true, false, List, [], ◌∷◌, ◌++◌, map, contains, All,
  All-append, Bool-cases,
}
use travel_mcp.Float.{Float}
use travel_mcp.Model.{Transfer, Stop, Network}
use travel_mcp.Model.Walks.{
  key_of, Cell, Walks, same_cell, into_cell, ids_in, neighbours, walk_cell, by_cell, link,
  link_with, link_cell, link_cells, link_across, link_neighbours, link_borders, is_provisional,
  walks, build_walk_transfers,
}
use travel_mcp.Model.Walks.Linked.{
  map-append, back, IsWalk, Extends, Extends-refl, Extends-trans, link-Extends,
}

-- No stop of the cells is provisional.
abbrev pub AllIn : (String → Type 0) → List (Cell × List String) → Type 0
AllIn P = All λ (c : Cell × List String). All P c.1

pub ids_in-All :
    (P : String → Type 0) (cells : List (Cell × List String)) (c : Cell)
    → AllIn P cells
    → All P (ids_in cells c)
unfolding ids_in
ids_in-All P [] c h = tt
ids_in-All P ((d, ids) ∷ cells) c (h, hs) = elim (Bool-cases (same_cell d c)) [
  | inl y ↦ rw y h
  | inr n ↦ rw n (ids_in-All P cells c hs)
]

into_cell-AllIn :
    (P : String → Type 0) (c : Cell) (id : String) (cells : List (Cell × List String))
    → P id
    → AllIn P cells
    → AllIn P (into_cell c id cells)
unfolding into_cell
into_cell-AllIn P c id [] p h = ((p, tt), tt)
into_cell-AllIn P c id ((d, ids) ∷ cells) p (h, hs) = elim (Bool-cases (same_cell d c)) [
  | inl y ↦ rw y (All-append P ids (id ∷ []) h (p, tt), hs)
  | inr n ↦ rw n (h, into_cell-AllIn P c id cells p hs)
]

module _ {F : Type 0} ⦃fl : Float F⦄ where
  by_cell-AllIn :
      (net : Network F) (stops : List (String × Stop F)) (cells : List (Cell × List String))
      → AllIn (λ id. is_provisional net id ≡ false) cells
      → AllIn (λ id. is_provisional net id ≡ false) (by_cell (is_provisional net) cells stops)
  unfolding by_cell
  by_cell-AllIn net [] cells h = h
  by_cell-AllIn net ((id, s) ∷ stops) cells h = elim (Bool-cases (is_provisional net id)) [
    | inl y ↦ rw y (by_cell-AllIn net stops cells h)
    | inr n ↦ rw n (
        by_cell-AllIn net stops (into_cell (walk_cell s) id cells)
          (into_cell-AllIn (λ k. is_provisional net k ≡ false) (walk_cell s) id cells n h))
  ]

  module _ (net : Network F) where
    abbrev Free : List String → Type 0
    Free = All λ id. is_provisional net id ≡ false

    pub link_with-Extends :
        (a : String) (bs : List String) (w : Walks)
        → is_provisional net a ≡ false
        → Free bs
        → Extends net w (link_with net.stops a w bs)
    unfolding link_with
    link_with-Extends a [] w p h = Extends-refl net w
    link_with-Extends a (b ∷ bs) w p (q, h) =
        Extends-trans net w (link net.stops w a b) (link_with net.stops a (link net.stops w a b) bs)
          (link-Extends net w a b p q) (link_with-Extends a bs (link net.stops w a b) p h)

    pub link_cell-Extends :
        (ids : List String) (w : Walks) → Free ids → Extends net w (link_cell net.stops w ids)
    unfolding link_cell
    link_cell-Extends [] w h = Extends-refl net w
    link_cell-Extends (a ∷ ids) w (p, h) =
        let v = link_with net.stops a w ids in
        Extends-trans net w v (link_cell net.stops v ids) (link_with-Extends a ids w p h)
          (link_cell-Extends ids v h)

    pub link_cells-Extends :
        (cells : List (Cell × List String)) (w : Walks)
        → AllIn (λ id. is_provisional net id ≡ false) cells
        → Extends net w (link_cells net.stops w cells)
    unfolding link_cells
    link_cells-Extends [] w h = Extends-refl net w
    link_cells-Extends ((c, ids) ∷ cells) w (h, hs) =
        let v = link_cell net.stops w ids in
        Extends-trans net w v (link_cells net.stops v cells) (link_cell-Extends ids w h)
          (link_cells-Extends cells v hs)

    pub link_across-Extends :
        (ids others : List String) (w : Walks)
        → Free ids
        → Free others
        → Extends net w (link_across net.stops w ids others)
    unfolding link_across
    link_across-Extends [] others w h o = Extends-refl net w
    link_across-Extends (a ∷ ids) others w (p, h) o =
        let v = link_with net.stops a w others in
        Extends-trans net w v (link_across net.stops v ids others)
          (link_with-Extends a others w p o) (link_across-Extends ids others v h o)

    module _ (all : List (Cell × List String))
        (free : AllIn (λ id. is_provisional net id ≡ false) all) where
      pub link_neighbours-Extends :
          (ids : List String) (cs : List Cell) (w : Walks)
          → Free ids
          → Extends net w (link_neighbours net.stops all ids w cs)
      unfolding link_neighbours
      link_neighbours-Extends ids [] w h = Extends-refl net w
      link_neighbours-Extends ids (c ∷ cs) w h =
          let v = link_across net.stops w ids (ids_in all c) in
          Extends-trans net w v (link_neighbours net.stops all ids v cs)
            (link_across-Extends ids (ids_in all c) w h
              (ids_in-All (λ id. is_provisional net id ≡ false) all c free))
            (link_neighbours-Extends ids cs v h)

      pub link_borders-Extends :
          (cells : List (Cell × List String)) (w : Walks)
          → AllIn (λ id. is_provisional net id ≡ false) cells
          → Extends net w (link_borders net.stops all w cells)
      unfolding link_borders
      link_borders-Extends [] w h = Extends-refl net w
      link_borders-Extends ((c, ids) ∷ cells) w (h, hs) =
          let v = link_neighbours net.stops all ids w (neighbours c) in
          Extends-trans net w v (link_borders net.stops all v cells)
            (link_neighbours-Extends ids (neighbours c) w h) (link_borders-Extends cells v hs)

    abbrev pub start : Walks
    start = record { transfers = net.transfers; seen = map key_of net.transfers }

    abbrev pub cells_of : List (Cell × List String)
    cells_of = by_cell (is_provisional net) [] net.stops

    pub cells_of-AllIn : AllIn (λ id. is_provisional net id ≡ false) cells_of
    cells_of-AllIn = by_cell-AllIn net net.stops [] tt

    pub walks-Extends : Extends net start (walks net)
    unfolding walks
    walks-Extends =
        Extends-trans net start (link_cells net.stops start cells_of) (walks net)
          (link_cells-Extends cells_of start cells_of-AllIn)
          (link_borders-Extends cells_of cells_of-AllIn cells_of
            (link_cells net.stops start cells_of) cells_of-AllIn)

    pub walks-seen : (walks net).seen ≡ map key_of (walks net).transfers
    unfolding Extends
    walks-seen =
        let (new, same, seen, _, _) = walks-Extends in
        seen ∙ sym (map-append net.transfers new) ∙ ap (map key_of) (sym same)

    -- The network keeps its transfers and gets walks after them, with the keys of their ways back.
    pub build_walk_transfers-back_keys :
        (new : List Transfer) × ((build_walk_transfers net).transfers ≡ net.transfers ++ new)
        × All (IsWalk net) new
        × All
            (λ tr. contains (map key_of (build_walk_transfers net).transfers) (back tr) ≡ true)
            new
    unfolding build_walk_transfers Extends
    build_walk_transfers-back_keys =
        let (new, same, seen, are, backs) = walks-Extends in
        (
          new,
          same,
          are,
          subst (λ ks. All (λ tr. contains ks (back tr) ≡ true) new) walks-seen backs,
        )
