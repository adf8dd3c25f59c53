-- ===== src/Model/Walks/Complete.antt =====
-- The pairs of stops that the loops come to.
use travel_mcp.Prelude.{
  ◌≡◌, ◌≢◌, sym, subst, ap, ◌∙◌, ◌⊎◌, inl, inr, String, true, false, List, [], ◌∷◌, map, some,
  contains, lookup, All, In, Bool-cases,
}
use travel_mcp.Float.{Float}
use travel_mcp.Model.{Stop, Network}
use travel_mcp.Model.Walks.{
  key, key_of, Cell, Walks, ids_in, neighbours, walk_cell, walk_transfer_radius_m, dist_m,
  add_missing, link, link_with, link_cell, link_cells, link_across, link_neighbours, link_borders,
  is_provisional, walks, build_walk_transfers,
}
use travel_mcp.Model.Walks.Linked.{
  contains-append_left, contains-append_right, contains_own, Extends,
}
use travel_mcp.Model.Walks.Loops.{
  AllIn, ids_in-All, link_with-Extends, link_cell-Extends, link_cells-Extends, link_across-Extends,
  link_neighbours-Extends, link_borders-Extends, start, cells_of, cells_of-AllIn, walks-seen,
}
use travel_mcp.Model.Walks.Cells.{ids_in-In, lookup-In, In-by_cell}
use travel_mcp.Model.Walks.Touching.{Touching, Touching-neighbours}

-- The keys of both ways.
abbrev Both : List String → String → String → Type 0
Both ks a b = (contains ks (key a b) ≡ true) × (contains ks (key b a) ≡ true)

module _ {F : Type 0} ⦃fl : Float F⦄ where
  open fl use {lt}

  add_missing-key :
      (a b : String) (d : F) (w : Walks) → contains (add_missing a b d w).seen (key a b) ≡ true
  unfolding add_missing
  add_missing-key a b d w = elim (Bool-cases (contains w.seen (key a b))) [
    | inl y ↦ rw y y
    | inr n ↦ rw n (contains-append_right w.seen (key a b ∷ []) (key a b) (contains_own (key a b)))
  ]

  add_missing-keeps :
      (a b : String) (d : F) (w : Walks) (k : String)
      → contains w.seen k ≡ true
      → contains (add_missing a b d w).seen k ≡ true
  unfolding add_missing
  add_missing-keeps a b d w k h = elim (Bool-cases (contains w.seen (key a b))) [
    | inl y ↦ rw y h
    | inr n ↦ rw n (contains-append_left w.seen (key a b ∷ []) k h)
  ]

  Extends-Both :
      (net : Network F) (w v : Walks) (a b : String)
      → Extends net w v
      → Both w.seen a b
      → Both v.seen a b
  unfolding Extends
  Extends-Both net w v a b (new, _, seen, _, _) (h, k) =
      subst (λ ks. Both ks a b) (sym seen)
        (
          contains-append_left w.seen (map key_of new) (key a b) h,
          contains-append_left w.seen (map key_of new) (key b a) k,
        )

  -- Two stops of the network that are near each other, from either side, and are not provisional.
  unfoldable pub Near : Network F → String → Stop F → String → Stop F → Type 0
  Near net a s b t =
      (lookup a net.stops ≡ some s)
      × (lookup b net.stops ≡ some t)
      × (is_provisional net a ≡ false)
      × (is_provisional net b ≡ false)
      × (lt walk_transfer_radius_m (dist_m s t) ≡ false)
      × (lt walk_transfer_radius_m (dist_m t s) ≡ false)

  Near-swap :
      (net : Network F) (a : String) (s : Stop F) (b : String) (t : Stop F)
      → Near net a s b t
      → Near net b t a s
  unfolding Near
  Near-swap net a s b t (h1, h2, h3, h4, h5, h6) = (h2, h1, h4, h3, h6, h5)

  link-Both :
      (net : Network F) (a : String) (s : Stop F) (b : String) (t : Stop F) (w : Walks)
      → Near net a s b t
      → Both (link net.stops w a b).seen a b
  unfolding link Near
  link-Both net a s b t w (es, et, _, _, near, _) =
      let d = dist_m s t in
      rw (es, et, near, link)
        (
          add_missing-keeps b a d (add_missing a b d w) (key a b) (add_missing-key a b d w),
          add_missing-key b a d (add_missing a b d w),
        )

  module _ (net : Network F) where
    link_with-Both :
        (a : String) (s : Stop F) (b : String) (t : Stop F) (bs : List String) (w : Walks)
        → Near net a s b t
        → All (λ id. is_provisional net id ≡ false) bs
        → In b bs
        → Both (link_with net.stops a w bs).seen a b
    unfolding link_with Near
    link_with-Both a s b t [] w near free m = absurd m
    link_with-Both a s b t (x ∷ bs) w near (f, fs) (inl e) =
        let (_, _, p, _, _, _) = near in
        let here =
          subst (λ y. Both (link net.stops w a y).seen a b) e (link-Both net a s b t w near) in
        Extends-Both net (link net.stops w a x) (link_with net.stops a (link net.stops w a x) bs) a
          b (link_with-Extends net a bs (link net.stops w a x) p fs) here
    link_with-Both a s b t (x ∷ bs) w near (f, fs) (inr m) =
        link_with-Both a s b t bs (link net.stops w a x) near fs m

    link_cell-Both :
        (a : String) (s : Stop F) (b : String) (t : Stop F) (ids : List String) (w : Walks)
        → Near net a s b t
        → a ≢ b
        → All (λ id. is_provisional net id ≡ false) ids
        → In a ids
        → In b ids
        → Both (link_cell net.stops w ids).seen a b
    unfolding link_cell
    link_cell-Both a s b t [] w near ne free m k = absurd m
    link_cell-Both a s b t (x ∷ ids) w near ne (f, fs) (inl e) (inl g) = absurd (ne (e ∙ sym g))
    link_cell-Both a s b t (x ∷ ids) w near ne (f, fs) (inl e) (inr k) =
        let v = link_with net.stops x w ids in
        Extends-Both net v (link_cell net.stops v ids) a b (link_cell-Extends net ids v fs) (
          subst (λ y. Both (link_with net.stops y w ids).seen a b) e
            (link_with-Both a s b t ids w near fs k))
    link_cell-Both a s b t (x ∷ ids) w near ne (f, fs) (inr m) (inl g) =
        let v = link_with net.stops x w ids in
        let (back, forth) = link_with-Both b t a s ids w (Near-swap net a s b t near) fs m in
        Extends-Both net v (link_cell net.stops v ids) a b (link_cell-Extends net ids v fs)
          (subst (λ y. Both (link_with net.stops y w ids).seen a b) g (forth, back))
    link_cell-Both a s b t (x ∷ ids) w near ne (f, fs) (inr m) (inr k) =
        link_cell-Both a s b t ids (link_with net.stops x w ids) near ne fs m k

    module _ (a : String) (s : Stop F) (b : String) (t : Stop F) (near : Near net a s b t) where
      link_across-Both :
          (ids others : List String) (w : Walks)
          → All (λ id. is_provisional net id ≡ false) ids
          → All (λ id. is_provisional net id ≡ false) others
          → In a ids
          → In b others
          → Both (link_across net.stops w ids others).seen a b
      unfolding link_across
      link_across-Both [] others w free o m k = absurd m
      link_across-Both (x ∷ ids) others w (f, fs) o (inl e) k =
          let v = link_with net.stops x w others in
          Extends-Both net v (link_across net.stops v ids others) a b
            (link_across-Extends net ids others v fs o)
            (subst (λ y. Both (link_with net.stops y w others).seen a b) e
              (link_with-Both a s b t others w near o k))
      link_across-Both (x ∷ ids) others w (f, fs) o (inr m) k =
          link_across-Both ids others (link_with net.stops x w others) fs o m k

      module _ (all : List (Cell × List String))
          (free : AllIn (λ id. is_provisional net id ≡ false) all) where
        link_neighbours-Both :
            (ids : List String) (nc : Cell) (cs : List Cell) (w : Walks)
            → All (λ id. is_provisional net id ≡ false) ids
            → In a ids
            → In b (ids_in all nc)
            → In nc cs
            → Both (link_neighbours net.stops all ids w cs).seen a b
        unfolding link_neighbours
        link_neighbours-Both ids nc [] w fs m k i = absurd i
        link_neighbours-Both ids nc (c ∷ cs) w fs m k (inl e) =
            let v = link_across net.stops w ids (ids_in all c) in
            let others = ids_in-All (λ id. is_provisional net id ≡ false) all c free in
            Extends-Both net v (link_neighbours net.stops all ids v cs) a b
              (link_neighbours-Extends net all free ids cs v fs)
              (link_across-Both ids (ids_in all c) w fs others m
                (subst (λ z. In b (ids_in all z)) e k))
        link_neighbours-Both ids nc (c ∷ cs) w fs m k (inr i) =
            link_neighbours-Both ids nc cs (link_across net.stops w ids (ids_in all c)) fs m k i

        link_borders-Both :
            (c : Cell) (ids : List String) (nc : Cell) (cells : List (Cell × List String))
            (w : Walks)
            → AllIn (λ id. is_provisional net id ≡ false) cells
            → In (c, ids) cells
            → In a ids
            → In b (ids_in all nc)
            → In nc (neighbours c)
            → Both (link_borders net.stops all w cells).seen a b
        unfolding link_borders
        link_borders-Both c ids nc [] w fs i m k j = absurd i
        link_borders-Both c ids nc ((d, is) ∷ cells) w (f, fs) (inl e) m k j =
            let v = link_neighbours net.stops all is w (neighbours d) in
            let same_ids : ids ≡ is = ap (λ (z : Cell × List String). z.1) e in
            let same : c ≡ d = ap (λ (z : Cell × List String). z.0) e in
            Extends-Both net v (link_borders net.stops all v cells) a b
              (link_borders-Extends net all free cells v fs)
              (link_neighbours-Both is nc (neighbours d) w f (subst (In a) same_ids m) k
                (subst (λ z. In nc (neighbours z)) same j))
        link_borders-Both c ids nc ((d, is) ∷ cells) w (f, fs) (inr i) m k j =
            link_borders-Both c ids nc cells (link_neighbours net.stops all is w (neighbours d)) fs
              i m k j

        link_cells-Both :
            (c : Cell) (ids : List String) (cells : List (Cell × List String)) (w : Walks)
            → a ≢ b
            → AllIn (λ id. is_provisional net id ≡ false) cells
            → In (c, ids) cells
            → In a ids
            → In b ids
            → Both (link_cells net.stops w cells).seen a b
        unfolding link_cells
        link_cells-Both c ids [] w ne fs i m k = absurd i
        link_cells-Both c ids ((d, is) ∷ cells) w ne (f, fs) (inl e) m k =
            let v = link_cell net.stops w is in
            let same_ids : ids ≡ is = ap (λ (z : Cell × List String). z.1) e in
            Extends-Both net v (link_cells net.stops v cells) a b
              (link_cells-Extends net cells v fs)
              (link_cell-Both a s b t is w near ne f (subst (In a) same_ids m)
                (subst (In b) same_ids k))
        link_cells-Both c ids ((d, is) ∷ cells) w ne (f, fs) (inr i) m k =
            link_cells-Both c ids cells (link_cell net.stops w is) ne fs i m k

    walks-Both :
        (a : String) (s : Stop F) (b : String) (t : Stop F)
        → Near net a s b t
        → a ≢ b
        → (walk_cell s ≡ walk_cell t) ⊎ In (walk_cell t) (neighbours (walk_cell s))
        → Both (walks net).seen a b
    unfolding walks Near
    walks-Both a s b t near ne side =
        let cells = cells_of net in
        let free = cells_of-AllIn net in
        let (es, et, pa, pb, _, _) = near in
        let v = link_cells net.stops (start net) cells in
        let own =
          In-by_cell (is_provisional net) a s [] net.stops pa (lookup-In a s net.stops es) in
        let theirs =
          In-by_cell (is_provisional net) b t [] net.stops pb (lookup-In b t net.stops et) in
        let at = ids_in-In a (walk_cell s) cells own in
        elim side [
          | inl e ↦
              Extends-Both net v (walks net) a b (link_borders-Extends net cells free cells v free)
                (link_cells-Both a s b t near cells free (walk_cell s) (ids_in cells (walk_cell s))
                  cells (start net) ne free at own
                  (subst (λ z. In b (ids_in cells z)) (sym e) theirs))
          | inr j ↦
              link_borders-Both a s b t near cells free (walk_cell s) (ids_in cells (walk_cell s))
                (walk_cell t) cells v free at own theirs j
        ]

    -- Near stops in cells that touch leave the keys of both ways.
    pub build_walk_transfers-keys :
        (a : String) (s : Stop F) (b : String) (t : Stop F)
        → Near net a s b t
        → a ≢ b
        → Touching (walk_cell s) (walk_cell t)
        → (contains (map key_of (build_walk_transfers net).transfers) (key a b) ≡ true)
          × (contains (map key_of (build_walk_transfers net).transfers) (key b a) ≡ true)
    unfolding build_walk_transfers
    build_walk_transfers-keys a s b t near ne touch =
        subst (λ ks. Both ks a b) (walks-seen net)
          (elim (Touching-neighbours (walk_cell s) (walk_cell t) touch) [
            | inl e ↦ walks-Both a s b t near ne (inl e)
            | inr (inl j) ↦ walks-Both a s b t near ne (inr j)
            | inr (inr j) ↦
                let (back, forth) =
                  walks-Both b t a s (Near-swap net a s b t near) (λ e. ne (sym e)) (inr j) in
                (forth, back)
          ])
