-- ===== src/Model/Walks/Linked.antt =====
-- The walks that the network gets.
use mathlib.Core.List.{append-nil, append_assoc}
use travel_mcp.Prelude.{
  ◌≡◌, refl, sym, subst, ap, ◌∙◌, ◌⊎◌, inl, inr, String, true, false, List, [], ◌∷◌, ◌++◌, map,
  some, contains, lookup, str_eq, eq_refl, All, All-append, arith, Bool-cases, Option-cases,
}
use travel_mcp.Float.{Float}
use travel_mcp.Model.{Transfer, Stop, Network}
use travel_mcp.Model.Walks.{
  key, key_of, Walks, walk_transfer_radius_m, walk, add_missing, dist_m, link, is_provisional,
}

pub contains-append_left :
    (ks js : List String) (k : String) → contains ks k ≡ true → contains (ks ++ js) k ≡ true
unfolding contains
contains-append_left [] js k h = ground arith
contains-append_left (i ∷ ks) js k h = elim (Bool-cases (str_eq i k)) [
  | inl y ↦ rw y refl
  | inr n ↦ rw n (contains-append_left ks js k (rw n at h))
]

pub contains-append_right :
    (ks js : List String) (k : String) → contains js k ≡ true → contains (ks ++ js) k ≡ true
unfolding contains
contains-append_right [] js k h = h
contains-append_right (i ∷ ks) js k h = elim (Bool-cases (str_eq i k)) [
  | inl y ↦ rw y refl
  | inr n ↦ rw n (contains-append_right ks js k h)
]

pub contains_own : (k : String) → contains (k ∷ []) k ≡ true
unfolding contains
contains_own k = ground (arith, eq_refl k)

pub map-append : (xs ys : List Transfer) → map key_of (xs ++ ys) ≡ map key_of xs ++ map key_of ys
map-append [] ys = refl
map-append (x ∷ xs) ys = ap (λ l. key_of x ∷ l) (map-append xs ys)

-- The key of the way back.
abbrev pub back : Transfer → String
back tr = key tr.to_stop_id tr.from_stop_id

later_seen :
    (ks js : List String) (new : List Transfer)
    → All (λ tr. contains ks (back tr) ≡ true) new
    → All (λ tr. contains (ks ++ js) (back tr) ≡ true) new
later_seen ks js [] h = tt
later_seen ks js (tr ∷ new) (h, hs) =
    (contains-append_left ks js (back tr) h, later_seen ks js new hs)

module _ {F : Type 0} ⦃fl : Float F⦄ where
  open fl use {lt}

  -- What the walks have in common: both stops are in the network, none is provisional, they are not
  -- further from each other than the radius, and the minutes are those of that distance.
  unfoldable pub IsWalk : Network F → Transfer → Type 0
  IsWalk net tr =
      (s : Stop F) × (t : Stop F) × (d : F) × (lookup tr.from_stop_id net.stops ≡ some s)
      × (lookup tr.to_stop_id net.stops ≡ some t)
      × (is_provisional net tr.from_stop_id ≡ false)
      × (is_provisional net tr.to_stop_id ≡ false)
      × ((d ≡ dist_m s t) ⊎ (d ≡ dist_m t s))
      × (lt walk_transfer_radius_m d ≡ false)
      × (tr ≡ walk tr.from_stop_id tr.to_stop_id d)

  -- The later transfers come after the earlier ones; each is a walk, and its way back is there too.
  unfoldable pub Extends : Network F → Walks → Walks → Type 0
  Extends net w v =
      (new : List Transfer) × (v.transfers ≡ w.transfers ++ new)
      × (v.seen ≡ w.seen ++ map key_of new)
      × All (IsWalk net) new
      × All (λ tr. contains v.seen (back tr) ≡ true) new

  pub Extends-refl : (net : Network F) (w : Walks) → Extends net w w
  unfolding Extends
  Extends-refl net w = ([], sym (append-nil w.transfers), sym (append-nil w.seen), tt, tt)

  pub Extends-trans :
      (net : Network F) (w v u : Walks) → Extends net w v → Extends net v u → Extends net w u
  unfolding Extends
  Extends-trans net w v u (n1, t1, s1, a1, b1) (n2, t2, s2, a2, b2) = (
    n1 ++ n2,
    t2 ∙ ap (λ l. l ++ n2) t1 ∙ append_assoc w.transfers n1 n2,
    s2
        ∙ ap (λ l. l ++ map key_of n2) s1
        ∙ append_assoc w.seen (map key_of n1) (map key_of n2)
        ∙ ap (λ l. w.seen ++ l) (sym (map-append n1 n2)),
    All-append (IsWalk net) n1 n2 a1 a2,
    All-append (λ tr. contains u.seen (back tr) ≡ true) n1 n2
        (subst (λ ks. All (λ tr. contains ks (back tr) ≡ true) n1) (sym s2)
          (later_seen v.seen (map key_of n2) n1 b1))
        b2,
  )

  add_missing_seen :
      (a b : String) (d : F) (w : Walks)
      → contains w.seen (key a b) ≡ true
      → add_missing a b d w ≡ w
  unfolding add_missing
  add_missing_seen a b d w y = rw y refl

  abbrev with_walk : String → String → F → Walks → Walks
  with_walk a b d w = record {
    transfers = w.transfers ++ (walk a b d ∷ []);
    seen = w.seen ++ (key a b ∷ []);
  }

  add_missing_new :
      (a b : String) (d : F) (w : Walks)
      → contains w.seen (key a b) ≡ false
      → add_missing a b d w ≡ with_walk a b d w
  unfolding add_missing
  add_missing_new a b d w n = rw n refl

  -- The transfers of a pair, both ways.
  both_ways-Extends :
      (net : Network F) (a b : String) (d : F) (w : Walks)
      → IsWalk net (walk a b d)
      → IsWalk net (walk b a d)
      → Extends net w (add_missing b a d (add_missing a b d w))
  unfolding Extends walk
  both_ways-Extends net a b d w ab ba = elim (Bool-cases (contains w.seen (key a b))) [
    | inl y ↦ elim (Bool-cases (contains w.seen (key b a))) [
      | inl z ↦ rw (add_missing_seen a b d w y, add_missing_seen b a d w z) (Extends-refl net w)
      | inr n ↦
          rw (add_missing_seen a b d w y, add_missing_new b a d w n)
            (
              walk b a d ∷ [],
              refl,
              refl,
              (ba, tt),
              (contains-append_left w.seen (key b a ∷ []) (key a b) y, tt),
            )
    ]
    | inr n ↦ elim (Bool-cases (contains (with_walk a b d w).seen (key b a))) [
      | inl z ↦
          rw (add_missing_new a b d w n, add_missing_seen b a d (with_walk a b d w) z)
            (walk a b d ∷ [], refl, refl, (ab, tt), (z, tt))
      | inr m ↦
          rw (add_missing_new a b d w n, add_missing_new b a d (with_walk a b d w) m)
            (
              walk a b d ∷ walk b a d ∷ [],
              append_assoc w.transfers (walk a b d ∷ []) (walk b a d ∷ []),
              append_assoc w.seen (key a b ∷ []) (key b a ∷ []),
              (ab, (ba, tt)),
              (
                contains-append_right (w.seen ++ (key a b ∷ [])) (key b a ∷ []) (key b a)
                    (contains_own (key b a)),
                (
                  contains-append_left (w.seen ++ (key a b ∷ [])) (key b a ∷ []) (key a b) (
                      contains-append_right w.seen (key a b ∷ []) (key a b)
                        (contains_own (key a b))),
                  tt,
                ),
              ),
            )
    ]
  ]

  pub link-Extends :
      (net : Network F) (w : Walks) (a b : String)
      → is_provisional net a ≡ false
      → is_provisional net b ≡ false
      → Extends net w (link net.stops w a b)
  unfolding link IsWalk walk
  link-Extends net w a b pa pb = elim (Option-cases (lookup a net.stops)) [
    | inl n ↦ rw (n, link) (Extends-refl net w)
    | inr (s, es) ↦ elim (Option-cases (lookup b net.stops)) [
      | inl n ↦ rw (es, n, link) (Extends-refl net w)
      | inr (t, et) ↦ elim (Bool-cases (lt walk_transfer_radius_m (dist_m s t))) [
        | inl far ↦ rw (es, et, far, link) (Extends-refl net w)
        | inr near ↦
            rw (es, et, near, link)
              (both_ways-Extends net a b (dist_m s t) w
                (s, t, dist_m s t, es, et, pa, pb, inl refl, near, refl)
                (t, s, dist_m s t, et, es, pb, pa, inr refl, near, refl))
      ]
    ]
  ]
