-- ===== src/Model/Walks/Ways.antt =====
-- From the keys to the transfers. A key joins two ids with a bar, so that ids with a bar in them can
-- give two pairs of stops one key.
use travel_mcp.Prelude.{
  ◌≡◌, ◌≢◌, refl, sym, subst, ap, ◌∙◌, inl, inr, String, true, List, [], ◌∷◌, map, some, contains,
  lookup, str_eq, eq_iff, All, All-In, All-append, In, Bool-cases, arith,
}
use travel_mcp.Float.{Float}
use travel_mcp.Strings.{◌<>◌, add_char, split_on}
use travel_mcp.Strings.Splitting.{Lacks, split_on_part, split_on_alone}
use travel_mcp.Model.{Transfer, Stop, Network}
use travel_mcp.Model.Walks.{key, key_of, walk_cell, build_walk_transfers}
use travel_mcp.Model.Walks.Linked.{back, IsWalk}
use travel_mcp.Model.Walks.Loops.{build_walk_transfers-back_keys}
use travel_mcp.Model.Walks.Cells.{lookup-In}
use travel_mcp.Model.Walks.Touching.{Touching}
use travel_mcp.Model.Walks.Complete.{Near, build_walk_transfers-keys}

-- The id has no bar, which is the character 124.
abbrev pub NoBar : String → Type 0
NoBar = Lacks 124

split_on-key : (a b : String) → NoBar a → NoBar b → split_on 124 (key a b) ≡ a ∷ b ∷ []
unfolding key split_on add_char ◌<>◌
split_on-key a b p q =
    split_on_part 124 a ("|" <> b) (b ∷ []) p (ap (λ ws. "" ∷ ws) (split_on_alone 124 b q))

key-injective :
    (a b c d : String)
    → NoBar a
    → NoBar b
    → NoBar c
    → NoBar d
    → key a b ≡ key c d
    → (a ≡ c) × (b ≡ d)
key-injective a b c d pa pb pc pd e =
    let same : a ∷ b ∷ [] ≡ c ∷ d ∷ [] =
      sym (split_on-key a b pa pb) ∙ ap (split_on 124) e ∙ split_on-key c d pc pd in
    (ground arith, ground arith)

abbrev pub BarFree : Transfer → Type 0
BarFree tr = NoBar tr.from_stop_id × NoBar tr.to_stop_id

contains-transfer :
    (k : String) (trs : List Transfer)
    → contains (map key_of trs) k ≡ true
    → (tr : Transfer) × In tr trs × (key_of tr ≡ k)
unfolding contains
contains-transfer k [] h = absurd (ground arith)
contains-transfer k (tr ∷ trs) h = elim (Bool-cases (str_eq (key_of tr) k)) [
  | inl y ↦ (tr, inl refl, (eq_iff (key_of tr) k).0 y)
  | inr n ↦ let (tr', m, e) = contains-transfer k trs (rw n at h) in (tr', inr m, e)
]

-- A transfer leads from the one stop to the other.
abbrev pub Leads : List Transfer → String → String → Type 0
Leads trs a b = (tr : Transfer) × In tr trs × (tr.from_stop_id ≡ a) × (tr.to_stop_id ≡ b)

key-Leads :
    (trs : List Transfer) (a b : String)
    → All BarFree trs
    → NoBar a
    → NoBar b
    → contains (map key_of trs) (key a b) ≡ true
    → Leads trs a b
key-Leads trs a b free pa pb h =
    let (tr, m, e) = contains-transfer (key a b) trs h in
    let (qa, qb) = All-In BarFree tr trs free m in
    let (from, to) = key-injective tr.from_stop_id tr.to_stop_id a b qa qb pa pb e in
    (tr, m, from, to)

module _ {F : Type 0} ⦃fl : Float F⦄ (net : Network F) where
  -- No id of the network's stops and transfers has a bar.
  pub record HasPlainIds : Type 0 where
    pub of_stops : All (λ (s : String × Stop F). NoBar s.0) net.stops
    pub of_transfers : All BarFree net.transfers

  module _ (plain : HasPlainIds) where
    stop-NoBar : (a : String) (s : Stop F) → lookup a net.stops ≡ some s → NoBar a
    stop-NoBar a s e =
        All-In (λ (r : String × Stop F). NoBar r.0) (a, s) net.stops plain.of_stops
          (lookup-In a s net.stops e)

    walks-BarFree : (new : List Transfer) → All (IsWalk net) new → All BarFree new
    unfolding IsWalk
    walks-BarFree [] h = tt
    walks-BarFree (tr ∷ new) ((s, t, _, from, to, _, _, _, _, _), h) =
        ((stop-NoBar _ s from, stop-NoBar _ t to), walks-BarFree new h)

    transfers-BarFree : All BarFree (build_walk_transfers net).transfers
    transfers-BarFree =
        let (new, same, are, _) = build_walk_transfers-back_keys net in
        subst (All BarFree) (sym same)
          (All-append BarFree net.transfers new plain.of_transfers (walks-BarFree new are))

    -- If no id of the network has a bar in it, no pair is missing: two different stops of the network
    -- that are not provisional, whose cells are the same or touch, and that are not further apart than
    -- the radius from either side, have a transfer each way.
    pub build_walk_transfers-Both :
        (a : String) (s : Stop F) (b : String) (t : Stop F)
        → Near net a s b t
        → a ≢ b
        → Touching (walk_cell s) (walk_cell t)
        → Leads (build_walk_transfers net).transfers a b
          × Leads (build_walk_transfers net).transfers b a
    unfolding Near
    build_walk_transfers-Both a s b t near ne touch =
        let (there, back) = build_walk_transfers-keys net a s b t near ne touch in
        let (es, et, _, _, _, _) = near in
        let pa = stop-NoBar a s es in
        let pb = stop-NoBar b t et in
        (
          key-Leads (build_walk_transfers net).transfers a b transfers-BarFree pa pb there,
          key-Leads (build_walk_transfers net).transfers b a transfers-BarFree pb pa back,
        )
