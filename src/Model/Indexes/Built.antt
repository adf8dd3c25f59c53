-- ===== src/Model/Indexes/Built.antt =====
-- What the indexes hold.
use mathlib.Core.Option.{get_or, some-injective}
use mathlib.Core.List.{append-nil, append_assoc}
use travel_mcp.Prelude.{
  ℕ, ◌≤◌, ◌≡◌, refl, sym, subst, ◌∙◌, ap, ◌⊎◌, inl, inr, String, Bool, true, false, ◌&&◌, ◌||◌,
  List, [], ◌∷◌, ◌++◌, some, ltb, str_eq, if◌then◌else◌, lookup, keep, All, In, arith, Bool-cases,
  eq_iff,
}
use travel_mcp.Model.{Transfer, Connection, StopTime, Trip, Network}
use travel_mcp.Model.Indexes.{
  put, append_at, index_transfers, note_provisional, index_provisional, widen, time_span,
  build_indexes,
}

-- Two texts that equal a third are equal.
text_clash : (a b c : String) → a ≡ c → a ≡ b → str_eq c b ≡ false → ⊥
text_clash a b c ac ab n = ground (arith, eq_iff c b)

module _ {V : Type 0} where
  -- The list under a key.
  abbrev pub under : String → List (String × List V) → List V
  under k m = get_or (lookup k m) []

  under-append_at :
      (s k : String) (vs : List V) (m : List (String × List V))
      → under s (append_at k vs m) ≡ (if str_eq k s then under s m ++ vs else under s m)
  unfolding append_at lookup
  under-append_at s k vs [] = ground (arith, eq_iff k s)
  under-append_at s k vs ((j, ws) ∷ m) =
      ground (arith, eq_iff j k, eq_iff j s, eq_iff k s, under-append_at s k vs m)

pub under-index_transfers :
    (s : String) (m : List (String × List Transfer)) (transfers : List Transfer)
    → under s (index_transfers m transfers)
      ≡ under s m ++ keep (λ tr. str_eq tr.from_stop_id s) transfers
unfolding index_transfers keep
under-index_transfers s m [] = sym (append-nil (under s m))
under-index_transfers s m (tr ∷ transfers) =
    let rest = under-index_transfers s (append_at tr.from_stop_id (tr ∷ []) m) transfers in
    let here = under-append_at s tr.from_stop_id (tr ∷ []) m in
    elim (Bool-cases (str_eq tr.from_stop_id s)) [
      | inl y ↦ rw y (
          rest
          ∙ ap (λ l. l ++ keep (λ (x : Transfer). str_eq x.from_stop_id s) transfers) (rw y at here)
          ∙ append_assoc (under s m) (tr ∷ [])
              (keep (λ (x : Transfer). str_eq x.from_stop_id s) transfers))
      | inr n ↦ rw n (
          rest
          ∙ ap (λ l. l ++ keep (λ (x : Transfer). str_eq x.from_stop_id s) transfers)
              (rw n at here))
    ]

-- Whether a stop is provisional in a trip.
abbrev pub at_stop : String → List StopTime → Bool
at_stop s [] = false
at_stop s (st ∷ stop_times) = (st.is_provisional && str_eq st.stop_id s) || at_stop s stop_times

abbrev pub at_stop_of : String → List (String × Trip) → Bool
at_stop_of s [] = false
at_stop_of s ((_, trip) ∷ trips) = at_stop s trip.stop_times || at_stop_of s trips

abbrev pub marked : String → List (String × Bool) → Bool
marked s m = get_or (lookup s m) false

marked-put :
    (s k : String) (m : List (String × Bool)) → marked s (put k true m) ≡ (str_eq k s || marked s m)
unfolding put lookup
marked-put s k [] = elim (Bool-cases (str_eq k s)) [ inl y ↦ rw y refl | inr n ↦ rw n refl ]
marked-put s k ((j, w) ∷ m) = ground (arith, eq_iff j k, eq_iff j s, eq_iff k s, marked-put s k m)

marked-note_provisional :
    (s : String) (m : List (String × Bool)) (stop_times : List StopTime)
    → marked s (note_provisional m stop_times) ≡ (marked s m || at_stop s stop_times)
unfolding note_provisional
marked-note_provisional s m [] = ground arith
marked-note_provisional s m (st ∷ stop_times) = elim (Bool-cases st.is_provisional) [
  | inl y ↦
      let rest = marked-note_provisional s (put st.stop_id true m) stop_times in
      let here = marked-put s st.stop_id m in rw y (ground arith)
  | inr n ↦ rw n (marked-note_provisional s m stop_times)
]

marked-index_provisional :
    (s : String) (m : List (String × Bool)) (trips : List (String × Trip))
    → marked s (index_provisional m trips) ≡ (marked s m || at_stop_of s trips)
unfolding index_provisional
marked-index_provisional s m [] = ground arith
marked-index_provisional s m ((_, trip) ∷ trips) =
    let rest = marked-index_provisional s (note_provisional m trip.stop_times) trips in
    let here = marked-note_provisional s m trip.stop_times in ground arith

-- A stop is marked as provisional if and only if it is so in some trip.
pub build_indexes-provisional_stops :
    {F : Type 0} (net : Network F) (s : String)
    → marked s (build_indexes net).0.provisional_stops ≡ at_stop_of s net.trips
unfolding build_indexes lookup
build_indexes-provisional_stops net s = marked-index_provisional s [] net.trips

-- Bounds of all the times, each of which is one of the given times or of a connection.
Spans : ℕ → ℕ → List Connection → ℕ × ℕ → Type 0
Spans low high cs (l, h) =
    (l ≤ low)
    × (high ≤ h)
    × All (λ c. (l ≤ c.departure) × (c.arrival ≤ h)) cs
    × ((l ≡ low) ⊎ ((c : Connection) × In c cs × (c.departure ≡ l)))
    × ((h ≡ high) ⊎ ((c : Connection) × In c cs × (c.arrival ≡ h)))

widen-Spans : (low high : ℕ) (cs : List Connection) → Spans low high cs (widen low high cs)
unfolding Spans widen
widen-Spans low high [] = (omega arith, omega arith, tt, inl refl, inl refl)
widen-Spans low high (c ∷ cs) =
    go (Bool-cases (ltb c.departure low)) (Bool-cases (ltb high c.arrival)) (
      widen-Spans (if ltb c.departure low then c.departure else low)
        (if ltb high c.arrival then c.arrival else high) cs)
  where
    low' : ℕ
    low' = if ltb c.departure low then c.departure else low

    high' : ℕ
    high' = if ltb high c.arrival then c.arrival else high

    from_low :
        (l : ℕ)
        → ((ltb c.departure low ≡ true) ⊎ (ltb c.departure low ≡ false))
        → ((l ≡ low') ⊎ ((x : Connection) × In x cs × (x.departure ≡ l)))
        → (l ≡ low) ⊎ ((x : Connection) × In x (c ∷ cs) × (x.departure ≡ l))
    from_low l b (inr (x, m, e)) = inr (x, inr m, e)
    from_low l (inl y) (inl e) = inr (c, inl refl, sym (rw y at e))
    from_low l (inr n) (inl e) = inl (rw n at e)

    from_high :
        (h : ℕ)
        → ((ltb high c.arrival ≡ true) ⊎ (ltb high c.arrival ≡ false))
        → ((h ≡ high') ⊎ ((x : Connection) × In x cs × (x.arrival ≡ h)))
        → (h ≡ high) ⊎ ((x : Connection) × In x (c ∷ cs) × (x.arrival ≡ h))
    from_high h b (inr (x, m, e)) = inr (x, inr m, e)
    from_high h (inl y) (inl e) = inr (c, inl refl, sym (rw y at e))
    from_high h (inr n) (inl e) = inl (rw n at e)

    go :
        ((ltb c.departure low ≡ true) ⊎ (ltb c.departure low ≡ false))
        → ((ltb high c.arrival ≡ true) ⊎ (ltb high c.arrival ≡ false))
        → Spans low' high' cs (widen low' high' cs)
        → Spans low high (c ∷ cs) (widen low' high' cs)
    go b1 b2 (h1, h2, all, h4, h5) = (
      ground arith,
      ground arith,
      ((ground arith, ground arith), all),
      from_low _ b1 h4,
      from_high _ b2 h5,
    )

-- The time span of connections holds all their departures and arrivals; it starts with a departure of
-- one of them and ends with an arrival of one of them.
pub time_span_lem :
    (c : Connection) (cs : List Connection) (low high : ℕ)
    → time_span (c ∷ cs) ≡ some (low, high)
    → All (λ x. (low ≤ x.departure) × (x.arrival ≤ high)) (c ∷ cs)
      × ((x : Connection) × In x (c ∷ cs) × (x.departure ≡ low))
      × ((x : Connection) × In x (c ∷ cs) × (x.arrival ≡ high))
unfolding time_span Spans
time_span_lem c cs low high e = given (
    subst (Spans c.departure c.arrival cs) (some-injective _ _ e)
      (widen-Spans c.departure c.arrival cs))
  where
    first :
        (x : ℕ) (time : Connection → ℕ)
        → (x ≡ time c) ⊎ ((k : Connection) × In k cs × (time k ≡ x))
        → (k : Connection) × In k (c ∷ cs) × (time k ≡ x)
    first x time (inl f) = (c, inl refl, sym f)
    first x time (inr (k, m, f)) = (k, inr m, f)

    given :
        Spans c.departure c.arrival cs (low, high)
        → All (λ x. (low ≤ x.departure) × (x.arrival ≤ high)) (c ∷ cs)
          × ((x : Connection) × In x (c ∷ cs) × (x.departure ≡ low))
          × ((x : Connection) × In x (c ∷ cs) × (x.arrival ≡ high))
    given (h1, h2, all, l, r) =
        (((h1, h2), all), first low (λ k. k.departure) l, first high (λ k. k.arrival) r)
