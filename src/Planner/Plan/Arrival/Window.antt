-- ===== src/Planner/Plan/Arrival/Window.antt =====
-- The departures that are tried: those of the trips in the window, or every half an hour.
use Prim.Native.Nat.{min}
use travel_mcp.Prelude.{
  ℕ, ◌+◌, ◌-◌, ◌%◌, ◌≤◌, ◌<◌, ◌≡◌, refl, sym, subst, ap, ◌∙◌, ◌⊎◌, inl, inr, arith, String, true,
  ◌&&◌, List, [], ◌∷◌, some, none, ltb, leb, In, Bool-cases, Option-cases, if◌then◌else◌,
}
use travel_mcp.Model.{Trip, day}
use travel_mcp.Planner.Raptor.{roll, midnight}
use travel_mcp.Planner.Plan.Arrival.{roll_back, first_from, window_start, departures}
use travel_mcp.Planner.Plan.Arrival.Grid.{Back}

-- A trip departs from the stop at that time of the day, and the time is in the window.
abbrev pub Departs : String → ℕ → ℕ → List (String × Trip) → ℕ → Type 0
Departs stop start latest trips dep =
    (start < dep)
    × (dep ≤ latest)
    × (t : String × Trip) × In t trips
    × (sec : ℕ) × (first_from stop t.1.stop_times ≡ some sec)
    × (dep % day ≡ sec % day)

-- A number of half hours before the latest time, in the window, where no trip departs in it.
abbrev pub OnGrid : String → ℕ → ℕ → List (String × Trip) → ℕ → Type 0
OnGrid stop start latest trips dep =
    ((d : ℕ) → ¬ Departs stop start latest trips d) × Back latest start dep

-- The window begins a day before the arrival asked for, or at the latest time.
abbrev pub IsCandidate : String → ℕ → ℕ → List (String × Trip) → ℕ → Type 0
IsCandidate stop ar latest trips dep =
    let start = min latest (ar - day) in
    Departs stop start latest trips dep ⊎ OnGrid stop start latest trips dep

pub window_start_lem : (ar latest : ℕ) → window_start ar latest ≡ min latest (ar - day)
unfolding window_start
window_start_lem ar latest = ground arith

-- The time of a trip's departure that is tried, if it is in the window.
abbrev at_time : ℕ → ℕ → ℕ → ℕ
at_time start latest sec = roll (roll_back (midnight latest + sec) latest) start

at_time-day : (start latest sec : ℕ) → day ≤ latest → at_time start latest sec % day ≡ sec % day
unfolding roll roll_back midnight
at_time-day start latest sec h = omega arith

at_time_unique :
    (start latest sec dep : ℕ)
    → day ≤ latest
    → latest ≤ start + day
    → start < dep
    → dep ≤ latest
    → dep % day ≡ sec % day
    → at_time start latest sec ≡ dep
unfolding roll roll_back midnight
at_time_unique start latest sec dep h w lo hi same = omega arith

module _ (stop : String) (start latest : ℕ) where
  -- One trip in front of the others.
  first_trip :
      (k : String) (t : Trip) (trips : List (String × Trip)) (sec : ℕ)
      → first_from stop t.stop_times ≡ some sec
      → departures stop start latest ((k, t) ∷ trips) ≡ (
          let dep = at_time start latest sec in
          let rest = departures stop start latest trips in
          if ltb start dep && leb dep latest then dep ∷ rest else rest)
  unfolding departures
  first_trip k t trips sec e = rw (e, departures) refl

  no_trip :
      (k : String) (t : Trip) (trips : List (String × Trip))
      → first_from stop t.stop_times ≡ none
      → departures stop start latest ((k, t) ∷ trips) ≡ departures stop start latest trips
  unfolding departures
  no_trip k t trips e = rw (e, departures) refl

  later_trip :
      (r : String × Trip) (trips : List (String × Trip)) (dep : ℕ)
      → Departs stop start latest trips dep
      → Departs stop start latest (r ∷ trips) dep
  later_trip r trips dep (lo, hi, t, m, sec, e, same) = (lo, hi, t, inr m, sec, e, same)

  pub departures-Departs :
      (trips : List (String × Trip)) (dep : ℕ)
      → day ≤ latest
      → In dep (departures stop start latest trips)
      → Departs stop start latest trips dep
  unfolding departures
  departures-Departs [] dep h m = absurd m
  departures-Departs ((k, t) ∷ trips) dep h m = elim (Option-cases (first_from stop t.stop_times)) [
    | inl e ↦
        later_trip (k, t) trips dep
          (departures-Departs trips dep h (subst (In dep) (no_trip k t trips e) m))
    | inr (sec, e) ↦
        own sec e (departures-Departs trips dep h) (subst (In dep) (first_trip k t trips sec e) m)
  ]
    where
      own :
          (sec : ℕ)
          → first_from stop t.stop_times ≡ some sec
          → (In dep (departures stop start latest trips) → Departs stop start latest trips dep)
          → In dep (
              if ltb start (at_time start latest sec) && leb (at_time start latest sec) latest
              then at_time start latest sec ∷ departures stop start latest trips
              else departures stop start latest trips)
          → Departs stop start latest ((k, t) ∷ trips) dep
      own sec e ih n =
          elim (Bool-cases
            (ltb start (at_time start latest sec) && leb (at_time start latest sec) latest)) [
              | inr out ↦ later_trip (k, t) trips dep (ih (rw out at n))
              | inl inside ↦ at_head sec e ih inside (rw inside at n)
            ]
        where
          at_head :
              (sec : ℕ)
              → first_from stop t.stop_times ≡ some sec
              → (In dep (departures stop start latest trips) → Departs stop start latest trips dep)
              → (ltb start (at_time start latest sec) && leb (at_time start latest sec) latest)
                ≡ true
              → In dep (at_time start latest sec ∷ departures stop start latest trips)
              → Departs stop start latest ((k, t) ∷ trips) dep
          at_head sec e ih inside (inr m) = later_trip (k, t) trips dep (ih m)
          at_head sec e ih inside (inl same) =
              subst (Departs stop start latest ((k, t) ∷ trips)) (sym same) (
                ground arith,
                ground arith,
                (k, t),
                inl refl,
                sec,
                e,
                at_time-day start latest sec h,
              )

  pub Departs-departures :
      (trips : List (String × Trip)) (dep : ℕ)
      → day ≤ latest
      → latest ≤ start + day
      → Departs stop start latest trips dep
      → In dep (departures stop start latest trips)
  unfolding departures
  Departs-departures [] dep h w (_, _, _, m, _, _, _) = absurd m
  Departs-departures ((k, t) ∷ trips) dep h w (lo, hi, u, inl eq, sec, e, same) =
      let here : first_from stop t.stop_times ≡ some sec =
        ap (λ (r : String × Trip). first_from stop r.1.stop_times) (sym eq) ∙ e in
      let at = at_time_unique start latest sec dep h w lo hi same in
      let inside : (ltb start (at_time start latest sec) && leb (at_time start latest sec) latest)
          ≡ true =
        ground arith in
      subst (In dep) (sym (first_trip k t trips sec here)) (rw inside (inl (sym at)))
  Departs-departures ((k, t) ∷ trips) dep h w (lo, hi, u, inr m, sec, e, same) =
      let ih = Departs-departures trips dep h w (lo, hi, u, m, sec, e, same) in
      elim (Option-cases (first_from stop t.stop_times)) [
        | inl n ↦ subst (In dep) (sym (no_trip k t trips n)) ih
        | inr (sec', e') ↦
            subst (In dep) (sym (first_trip k t trips sec' e'))
              (elim (Bool-cases
                (ltb start (at_time start latest sec') && leb (at_time start latest sec') latest)) [
                  | inl y ↦ rw y (inr ih)
                  | inr n ↦ rw n ih
                ])
      ]
