-- ===== src/Planner/Legs/Ridden.antt =====
-- What a leg stands for: a ride on one trip, or a walk along one transfer.
use travel_mcp.Prelude.{
  ℕ, ◌+◌, ◌*◌, ◌≤◌, ◌≡◌, ◌≢◌, refl, sym, ◌∙◌, ◌⊎◌, inl, inr, true, List, [], ◌∷◌, ◌++◌, some, In,
  All, arith, eq_iff,
}
use travel_mcp.Model.{Stop, Transfer, Connection, Leg, minute}
use travel_mcp.Float.{Float}
use travel_mcp.Planner.Scan.{Graph}
use travel_mcp.Planner.Legs.{leg_point, continues, ride_leg, walk_leg}

-- A ride from the connection `first` on to the connection `last`: connections that may be boarded, each
-- leaving from where the one before it arrives and no earlier, and all of one trip, which has an id if
-- there is more than one of them.
pub data Rides (g : Graph) (cs : List Connection) (first : Connection) : Connection → Type 0 where
  alone : In first cs → g.boards first ≡ true → Rides g cs first first
  and_on :
      {d : Connection} (c : Connection)
      → Rides g cs first d
      → In c cs
      → g.boards c ≡ true
      → first.trip_id ≢ ""
      → c.trip_id ≡ first.trip_id
      → c.from ≡ d.to
      → d.arrival ≤ c.departure
      → Rides g cs first c

Rides-of_In :
    (g : Graph) (cs ds : List Connection) (c d : Connection)
    → ((e : Connection) → In e cs → In e ds)
    → Rides g cs c d
    → Rides g ds c d
Rides-of_In g cs ds c _ sub (alone m b) = alone (sub c m) b
Rides-of_In g cs ds c _ sub (and_on {d} e r m b named same fr le) =
    and_on e (Rides-of_In g cs ds c d sub r) (sub e m) b named same fr le

module _ {F : Type 0} (g : Graph) where
  -- The leg is such a ride: it has the mode, the provider, the route and the trip of the first
  -- connection, begins where and when that one departs, and ends where and when the last one arrives.
  abbrev pub IsRide : List Connection → Leg F → Type 0
  IsRide cs leg =
      (c : Connection) × (d : Connection) × Rides g cs c d
      × ((leg.mode ≡ c.mode)
          × (leg.provider_id ≡ c.provider_id)
          × (leg.route_id ≡ c.route_id)
          × (leg.trip_id ≡ c.trip_id))
      × ((leg.from.stop_id ≡ c.from) × (leg.departure ≡ c.departure))
      × ((leg.to.stop_id ≡ d.to) × (leg.arrival ≡ d.arrival))

  -- The leg is a walk along a transfer, with the time that this takes, and has no route or trip.
  abbrev pub IsOnFoot : Leg F → Type 0
  IsOnFoot leg =
      (tr : Transfer) × In tr (g.transfers_from leg.from.stop_id)
      × (leg.to.stop_id ≡ tr.to_stop_id)
      × (leg.departure + tr.minutes * minute ≤ leg.arrival)
      × (leg.mode ≡ "walk")
      × (leg.route_id ≡ "")
      × (leg.trip_id ≡ "")

  abbrev pub IsLeg : List Connection → Leg F → Type 0
  IsLeg cs leg = IsRide cs leg ⊎ IsOnFoot leg

  pub IsLeg-of_In :
      (cs ds : List Connection) (legs : List (Leg F))
      → ((e : Connection) → In e cs → In e ds)
      → All (IsLeg cs) legs
      → All (IsLeg ds) legs
  IsLeg-of_In cs ds [] sub h = tt
  IsLeg-of_In cs ds (leg ∷ legs) sub (inr w, h) = (inr w, IsLeg-of_In cs ds legs sub h)
  IsLeg-of_In cs ds (leg ∷ legs) sub (inl (c, d, r, named, start, end), h) =
      (inl (c, d, Rides-of_In g cs ds c d sub r, named, start, end), IsLeg-of_In cs ds legs sub h)

  pub All-last :
      (P : Leg F → Type 0) (legs : List (Leg F)) (leg : Leg F) → All P (legs ++ (leg ∷ [])) → P leg
  All-last P [] leg (p, _) = p
  All-last P (l ∷ legs) leg (_, h) = All-last P legs leg h

  pub All-change_last :
      (P : Leg F → Type 0) (legs : List (Leg F)) (leg new : Leg F)
      → P new
      → All P (legs ++ (leg ∷ []))
      → All P (legs ++ (new ∷ []))
  All-change_last P [] leg new p h = (p, tt)
  All-change_last P (l ∷ legs) leg new p (q, h) = (q, All-change_last P legs leg new p h)

  -- A connection of the leg's trip makes the ride longer.
  pub extend-IsLeg :
      (cs : List Connection) (leg : Leg F) (c : Connection) (to : Stop F)
      → continues (some leg) c ≡ true
      → In c cs
      → g.boards c ≡ true
      → leg.to.stop_id ≡ c.from
      → leg.arrival ≤ c.departure
      → to.id ≡ c.to
      → IsLeg cs leg
      → IsLeg cs (record leg { to = leg_point to; arrival = c.arrival })
  unfolding continues leg_point
  extend-IsLeg cs leg c to k m b at le tid (inr (_, _, _, _, _, _, none_named)) =
      let named = (eq_iff leg.trip_id "").1 none_named in absurd (ground arith)
  extend-IsLeg cs leg c to k m b at le tid
        (inl (first, d, r, (mode, provider, route, trip), start, (end, ar))) =
      let same : leg.trip_id ≡ c.trip_id = (eq_iff leg.trip_id c.trip_id).0 (ground arith) in
      let named : leg.trip_id ≢ "" =
        λ e. let empty = (eq_iff leg.trip_id "").1 e in absurd (ground arith) in
      let rides : Rides g cs first c =
        and_on c r m b (λ e. named (trip ∙ e)) (sym same ∙ trip) (sym at ∙ end) (omega arith) in
      inl (first, c, rides, (mode, provider, route, trip), start, (tid, refl))

module _ {F : Type 0} ⦃fl : Float F⦄ (g : Graph) (cs : List Connection) where
  pub ride_leg-IsLeg :
      (c : Connection) (from to : Stop F)
      → In c cs
      → g.boards c ≡ true
      → from.id ≡ c.from
      → to.id ≡ c.to
      → IsLeg g cs (ride_leg c from to)
  unfolding ride_leg leg_point
  ride_leg-IsLeg c from to m b fid tid =
      inl (c, c, alone m b, (refl, refl, refl, refl), (fid, refl), (tid, refl))

  pub walk_leg-IsLeg :
      (tr : Transfer) (from to : Stop F) (dep ar : ℕ)
      → In tr (g.transfers_from from.id)
      → to.id ≡ tr.to_stop_id
      → dep + tr.minutes * minute ≤ ar
      → IsLeg g cs (walk_leg from to dep ar)
  unfolding walk_leg leg_point
  walk_leg-IsLeg tr from to dep ar m tid le = inr (tr, m, tid, le, refl, refl, refl)
