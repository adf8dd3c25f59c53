-- ===== src/Planner/Plan/Arrival/Grid.antt =====
-- Every half an hour.
use travel_mcp.Prelude.{
  ℕ, zero, suc, ◌+◌, ◌-◌, ◌*◌, ◌≤◌, ◌<◌, ◌≡◌, inl, inr, arith, true, List, [], ◌∷◌, leb, In, All,
  Bool-cases,
}
use travel_mcp.Model.{minute}
use travel_mcp.Planner.Plan.Arrival.{half_hours}
use travel_mcp.Planner.Plan.Arrival.First.{Descending}

-- A time that is a number of half hours before `d`, and in the window.
abbrev pub Back : ℕ → ℕ → ℕ → Type 0
Back d start dep = (start ≤ dep) × (k : ℕ) × (dep + k * (30 * minute) ≡ d)

pub half_hours-Back :
    (n d start dep : ℕ)
    → n * (30 * minute) ≤ d + 30 * minute
    → In dep (half_hours n d start)
    → Back d start dep
unfolding half_hours
half_hours-Back zero d start dep h m = absurd m
half_hours-Back (suc zero) d start dep h m = elim (Bool-cases (leb start d)) [
  | inr n ↦ absurd (rw n at m)
  | inl y ↦ elim (rw y at m) as (λ _. Back d start dep) [
    | inl e ↦ (ground arith, 0, omega arith)
    | inr none ↦ absurd none
  ]
]
half_hours-Back (suc (suc n)) d start dep h m = elim (Bool-cases (leb start d)) [
  | inr out ↦ absurd (rw out at m)
  | inl y ↦ elim (rw y at m) as (λ _. Back d start dep) [
    | inl e ↦ (ground arith, 0, omega arith)
    | inr later ↦
        let (lo, k, e) = half_hours-Back (suc n) (d - 30 * minute) start dep (omega arith) later in
        (lo, suc k, omega arith)
  ]
]

pub Back-half_hours :
    (n k d start dep : ℕ)
    → d < start + n * (30 * minute)
    → start ≤ dep
    → dep + k * (30 * minute) ≡ d
    → In dep (half_hours n d start)
unfolding half_hours
Back-half_hours zero k d start dep h lo e = absurd (omega arith)
Back-half_hours (suc n) zero d start dep h lo e =
    let y : leb start d ≡ true = ground arith in rw y (inl (omega arith))
Back-half_hours (suc n) (suc k) d start dep h lo e =
    let y : leb start d ≡ true = ground arith in
    rw y (inr (Back-half_hours n k (d - 30 * minute) start dep (omega arith) lo (omega arith)))

pub All-weaken_below : (a b : ℕ) (xs : List ℕ) → a ≤ b → All (λ y. y ≤ a) xs → All (λ y. y ≤ b) xs
All-weaken_below a b [] h hs = tt
All-weaken_below a b (x ∷ xs) h (p, hs) = (omega arith, All-weaken_below a b xs h hs)

half_hours-below : (n d start : ℕ) → All (λ y. y ≤ d) (half_hours n d start)
unfolding half_hours
half_hours-below zero d start = tt
half_hours-below (suc n) d start =
    let ih =
      All-weaken_below (d - 30 * minute) d (half_hours n (d - 30 * minute) start) (omega arith)
        (half_hours-below n (d - 30 * minute) start) in
    elim (Bool-cases (leb start d)) [ inl y ↦ rw y (omega arith, ih) | inr m ↦ rw m tt ]

pub half_hours-Descending : (n d start : ℕ) → Descending (half_hours n d start)
unfolding half_hours
half_hours-Descending zero d start = tt
half_hours-Descending (suc n) d start =
    let ih = half_hours-Descending n (d - 30 * minute) start in
    let below =
      All-weaken_below (d - 30 * minute) d (half_hours n (d - 30 * minute) start) (omega arith)
        (half_hours-below n (d - 30 * minute) start) in
    elim (Bool-cases (leb start d)) [ inl y ↦ rw y (below, ih) | inr m ↦ rw m tt ]
