-- ===== src/Mintrans/Trips/Order.antt =====
-- The times that cells give, and the order that the added days put them in.
use mathlib.Core.Option.{some-injective, none-ne-some}
use travel_mcp.Prelude.{
  ℕ, zero, suc, ◌+◌, ◌*◌, ◌/◌, ◌≤◌, ◌<◌, ◌≡◌, refl, subst, ◌⊎◌, inl, inr, String, Bool, true, false,
  ◌||◌, List, [], ◌∷◌, ◌++◌, Option, none, some, ltb, str_eq, if◌then◌else◌, arith, Bool-cases,
}
use travel_mcp.Texts.{Texts}
use travel_mcp.Strings.{trim_space}
use travel_mcp.Mintrans.Days.{match_cell, cell_time, parse_cell_time, is_no_service_cell}
use travel_mcp.Mintrans.Register.{FlatStop, text_at, cell_at}
use travel_mcp.Mintrans.Trips.{days_up, day_offset, Times, both_times}

-- Each stop has both times, each time is at or after the one before, and less than a day after it; the
-- first and the last number are the times before and after.
abbrev pub Timed : {F : Type 0} → ℕ → List (FlatStop F) → ℕ → Type 0
Timed p [] l = p ≡ l
Timed p (s ∷ stops) l =
    (a : ℕ) × (d : ℕ) × (s.arr_min ≡ some a)
    × (s.dep_min ≡ some d)
    × (p ≤ a)
    × (a < p + 1440)
    × (a ≤ d)
    × (d < a + 1440)
    × Timed d stops l

pub Timed-append :
    {F : Type 0} (p : ℕ) (stops : List (FlatStop F)) (l : ℕ) (s : FlatStop F) (a d : ℕ)
    → Timed p stops l
    → s.arr_min ≡ some a
    → s.dep_min ≡ some d
    → l ≤ a
    → a < l + 1440
    → a ≤ d
    → d < a + 1440
    → Timed p (stops ++ (s ∷ [])) d
Timed-append p [] l s a d e arr dep h1 h2 h3 h4 = (a, d, arr, dep, rw e h1, rw e h2, h3, h4, refl)
Timed-append p (x ∷ stops) l s a d (a1, d1, e1, e2, f1, f2, f3, f4, r) arr dep h1 h2 h3 h4 =
    (a1, d1, e1, e2, f1, f2, f3, f4, Timed-append d1 stops l s a d r arr dep h1 h2 h3 h4)

-- What the loop that adds days ends with.
days_up_lem :
    (fuel t bound off : ℕ)
    → bound ≤ t + (off + fuel) * 1440
    → (off ≤ days_up fuel t bound off)
      × (bound ≤ t + days_up fuel t bound off * 1440)
      × ((days_up fuel t bound off ≡ off) ⊎ (t + days_up fuel t bound off * 1440 < bound + 1440))
unfolding days_up
days_up_lem zero t bound off h = (omega arith, omega arith, inl refl)
days_up_lem (suc fuel) t bound off h =
    go (ltb (t + off * 1440) bound) refl (days_up_lem fuel t bound (suc off) (omega arith))
  where
    go :
        (b : Bool)
        → ltb (t + off * 1440) bound ≡ b
        → (suc off ≤ days_up fuel t bound (suc off))
          × (bound ≤ t + days_up fuel t bound (suc off) * 1440)
          × ((days_up fuel t bound (suc off) ≡ suc off)
              ⊎ (t + days_up fuel t bound (suc off) * 1440 < bound + 1440))
        → let r = if b then days_up fuel t bound (suc off) else off in
          (off ≤ r) × (bound ≤ t + r * 1440) × ((r ≡ off) ⊎ (t + r * 1440 < bound + 1440))
    go true y (h1, h2, inl e) = (omega arith, h2, inr (ground arith))
    go true y (h1, h2, inr l) = (omega arith, h2, inr l)
    go false n ih = (omega arith, ground arith, inl refl)

pub day_offset_lem :
    (t bound off : ℕ)
    → (off ≤ day_offset t bound off)
      × (bound ≤ t + day_offset t bound off * 1440)
      × ((day_offset t bound off ≡ off) ⊎ (t + day_offset t bound off * 1440 < bound + 1440))
unfolding day_offset
day_offset_lem t bound off = days_up_lem (suc (bound / 1440)) t bound off (omega arith)

module _ ⦃tx : Texts⦄ where
  cell_time-day :
      (h mm : ℕ) (d : String) (m : ℕ) (days : Option (List ℕ))
      → cell_time h mm d ≡ some (m, days)
      → m < 1440
  unfolding cell_time
  cell_time-day h mm d m days e = ground arith

  -- A time that a cell gives is one of a day.
  parse_cell_time-day :
      (s : String) (m : ℕ) (days : Option (List ℕ)) → parse_cell_time s ≡ some (m, days) → m < 1440
  unfolding parse_cell_time
  parse_cell_time-day s m days e = go (match_cell (trim_space s)) refl
    where
      go : (o : Option (ℕ × ℕ × String)) → match_cell (trim_space s) ≡ o → m < 1440
      go none n = absurd (none-ne-some _ (rw (n, parse_cell_time) at e))
      go (some (h, mm, d)) y = cell_time-day h mm d m days (rw (y, parse_cell_time) at e)

  pub cell_at-day :
      (list : List String) (run m : ℕ) (days : Option (List ℕ))
      → cell_at list run ≡ some (m, days)
      → m < 1440
  unfolding cell_at
  cell_at-day list run m days e = go (text_at list run) refl
    where
      go : (o : Option String) → text_at list run ≡ o → m < 1440
      go none n = absurd (none-ne-some _ (rw (n, cell_at) at e))
      go (some cell) y =
          elim (Bool-cases (str_eq (trim_space cell) "" || is_no_service_cell (trim_space cell))) [
            | inl t ↦ absurd (none-ne-some _ (rw (y, t, cell_at) at e))
            | inr f ↦ parse_cell_time-day (trim_space cell) m days (rw (y, f, cell_at) at e)
          ]

-- Two times of a day.
abbrev pub InDay : Times → Type 0
InDay t = (t.arr_min < 1440) × (t.dep_min < 1440)

pub both_times-InDay :
    (arr dep : Option (ℕ × Option (List ℕ))) (t : Times)
    → ((m : ℕ) (days : Option (List ℕ)) → arr ≡ some (m, days) → m < 1440)
    → ((m : ℕ) (days : Option (List ℕ)) → dep ≡ some (m, days) → m < 1440)
    → both_times arr dep ≡ some t
    → InDay t
unfolding both_times
both_times-InDay none none t ha hd e = absurd (none-ne-some _ e)
both_times-InDay (some (a, x)) none t ha hd e =
    subst InDay (some-injective _ _ e) (ha a x refl, ha a x refl)
both_times-InDay none (some (d, y)) t ha hd e =
    subst InDay (some-injective _ _ e) (hd d y refl, hd d y refl)
both_times-InDay (some (a, x)) (some (d, y)) t ha hd e =
    subst InDay (some-injective _ _ e) (ha a x refl, hd d y refl)
