-- ===== src/Mintrans/Days/Print.antt =====
-- Days of the week as a text, and read back.
use travel_mcp.Prelude.{
  ℕ, zero, suc, ◌≤◌, ◌≡◌, refl, true, leb, All, pos, List, [], ◌∷◌, map, some, arith,
}
use travel_mcp.Prelude.Sort.{sort_by}
use travel_mcp.Strings.{
  is_space, is_digit, trim_left, trim_right, trim_space, split_on, join_comma, digits_from,
  unsigned, atoi, digit_of, ◌<>◌, itoa_from, itoa,
}
use travel_mcp.Strings.Splitting.{Lacks, split_on-join_comma}
use travel_mcp.Mintrans.Days.{sort_days, format_weekdays, days_among, parse_weekdays}
use travel_mcp.Mintrans.Days.Sorted.{Ascends, sort_days-Ascends}

beyond : (d : ℕ) → suc (suc (suc (suc (suc (suc (suc d)))))) ≤ 6 → ⊥
beyond d h = omega arith

-- The text of a day of the week has no comma, and its number is read back.
itoa_day : (d : ℕ) → d ≤ 6 → Lacks 44 (itoa d) × (atoi (trim_space (itoa d)) ≡ some (pos d))
unfolding is_space is_digit trim_left trim_right trim_space digits_from unsigned atoi digit_of ◌<>◌
    itoa_from itoa Lacks
itoa_day zero h = ((refl, tt), refl)
itoa_day (suc zero) h = ((refl, tt), refl)
itoa_day (suc (suc zero)) h = ((refl, tt), refl)
itoa_day (suc (suc (suc zero))) h = ((refl, tt), refl)
itoa_day (suc (suc (suc (suc zero)))) h = ((refl, tt), refl)
itoa_day (suc (suc (suc (suc (suc zero))))) h = ((refl, tt), refl)
itoa_day (suc (suc (suc (suc (suc (suc zero)))))) h = ((refl, tt), refl)
itoa_day (suc (suc (suc (suc (suc (suc (suc d))))))) h = absurd (beyond d h)

All-Lacks : (ds : List ℕ) → All (λ n. n ≤ 6) ds → All (Lacks 44) (map itoa ds)
All-Lacks [] h = tt
All-Lacks (d ∷ ds) (h, hs) = ((itoa_day d h).0, All-Lacks ds hs)

days_among-map : (ds : List ℕ) → All (λ n. n ≤ 6) ds → days_among (map itoa ds) ≡ ds
unfolding days_among
days_among-map [] h = refl
days_among-map (d ∷ ds) (h, hs) =
    let small : leb d 6 ≡ true = ground arith in
    rw ((itoa_day d h).1, days_among) (rw (small, days_among-map ds hs) refl)

-- Days of the week that are in order are read back from their text.
pub parse_weekdays-format_weekdays :
    (ds : List ℕ) → Ascends ds → All (λ n. n ≤ 6) ds → parse_weekdays (format_weekdays ds) ≡ ds
unfolding parse_weekdays format_weekdays sort_days sort_by days_among split_on join_comma atoi
    trim_space trim_left trim_right
parse_weekdays-format_weekdays [] a h = refl
parse_weekdays-format_weekdays (d ∷ ds) a h =
    rw
      (split_on-join_comma (itoa d) (map itoa ds) (All-Lacks (d ∷ ds) h), days_among-map (d ∷ ds) h)
      (sort_days-Ascends (d ∷ ds) a)
