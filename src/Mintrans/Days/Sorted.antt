-- ===== src/Mintrans/Days/Sorted.antt =====
-- Days of the week in order.
use mathlib.Core.Option.{some-injective, none-ne-some}
use travel_mcp.Prelude.{
  ℕ, suc, ◌≤◌, ◌<◌, ◌≡◌, ◌≢◌, refl, ap, ◌∙◌, subst, length-append, inl, inr, true, false, ltb, leb,
  ◌==◌, Bool-cases, length, All, All-append, List, [], ◌∷◌, ◌++◌, keep, some, arith,
}
use travel_mcp.Prelude.Sort.{insert_by, sort_by, All-insert_by, All-sort_by}
use travel_mcp.Mintrans.Days.{has_day, add_day, add_days, sort_days, norm_weekdays}

-- Each day is after the one before.
abbrev pub Ascends : List ℕ → Type 0
Ascends [] = Unit
Ascends (d ∷ ds) = All (λ n. d < n) ds × Ascends ds

-- Some days of a week in order, and not all seven.
abbrev pub IsWeek : List ℕ → Type 0
IsWeek ds = Ascends ds × All (λ n. n ≤ 6) ds × (1 ≤ length ds) × (length ds ≢ 7)

unfoldable pub Distinct : List ℕ → Type 0
Distinct [] = Unit
Distinct (d ∷ ds) = All (λ n. n ≢ d) ds × Distinct ds

insert_front : (d : ℕ) (ds : List ℕ) → All (λ n. d < n) ds → insert_by ltb d ds ≡ d ∷ ds
unfolding insert_by
insert_front d [] h = refl
insert_front d (n ∷ ds) (l, h) = ground arith

-- Days in order are sorted.
pub sort_days-Ascends : (ds : List ℕ) → Ascends ds → sort_days ds ≡ ds
unfolding sort_days sort_by
sort_days-Ascends [] h = refl
sort_days-Ascends (d ∷ ds) (h, r) = rw (sort_days-Ascends ds r) (insert_front d ds h)

pub All-sort_days : (P : ℕ → Type 0) (ds : List ℕ) → All P ds → All P (sort_days ds)
unfolding sort_days
All-sort_days P ds h = All-sort_by ltb P ds h

above : (d n : ℕ) (ds : List ℕ) → d < n → All (λ k. n < k) ds → All (λ k. d < k) ds
above d n [] l h = tt
above d n (k ∷ ds) l (m, h) = (omega arith, above d n ds l h)

insert_by-Ascends :
    (d : ℕ) (ds : List ℕ) → All (λ n. n ≢ d) ds → Ascends ds → Ascends (insert_by ltb d ds)
unfolding insert_by
insert_by-Ascends d [] h a = (tt, tt)
insert_by-Ascends d (n ∷ ds) (ne, h) (f, a) = elim (Bool-cases (ltb n d)) [
  | inl y ↦ rw y (All-insert_by ltb (λ k. n < k) d ds (ground arith) f, insert_by-Ascends d ds h a)
  | inr n0 ↦ let l : d < n = ground arith in rw n0 ((l, above d n ds l f), (f, a))
]

pub sort_days-Distinct : (ds : List ℕ) → Distinct ds → Ascends (sort_days ds)
unfolding sort_days sort_by Distinct
sort_days-Distinct [] h = tt
sort_days-Distinct (d ∷ ds) (ne, h) =
    insert_by-Ascends d (sort_days ds) (All-sort_days (λ n. n ≢ d) ds ne) (sort_days-Distinct ds h)

length-insert_by : (d : ℕ) (ds : List ℕ) → length (insert_by ltb d ds) ≡ suc (length ds)
unfolding insert_by
length-insert_by d [] = refl
length-insert_by d (n ∷ ds) = elim (Bool-cases (ltb n d)) [
  | inl y ↦ rw y (ap suc (length-insert_by d ds))
  | inr n0 ↦ rw n0 refl
]

pub length-sort_days : (ds : List ℕ) → length (sort_days ds) ≡ length ds
unfolding sort_days sort_by
length-sort_days [] = refl
length-sort_days (d ∷ ds) = length-insert_by d (sort_days ds) ∙ ap suc (length-sort_days ds)

fresh_day : (out : List ℕ) (n : ℕ) → has_day out n ≡ false → All (λ k. k ≢ n) out
unfolding has_day
fresh_day [] n h = tt
fresh_day (d ∷ out) n h = (ground arith, fresh_day out n (ground arith))

Distinct-append :
    (out : List ℕ) (n : ℕ) → Distinct out → All (λ k. k ≢ n) out → Distinct (out ++ (n ∷ []))
unfolding Distinct
Distinct-append [] n h f = (tt, tt)
Distinct-append (d ∷ out) n (ne, h) (k, f) =
    (All-append (λ m. m ≢ d) out (n ∷ []) ne (omega arith, tt), Distinct-append out n h f)

pub add_days-Distinct : (ns out : List ℕ) → Distinct out → Distinct (add_days out ns)
unfolding add_days add_day
add_days-Distinct [] out h = h
add_days-Distinct (n ∷ ns) out h = elim (Bool-cases (has_day out n)) [
  | inl y ↦ rw y (add_days-Distinct ns out h)
  | inr n0 ↦
      rw n0 (add_days-Distinct ns (out ++ (n ∷ [])) (Distinct-append out n h (fresh_day out n n0)))
]

pub All-add_days :
    (P : ℕ → Type 0) (ns out : List ℕ) → All P ns → All P out → All P (add_days out ns)
unfolding add_days add_day
All-add_days P [] out h o = o
All-add_days P (n ∷ ns) out (p, h) o = elim (Bool-cases (has_day out n)) [
  | inl y ↦ rw y (All-add_days P ns out h o)
  | inr n0 ↦ rw n0 (All-add_days P ns (out ++ (n ∷ [])) h (All-append P out _ o (p, tt)))
]

length-add_days : (ns out : List ℕ) → length out ≤ length (add_days out ns)
unfolding add_days add_day
length-add_days [] out = omega arith
length-add_days (n ∷ ns) out = elim (Bool-cases (has_day out n)) [
  | inl y ↦ rw y (length-add_days ns out)
  | inr n0 ↦
      let more = length-append out (n ∷ []) in
      let rest = length-add_days ns (out ++ (n ∷ [])) in rw n0 (omega arith)
]

All-keep : (ds : List ℕ) → All (λ n. n ≤ 6) (keep (λ n. leb n 6) ds)
unfolding keep
All-keep [] = tt
All-keep (d ∷ ds) = elim (Bool-cases (leb d 6)) [
  | inl y ↦ rw y (ground arith, All-keep ds)
  | inr n0 ↦ rw n0 (All-keep ds)
]

keep-length :
    (d : ℕ) (ds : List ℕ) → d ≤ 6 → 1 ≤ length (add_days [] (keep (λ n. leb n 6) (d ∷ ds)))
unfolding keep add_days add_day has_day
keep-length d ds h =
    let y : leb d 6 ≡ true = ground arith in
    rw y (length-add_days (keep (λ n. leb n 6) ds) (d ∷ []))

-- What `norm_weekdays` gives is some days of a week in order, if it is given some.
pub norm_weekdays-IsWeek :
    (d : ℕ) (ds : List ℕ) (out : List ℕ) → d ≤ 6 → norm_weekdays (d ∷ ds) ≡ some out → IsWeek out
unfolding norm_weekdays Distinct
norm_weekdays-IsWeek d ds out h e = elim (Bool-cases (length week == 7)) [
  | inl y ↦ absurd (none-ne-some _ (rw y at e))
  | inr n0 ↦ subst IsWeek (some-injective _ _ (rw n0 at e)) (is_week n0)
]
  where
    found : List ℕ
    found = add_days [] (keep (λ n. leb n 6) (d ∷ ds))

    week : List ℕ
    week = sort_days found

    is_week : (length week == 7) ≡ false → IsWeek week
    is_week n0 =
        let same = length-sort_days found in
        let one = keep-length d ds h in
        (
          sort_days-Distinct found (add_days-Distinct (keep (λ n. leb n 6) (d ∷ ds)) [] tt),
          All-sort_days (λ n. n ≤ 6) found
              (All-add_days (λ n. n ≤ 6) (keep (λ n. leb n 6) (d ∷ ds)) [] (All-keep (d ∷ ds)) tt),
          omega arith,
          ground arith,
        )
