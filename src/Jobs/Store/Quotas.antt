-- ===== src/Jobs/Store/Quotas.antt =====
-- The daily quotas.
use Prim.Native.Nat.{min}
use Prim.Native.String.{◌++◌ as ◌<>◌}
use travel_mcp.Prelude.{
  none, not, keep, ℕ, zero, suc, ◌+◌, ◌-◌, ◌≤◌, ◌≡◌, refl, ap, ◌∙◌, inl, inr, String, true, false,
  List, [], ◌∷◌, ◌++◌, some, arith, leb, leb→le, str_eq, eq_iff, eq_refl, if◌then◌else◌, All,
  Bool-cases,
}
use travel_mcp.Jobs.Store.{
  QuotaRow, Store, get_text, put_text, quota_row, limit_of, try_consume_quota,
}

pub get_text-put_text :
    {V : Type 0} (k j : String) (v : V) (rows : List (String × V))
    → get_text k (put_text j v rows) ≡ (if str_eq j k then some v else get_text k rows)
unfolding get_text put_text
get_text-put_text k j v [] = refl
get_text-put_text k j v ((i, w) ∷ rows) =
    ground (arith, eq_iff k j, eq_iff i k, eq_iff i j, eq_iff j k, get_text-put_text k j v rows)

abbrev pub key : String → String → String
key day provider = provider <> ":" <> day

-- No row has used more than its limit.
abbrev pub WithinLimits : List (String × QuotaRow) → Type 0
WithinLimits = All λ r. r.1.used ≤ r.1.limit

put_text-WithinLimits :
    (k : String) (q : QuotaRow) (rows : List (String × QuotaRow))
    → q.used ≤ q.limit
    → WithinLimits rows
    → WithinLimits (put_text k q rows)
unfolding put_text
put_text-WithinLimits k q [] h w = (h, tt)
put_text-WithinLimits k q ((j, r) ∷ rows) h (first, w) = elim (Bool-cases (str_eq j k)) [
  | inl y ↦ rw y (h, w)
  | inr n ↦ rw n (first, put_text-WithinLimits k q rows h w)
]

-- A consumption keeps every row within its limit, whatever limit the caller gives.
pub try_consume_quota-WithinLimits :
    (now : ℕ) (day provider : String) (limit : ℕ) (s : Store)
    → WithinLimits s.quotas
    → WithinLimits (try_consume_quota now day provider limit s).0.quotas
unfolding try_consume_quota
try_consume_quota-WithinLimits now day provider limit s w =
    let q = quota_row day provider limit s in
    elim (Bool-cases (leb (limit_of q limit) q.used)) [
      | inl y ↦ rw y w
      | inr n ↦ rw n (put_text-WithinLimits (key day provider) _ s.quotas (ground arith) w)
    ]

-- How many of `n` consumptions in a row are granted.
pub granted : ℕ → ℕ → String → String → ℕ → Store → ℕ
granted zero now day provider limit s = 0
granted (suc n) now day provider limit s =
    let rest = granted n now day provider limit (try_consume_quota now day provider limit s).0 in
    if (try_consume_quota now day provider limit s).1 then suc rest else rest

limit_of_same : (q : QuotaRow) (limit : ℕ) → q.limit ≡ limit → limit_of q limit ≡ limit
unfolding limit_of
limit_of_same q limit e = ground arith

quota_row_put :
    (day provider : String) (limit : ℕ) (row : QuotaRow) (s t : Store)
    → t.quotas ≡ put_text (key day provider) row s.quotas
    → quota_row day provider limit t ≡ row
unfolding quota_row
quota_row_put day provider limit row s t e =
    let k = key day provider in
    let found : get_text k t.quotas ≡ some row =
      ap (get_text k) e
      ∙ get_text-put_text k k row s.quotas
      ∙ ap (λ b. if b then some row else get_text k s.quotas) (eq_refl k) in
    rw (found, quota_row)

module _ (now : ℕ) (day provider : String) (limit : ℕ) (s : Store) where
  -- The row from which the consumption is made.
  abbrev row_of : QuotaRow
  row_of = quota_row day provider limit s

  -- The row and the store after a consumption.
  abbrev used_row : QuotaRow
  used_row = record row_of { used = row_of.used + 1; limit = limit_of row_of limit }

  abbrev consumed : Store
  consumed = record s {
    quotas = put_text (key day provider) used_row s.quotas;
    api_calls =
        s.api_calls
        ++ (record { provider = provider; endpoint = "quota_consume"; at = now; cost = 1 } ∷ []);
  }

  consume_open :
      leb (limit_of row_of limit) row_of.used ≡ false
      → try_consume_quota now day provider limit s ≡ (consumed, true, row_of.used + 1)
  unfolding try_consume_quota
  consume_open e = rw e

  consume_row :
      row_of.limit ≡ limit
      → row_of.used + 1 ≤ limit
      → (try_consume_quota now day provider limit s ≡ (consumed, true, row_of.used + 1))
        × (quota_row day provider limit consumed ≡ used_row)
        × (limit_of row_of limit ≡ limit)
  consume_row e h =
      let same = limit_of_same row_of limit e in
      let open_row : leb (limit_of row_of limit) row_of.used ≡ false = rw same (ground arith) in
      (consume_open open_row, quota_row_put day provider limit used_row s consumed refl, same)

  consume_full :
      row_of.limit ≡ limit
      → limit ≤ row_of.used
      → try_consume_quota now day provider limit s ≡ (s, false, row_of.used)
  unfolding try_consume_quota
  consume_full e h =
      let full : leb (limit_of row_of limit) row_of.used ≡ true =
        rw (limit_of_same row_of limit e) (ground arith) in
      rw full

-- Of `n` consumptions in a row under one limit, as many are granted as the limit still allows.
pub granted_lem :
    (n now : ℕ) (day provider : String) (limit : ℕ) (s : Store)
    → (quota_row day provider limit s).limit ≡ limit
    → (quota_row day provider limit s).used ≤ limit
    → granted n now day provider limit s ≡ min n (limit - (quota_row day provider limit s).used)
unfolding granted
granted_lem zero now day provider limit s e h = omega arith
granted_lem (suc n) now day provider limit s e h =
    let q = quota_row day provider limit s in
    elim (Bool-cases (leb limit q.used)) [
      | inl y ↦
          let full = consume_full now day provider limit s e (ground arith) in
          rw full (granted_lem n now day provider limit s e h ∙ (omega (arith, leb→le _ _ y)))
      | inr n' ↦
          let room : q.used + 1 ≤ limit = ground arith in
          let (ok, row, same) = consume_row now day provider limit s e room in
          let after = consumed now day provider limit s in
          let row_limit : (quota_row day provider limit after).limit ≡ limit =
            ap (λ (x : QuotaRow). x.limit) row ∙ same in
          let row_used : (quota_row day provider limit after).used ≡ q.used + 1 =
            ap (λ (x : QuotaRow). x.used) row in
          let ih = granted_lem n now day provider limit after row_limit (omega arith) in
          rw ok (omega arith)
    ]

-- A text that is dropped is not read.
pub get_text-dropped :
    {V : Type 0} (k : String) (rows : List (String × V))
    → get_text k (keep (λ (r : String × V). not (str_eq r.0 k)) rows) ≡ none
unfolding get_text keep
get_text-dropped k [] = refl
get_text-dropped k ((j, v) ∷ rows) = elim (Bool-cases (str_eq j k)) [
  | inl y ↦ rw y (get_text-dropped k rows)
  | inr n ↦ rw (n, n) (get_text-dropped k rows)
]
