-- ===== src/Cache/Lifetime.antt =====
-- How long a value is found.
use travel_mcp.Prelude.{
  ℕ, suc, ◌+◌, ◌≤◌, ◌≡◌, refl, sym, ap, ◌∙◌, inl, inr, arith, String, true, List, Option, none,
  some, leb, str_eq, if◌then◌else◌, pos, eq_iff, eq_refl, Bool-cases, Option-cases,
}
use travel_mcp.Cache.{Entry, MemoryCache, expired, delete, get, expiry, set}

-- A value that is set with a lifetime is found until that is over, and then no more.
pub get-set :
    (now later : ℕ) (m : MemoryCache) (k : String) (v : List ℕ) (n : ℕ)
    → (get later (set now m k v (pos (suc n))) k).1
      ≡ (if leb later (now + suc n) then some v else none)
unfolding get set expired expiry
get-set now later m k v n = rw (eq_refl k, get) (ground arith)

expired_later :
    (now later : ℕ) (e : Entry) → now ≤ later → expired now e ≡ true → expired later e ≡ true
unfolding expired
expired_later now later e le h = elim (Option-cases e.exp) [
  | inl n ↦ absurd (ground (arith, n))
  | inr (t, some_t) ↦ rw some_t (ground arith)
]

-- What a reading answers from the entry that it finds.
abbrev answer : ℕ → Option Entry → Option (List ℕ)
answer now none = none
answer now (some e) = if expired now e then none else some e.val

get-answer : (now : ℕ) (m : MemoryCache) (k : String) → (get now m k).1 ≡ answer now (m k)
unfolding get
get-answer now m k = by_entry (m k) refl
  where
    by_entry : (o : Option Entry) → m k ≡ o → (get now m k).1 ≡ answer now o
    by_entry none at = rw (at, get)
    by_entry (some e) at = elim (Bool-cases (expired now e)) [
      | inl y ↦ rw (at, y, get)
      | inr n ↦ rw (at, n, get)
    ]

answer_dropped :
    (later : ℕ) (m : MemoryCache) (k j : String) (e : Entry)
    → m k ≡ some e
    → expired later e ≡ true
    → answer later (delete m k j) ≡ answer later (m j)
unfolding delete
answer_dropped later m k j e at old = elim (Bool-cases (str_eq k j)) [
  | inl y ↦ let here : m j ≡ some e = ap m (sym ((eq_iff k j).0 y)) ∙ at in rw (y, here, old)
  | inr n ↦ rw n
]

-- A reading changes no answer of a later reading, of any key.
pub get-get :
    (now later : ℕ) (m : MemoryCache) (k j : String)
    → now ≤ later
    → (get later (get now m k).0 j).1 ≡ (get later m j).1
unfolding get
get-get now later m k j le =
    get-answer later (get now m k).0 j ∙ left_alone (m k) refl ∙ sym (get-answer later m j)
  where
    left_alone :
        (o : Option Entry) → m k ≡ o → answer later ((get now m k).0 j) ≡ answer later (m j)
    left_alone none at = rw (at, get)
    left_alone (some e) at = elim (Bool-cases (expired now e)) [
      | inl y ↦ rw (at, y, get) (answer_dropped later m k j e at (expired_later now later e le y))
      | inr n ↦ rw (at, n, get)
    ]
