-- ===== src/Jobs/Message.antt =====
-- internal/jobs/worker.go, `contains` and `isRateLimited`, over the bytes of a message.
use Prim.Native.Char.{code}
use travel_mcp.Prelude.{
  ℕ, zero, suc, ◌+◌, ◌-◌, ◌≤◌, ◌≡◌, ◌↔◌, refl, sym, ap, subst, inl, inr, String, Bool, true, false,
  ◌&&◌, ◌||◌, List, [], ◌∷◌, ◌++◌, arith, leb, ◌==◌, length, length-append, Bool-cases,
}

-- The bytes of a text in ASCII.
pub bytes : String → List ℕ
bytes String.[] = []
bytes (String.◌∷◌ c s) = code c ∷ bytes s

-- `s[i:i+len(sub)] == sub`, for the rest of `s` from `i` on.
pub starts : List ℕ → List ℕ → Bool
starts s [] = true
starts [] (c ∷ sub) = false
starts (d ∷ s) (c ∷ sub) = d == c && starts s sub

-- The loop over `i`, with `rounds` positions to go.
pub found_within : ℕ → List ℕ → List ℕ → Bool
found_within zero s sub = false
found_within (suc rounds) [] sub = starts [] sub
found_within (suc rounds) (d ∷ s) sub = starts (d ∷ s) sub || found_within rounds s sub

pub contains_bytes : List ℕ → List ℕ → Bool
contains_bytes s sub = leb (length sub) (length s) && found_within (length s - length sub + 1) s sub

pub is_rate_limited : String → Bool
is_rate_limited msg =
    contains_bytes (bytes msg) (bytes "429")
    || contains_bytes (bytes msg) (bytes "rate")
    || contains_bytes (bytes msg) (bytes "quota")

starts-prefix : (s sub : List ℕ) → starts s sub ≡ true → (post : List ℕ) × (s ≡ sub ++ post)
unfolding starts
starts-prefix s [] h = (s, refl)
starts-prefix [] (c ∷ sub) h = absurd (ground arith)
starts-prefix (d ∷ s) (c ∷ sub) h =
    let (post, e) = starts-prefix s sub (ground arith) in (post, ground arith)

starts_append : (sub post : List ℕ) → starts (sub ++ post) sub ≡ true
unfolding starts
starts_append [] post = refl
starts_append (c ∷ sub) post = ground (arith, starts_append sub post)

found_within-Infix :
    (rounds : ℕ) (s sub : List ℕ)
    → found_within rounds s sub ≡ true
    → (pre : List ℕ) × (post : List ℕ) × (s ≡ pre ++ (sub ++ post))
unfolding found_within starts
found_within-Infix zero s sub h = absurd (ground arith)
found_within-Infix (suc rounds) [] sub h = let (post, e) = starts-prefix [] sub h in ([], post, e)
found_within-Infix (suc rounds) (d ∷ s) sub h = elim (Bool-cases (starts (d ∷ s) sub)) [
  | inl y ↦ let (post, e) = starts-prefix (d ∷ s) sub y in ([], post, e)
  | inr n ↦
      let (pre, post, e) = found_within-Infix rounds s sub (ground arith) in
      (d ∷ pre, post, ap (◌∷◌ d) e)
]

Infix-found_within :
    (rounds : ℕ) (pre sub post : List ℕ)
    → length pre + 1 ≤ rounds
    → found_within rounds (pre ++ (sub ++ post)) sub ≡ true
unfolding found_within starts
Infix-found_within zero pre sub post h = absurd (omega arith)
Infix-found_within (suc rounds) [] [] [] h = refl
Infix-found_within (suc rounds) [] [] (c ∷ post) h = refl
Infix-found_within (suc rounds) [] (c ∷ sub) post h = ground (arith, starts_append (c ∷ sub) post)
Infix-found_within (suc rounds) (d ∷ pre) sub post h =
    ground (arith, Infix-found_within rounds pre sub post)

contains_hit : (pre sub post : List ℕ) → contains_bytes (pre ++ (sub ++ post)) sub ≡ true
unfolding contains_bytes
contains_hit pre sub post =
    let s : List ℕ = pre ++ (sub ++ post) in
    ground (
      arith,
      length-append pre (sub ++ post),
      length-append sub post,
      Infix-found_within (length s - length sub + 1) pre sub post,
    )

-- `contains` finds a text exactly where it stands somewhere in the other.
pub contains_bytes_lem :
    (s sub : List ℕ)
    → (contains_bytes s sub ≡ true)
      ↔ ((pre : List ℕ) × (post : List ℕ) × (s ≡ pre ++ (sub ++ post)))
unfolding contains_bytes
contains_bytes_lem s sub = (
  (λ h. found_within-Infix (length s - length sub + 1) s sub (ground arith)),
  λ (pre, post, e). subst (λ z. contains_bytes z sub ≡ true) (sym e) (contains_hit pre sub post),
)
