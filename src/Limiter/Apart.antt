-- ===== src/Limiter/Apart.antt =====
-- What a request leaves to the others.
use travel_mcp.Prelude.{
  ℕ, ◌≡◌, ◌≢◌, refl, ap, ◌∙◌, inl, inr, String, false, ◌||◌, List, [], ◌∷◌, Option, none, some,
  str_eq, if◌then◌else◌, lookup, arith, eq_iff, eq_refl, Bool-cases,
}
use travel_mcp.Float.{Float}
use travel_mcp.Limiter.{
  Bucket, RateLimiter, put_limiter, limiter_key, limits_of, new_bucket, allow, get_limiter,
  middleware,
}

pub lookup-put_limiter :
    {F : Type 0} (k j : String) (b : Bucket F) (m : List (String × Bucket F))
    → lookup k (put_limiter j b m) ≡ (if str_eq j k then some b else lookup k m)
unfolding lookup put_limiter
lookup-put_limiter k j b [] = refl
lookup-put_limiter k j b ((i, c) ∷ m) =
    ground (arith, eq_iff i j, eq_iff i k, eq_iff j k, lookup-put_limiter k j b m)

pub other_bucket :
    {F : Type 0} (k j : String) (b : Bucket F) (m : List (String × Bucket F))
    → str_eq j k ≡ false
    → lookup k (put_limiter j b m) ≡ lookup k m
other_bucket k j b m n = lookup-put_limiter k j b m ∙ rw n refl

pub own_bucket :
    {F : Type 0} (k : String) (b : Bucket F) (m : List (String × Bucket F))
    → lookup k (put_limiter k b m) ≡ some b
own_bucket k b m = lookup-put_limiter k k b m ∙ rw (eq_refl k) refl

module _ {F : Type 0} ⦃fl : Float F⦄ where
  -- The same bucket for the same limits.
  get_limiter_same :
      (now : ℕ) (address path : String) (rl : RateLimiter F) (b : Bucket F) (k : String)
      → str_eq k (limiter_key address path) ≡ false
      → get_limiter now address path (record rl { limiters = put_limiter k b rl.limiters })
        ≡ get_limiter now address path rl
  unfolding get_limiter limits_of
  get_limiter_same now address path rl b k n =
      ap
        (λ (o : Option (Bucket F)). elim o [
          | some lim ↦ lim
          | none ↦ let (rps, burst) = limits_of rl path in new_bucket now rps burst
        ])
        (other_bucket (limiter_key address path) k b rl.limiters n)

  -- Requests keep apart: one request does not change the answer to a request with another key, at
  -- whatever time that comes.
  pub middleware-apart :
      (seconds : ℕ → F) (now later : ℕ) (address path address' path' : String) (rl : RateLimiter F)
      → limiter_key address path ≢ limiter_key address' path'
      → (middleware seconds later address' path' (middleware seconds now address path rl).0).1
        ≡ (middleware seconds later address' path' rl).1
  unfolding middleware
  middleware-apart seconds now later address path address' path' rl ne =
      elim (Bool-cases (str_eq path "/healthz" || str_eq path "/readyz")) [
        | inl y ↦ rw y refl
        | inr n ↦ elim (Bool-cases (str_eq path' "/healthz" || str_eq path' "/readyz")) [
          | inl y ↦ rw (n, y) refl
          | inr m ↦
              let other : str_eq (limiter_key address path) (limiter_key address' path') ≡ false =
                ground (arith, eq_iff (limiter_key address path) (limiter_key address' path')) in
              let b = (allow seconds now (get_limiter now address path rl)).0 in
              rw (n, m)
                (ap (λ lim. (allow seconds later lim).1)
                  (get_limiter_same later address' path' rl b (limiter_key address path) other))
        ]
      ]
