-- ===== src/Limiter.antt =====
-- internal/middleware/ratelimit.go: a bucket of tokens for each address and path. Times are numbers of
-- nanoseconds; `seconds` is `Duration.Seconds()`. The lock is left out, and a bucket, which the source
-- changes in place, is written back under its key.
pub mod Apart
pub mod Burst
use travel_mcp.Prelude.{
  ℕ, ◌+◌, ◌-◌, String, Bool, true, false, ◌||◌, List, [], ◌∷◌, Option, none, some, str_eq,
  if◌then◌else◌, lookup, ℤ, pos, negsuc, zero, suc,
}
use travel_mcp.Strings.{◌<>◌}
use travel_mcp.Float.{Float}

pub record Bucket (F : Type 0) : Type 0 where
  pub tokens : F
  pub last : ℕ
  pub rps : F
  pub burst : F

-- What the file of settings says; `config.RateLimit`.
pub record RateLimit : Type 0 where
  pub rps : ℤ
  pub burst : ℤ

pub record RateLimiter (F : Type 0) : Type 0 where
  pub limiters : List (String × Bucket F)
  pub def_rps : ℕ
  pub def_burst : ℕ
  pub overrides : List (String × RateLimit)

-- The number if it is greater than 0, else the other one.
unfoldable pub positive_or : ℕ → ℤ → ℕ
positive_or d (pos zero) = d
positive_or d (pos (suc n)) = suc n
positive_or d (negsuc n) = d

-- `config.Defaults()` has 100 requests a second and bursts of 200.
unfoldable pub new_rate_limiter :
    {F : Type 0} → RateLimit → List (String × RateLimit) → RateLimiter F
new_rate_limiter cfg overrides = record {
  limiters = [];
  def_rps = positive_or 100 cfg.rps;
  def_burst = positive_or 200 cfg.burst;
  overrides = overrides;
}

unfoldable pub put_limiter :
    {F : Type 0} → String → Bucket F → List (String × Bucket F) → List (String × Bucket F)
put_limiter k b [] = (k, b) ∷ []
put_limiter k b ((j, c) ∷ m) =
    let rest = put_limiter k b m in if str_eq j k then (j, b) ∷ m else (j, c) ∷ rest

-- `key + "|" + path`
unfoldable pub limiter_key : String → String → String
limiter_key key path = key <> ("|" <> path)

-- The requests a second and the burst of a path.
unfoldable pub limits_of : {F : Type 0} → RateLimiter F → String → ℕ × ℕ
limits_of rl path = elim (lookup path rl.overrides) [
  | none ↦ (rl.def_rps, rl.def_burst)
  | some ov ↦ (positive_or rl.def_rps ov.rps, positive_or rl.def_burst ov.burst)
]

module _ {F : Type 0} ⦃fl : Float F⦄ where
  open fl use {of_ℕ, add, sub, mul, lt}

  unfoldable pub new_bucket : ℕ → ℕ → ℕ → Bucket F
  new_bucket now rps burst = record {
    tokens = of_ℕ burst;
    last = now;
    rps = of_ℕ rps;
    burst = of_ℕ burst;
  }

  unfoldable pub capped : F → F → F
  capped tokens burst = if lt burst tokens then burst else tokens

  unfoldable pub allow : (ℕ → F) → ℕ → Bucket F → Bucket F × Bool
  allow seconds now b =
      let tokens = capped (add b.tokens (mul (seconds (now - b.last)) b.rps)) b.burst in
      if lt tokens (of_ℕ 1)
      then (record b { last = now; tokens = tokens }, false)
      else (record b { last = now; tokens = sub tokens (of_ℕ 1) }, true)

  unfoldable pub get_limiter : ℕ → String → String → RateLimiter F → Bucket F
  get_limiter now key path rl = elim (lookup (limiter_key key path) rl.limiters) [
    | some lim ↦ lim
    | none ↦ let (rps, burst) = limits_of rl path in new_bucket now rps burst
  ]

  -- Whether the request goes on to the next handler; if not, the answer is 429. `address` is what
  -- `clientIP` makes of the request.
  unfoldable pub middleware : (ℕ → F) → ℕ → String → String → RateLimiter F → RateLimiter F × Bool
  middleware seconds now address path rl =
      if str_eq path "/healthz" || str_eq path "/readyz"
      then (rl, true)
      else let (b, ok) = allow seconds now (get_limiter now address path rl) in
        (record rl { limiters = put_limiter (limiter_key address path) b rl.limiters }, ok)
