-- ===== src/Limiter/Burst.antt =====
-- Requests at one instant.
use Prim.Native.Nat.{min}
use travel_mcp.Prelude.{
  ℕ, zero, suc, ◌+◌, ◌-◌, ◌≤◌, ◌<◌, ◌≡◌, refl, String, Bool, true, false, ◌||◌, none, ltb, str_eq,
  if◌then◌else◌, lookup, arith,
}
use travel_mcp.Float.{Float}
use travel_mcp.Limiter.{
  Bucket, RateLimiter, put_limiter, limiter_key, limits_of, new_bucket, capped, allow, get_limiter,
  middleware,
}
use travel_mcp.Limiter.Apart.{own_bucket}

-- What floats do with whole numbers up to a limit: they keep their order, 1 can be taken off, and no
-- time adds nothing.
pub record Exact {F : Type 0} (fl : Float F) (seconds : ℕ → F) (rps limit : ℕ) : Type 0 where
  pub in_order : (n : ℕ) → n ≤ limit → fl.lt (fl.of_ℕ limit) (fl.of_ℕ n) ≡ false
  pub under_one : (n : ℕ) → n ≤ limit → fl.lt (fl.of_ℕ n) (fl.of_ℕ 1) ≡ ltb n 1
  pub one_less : (n : ℕ) → n < limit → fl.sub (fl.of_ℕ (suc n)) (fl.of_ℕ 1) ≡ fl.of_ℕ n
  pub at_once :
      (n : ℕ) → n ≤ limit → fl.add (fl.of_ℕ n) (fl.mul (seconds 0) (fl.of_ℕ rps)) ≡ fl.of_ℕ n

module _ {F : Type 0} ⦃fl : Float F⦄ where
  abbrev bucket_of : ℕ → ℕ → ℕ → ℕ → Bucket F
  bucket_of now rps burst k = record {
    tokens = fl.of_ℕ k;
    last = now;
    rps = fl.of_ℕ rps;
    burst = fl.of_ℕ burst;
  }

  allow_empty :
      (seconds : ℕ → F) (now rps burst : ℕ)
      → Exact fl seconds rps burst
      → allow seconds now (bucket_of now rps burst 0) ≡ (bucket_of now rps burst 0, false)
  unfolding allow capped
  allow_empty seconds now rps burst x =
      let zero_time : now - now ≡ 0 = omega arith in
      rw
        (
          zero_time,
          x.at_once 0 (omega arith),
          x.in_order 0 (omega arith),
          x.under_one 0 (omega arith),
        )
        refl

  allow_one :
      (seconds : ℕ → F) (now rps burst k : ℕ)
      → Exact fl seconds rps burst
      → suc k ≤ burst
      → allow seconds now (bucket_of now rps burst (suc k)) ≡ (bucket_of now rps burst k, true)
  unfolding allow capped
  allow_one seconds now rps burst k x le =
      let zero_time : now - now ≡ 0 = omega arith in
      let enough : ltb (suc k) 1 ≡ false = ground arith in
      rw
        (
          zero_time,
          x.at_once (suc k) le,
          x.in_order (suc k) le,
          x.under_one (suc k) le,
          enough,
          x.one_less k le,
        )
        refl

  -- How many of some requests at one instant go on.
  pub served : (ℕ → F) → ℕ → String → String → ℕ → RateLimiter F → ℕ
  served seconds now address path zero rl = 0
  served seconds now address path (suc n) rl =
      let (after, ok) = middleware seconds now address path rl in
      (if ok then 1 else 0) + served seconds now address path n after

  module _ (seconds : ℕ → F) (now : ℕ) (address path : String) (rps burst : ℕ)
      (x : Exact fl seconds rps burst)
      (limited : (str_eq path "/healthz" || str_eq path "/readyz") ≡ false) where
    middleware_step :
        (rl : RateLimiter F) (b : Bucket F) (ok : Bool) (k : ℕ)
        → get_limiter now address path rl ≡ bucket_of now rps burst k
        → allow seconds now (bucket_of now rps burst k) ≡ (b, ok)
        → middleware seconds now address path rl
          ≡ (record rl { limiters = put_limiter (limiter_key address path) b rl.limiters }, ok)
    unfolding middleware
    middleware_step rl b ok k found step = rw (limited, found, step) refl

    later_bucket :
        (rl : RateLimiter F) (b : Bucket F)
        → get_limiter now address path
            (record rl { limiters = put_limiter (limiter_key address path) b rl.limiters })
          ≡ b
    unfolding get_limiter
    later_bucket rl b = rw (own_bucket (limiter_key address path) b rl.limiters, get_limiter) refl

    served_from :
        (n k : ℕ) (rl : RateLimiter F)
        → k ≤ burst
        → get_limiter now address path rl ≡ bucket_of now rps burst k
        → served seconds now address path n rl ≡ min n k
    unfolding served
    served_from zero k rl le found = omega arith
    served_from (suc n) zero rl le found =
        let step = middleware_step rl _ false 0 found (allow_empty seconds now rps burst x) in
        let rest = served_from n zero _ le (later_bucket rl (bucket_of now rps burst 0)) in
        rw step (omega arith)
    served_from (suc n) (suc k) rl le found =
        let step =
          middleware_step rl _ true (suc k) found (allow_one seconds now rps burst k x le) in
        let rest = served_from n k _ (omega arith) (later_bucket rl (bucket_of now rps burst k)) in
        rw step (omega arith)

    -- Of the requests that come from one address for one path at one instant, to a limiter that has no
    -- bucket for them, as many go on as the burst of the path allows, and no more; the path is not one
    -- of the two for health, and floats are exact on numbers up to the burst.
    pub middleware-burst :
        (n : ℕ) (rl : RateLimiter F)
        → lookup (limiter_key address path) rl.limiters ≡ none
        → limits_of rl path ≡ (rps, burst)
        → served seconds now address path n rl ≡ min n burst
    unfolding get_limiter new_bucket
    middleware-burst n rl fresh limits =
        served_from n burst rl (omega arith) (rw (fresh, limits, get_limiter) refl)
