-- ===== src/Guard/RateLimiter/Cleanup.antt =====
-- The cleanup loop frees memory and is never seen by a request.
use shield_agent.Prelude.{ℕ, ◌≤◌, ◌≡◌, Text, =ₜ_refl, arith}
use shield_agent.Guard.RateLimiter.{RateLimiter, allow_with_limit, cleanup}

module _ (rl : RateLimiter) (ticked now : ℕ) (key : Text) (limit : ℕ) (later : ticked ≤ now) where
  -- A request at or after a cleanup gets the answer, and leaves the bucket for its key, that it
  -- would have without the cleanup.
  pub allow_with_limit-cleanup :
      ((allow_with_limit (cleanup rl ticked) now key limit).1
        ≡ (allow_with_limit rl now key limit).1)
      × ((allow_with_limit (cleanup rl ticked) now key limit).0.buckets key
          ≡ (allow_with_limit rl now key limit).0.buckets key)
  unfolding allow_with_limit cleanup
  allow_with_limit-cleanup = ground (arith, =ₜ_refl key)
