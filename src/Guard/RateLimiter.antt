-- ===== src/Guard/RateLimiter.antt =====
-- The fixed-window limiter of internal/middleware/guard.go. Times are nanoseconds since a fixed
-- origin; `now.Sub(t) >= d` is read as `t + d <= now`, which needs no signed difference.
-- `cleanup` is the body of the ticker's loop.
pub mod Bounds
pub mod Cleanup
use shield_agent.Prelude.{
  ℕ, ◌+◌, ◌*◌, Bool, true, false, Option, none, some, List, [], ◌∷◌, ◌&&◌, leb, Text, ◌=ₜ◌,
  if◌then◌else◌,
}
use shield_agent.Prelude.Map.{Map, empty, insert, delete_if}

pub record Bucket : Type 0 where
  pub count : ℕ
  pub window_start : ℕ

pub record RateLimiter : Type 0 where
  pub max_requests : ℕ
  pub window : ℕ
  pub buckets : Map Bucket

unfoldable pub new_rate_limiter : ℕ → ℕ → RateLimiter
new_rate_limiter max_requests window = record {
  max_requests = max_requests;
  window = window;
  buckets = empty;
}

abbrev pub put : RateLimiter → Text → Bucket → RateLimiter
put rl key b = record rl { buckets = insert key b rl.buckets }

-- `count >= limit` refuses, otherwise the count grows
abbrev pub take_slot : RateLimiter → ℕ → Text → ℕ → Option Bucket → RateLimiter × Bool
take_slot rl now key limit none = (put rl key (record { count = 1; window_start = now }), true)
take_slot rl now key limit (some b) =
    if leb (b.window_start + rl.window) now
    then (put rl key (record { count = 1; window_start = now }), true)
    else if leb limit b.count
    then (rl, false)
    else (put rl key (record b { count = b.count + 1 }), true)

unfoldable pub allow_with_limit : RateLimiter → ℕ → Text → ℕ → RateLimiter × Bool
allow_with_limit rl now key limit = take_slot rl now key limit (rl.buckets key)

unfoldable pub allow : RateLimiter → ℕ → Text → RateLimiter × Bool
unfolding allow_with_limit
allow rl now key = allow_with_limit rl now key rl.max_requests

abbrev pub is_stale : RateLimiter → ℕ → Bucket → Bool
is_stale rl now b = leb (b.window_start + rl.window * 2) now

unfoldable pub cleanup : RateLimiter → ℕ → RateLimiter
cleanup rl now = record rl { buckets = delete_if (is_stale rl now) rl.buckets }
