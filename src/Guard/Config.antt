-- ===== src/Guard/Config.antt =====
-- `GuardConfig`, `NewGuardMiddleware` and `SetReputation` of internal/middleware/guard.go. Durations
-- are nanoseconds; the goroutines that call `cleanup` are steps of their own.
use shield_agent.Prelude.{
  ℕ, ◌*◌, ◌≡◌, Bool, false, Option, none, some, List, Text, if◌then◌else◌, ◌==◌, arith,
}
use shield_agent.Prelude.Int.{ℤ, positive, pos_part}
use shield_agent.Prelude.Result.{ok}
use shield_agent.Jsonrpc.{Request}
use shield_agent.AuthResult.{AuthResult}
use shield_agent.Guard.RateLimiter.{RateLimiter, new_rate_limiter}
use shield_agent.Guard.BruteForce.{BruteForceTracker, new_brute_force_tracker}
use shield_agent.Guard.IpAccess.{NetParser, IpLists, parse_entries}
use shield_agent.Guard.Request.{Multipliers, Guard, process_request}

pub record GuardConfig : Type 0 where
  pub rate_limit_per_min : ℤ
  pub max_body_size : ℤ
  pub ip_blocklist : List Text
  pub ip_allowlist : List Text
  pub brute_force_max_fails : ℤ
  pub brute_force_window : ℕ
  pub brute_force_block_dur : ℕ
  pub validate_jsonrpc : Bool

abbrev pub minute : ℕ
minute = 60_000_000_000

abbrev pub or_default : ℕ → ℕ → ℕ
or_default d default = if d == 0 then default else d

unfoldable pub new_limiter : GuardConfig → Option RateLimiter
new_limiter cfg =
    if positive cfg.rate_limit_per_min
    then some (new_rate_limiter (pos_part cfg.rate_limit_per_min) minute)
    else none

unfoldable pub new_tracker : GuardConfig → Option BruteForceTracker
new_tracker cfg =
    if positive cfg.brute_force_max_fails
    then some (
        new_brute_force_tracker (pos_part cfg.brute_force_max_fails)
          (or_default cfg.brute_force_window (5 * minute))
          (or_default cfg.brute_force_block_dur (10 * minute)))
    else none

-- The lists that `NewGuardMiddleware` fills.
unfoldable pub new_ip_lists : NetParser → GuardConfig → IpLists
new_ip_lists p cfg = record {
  blocklist = parse_entries p cfg.ip_blocklist;
  allowlist = parse_entries p cfg.ip_allowlist;
}

module _ (m : Multipliers) where
  unfoldable pub new_guard_middleware : GuardConfig → Guard m
  new_guard_middleware cfg = record {
    limiter = new_limiter cfg;
    max_body_size = cfg.max_body_size;
    brute_force = new_tracker cfg;
    validate_json = cfg.validate_jsonrpc;
    reputation = none;
    rejected = 0;
  }

  unfoldable pub set_reputation : Guard m → (Text → m.Multiplier) → Guard m
  set_reputation g p = record g { reputation = some p }

  -- A guard whose configuration turns off the rate limit, the size limit, the brute-force tracker
  -- and the validation passes every request on unchanged and keeps no state, with any reputation
  -- provider.
  pub process_request-new_guard_middleware :
      (cfg : GuardConfig) (provider : Text → m.Multiplier) (now : ℕ) (ar : Option AuthResult)
      (req : Request)
      → positive cfg.rate_limit_per_min ≡ false
      → positive cfg.max_body_size ≡ false
      → positive cfg.brute_force_max_fails ≡ false
      → cfg.validate_jsonrpc ≡ false
      → process_request m (set_reputation (new_guard_middleware cfg) provider) now ar req
        ≡ (set_reputation (new_guard_middleware cfg) provider, ok req)
  unfolding process_request set_reputation new_guard_middleware new_limiter new_tracker
  process_request-new_guard_middleware cfg provider now ar req a b c d = ground arith
