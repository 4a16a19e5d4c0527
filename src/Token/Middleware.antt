-- ===== src/Token/Middleware.antt =====
-- internal/middleware/token.go. `raw` is the token that the transport put into the context, empty
-- if there was none; the digest is the parameter `hash_token`. `Faults` says which calls of the
-- store fail during the request. The checks read the store in `authorize`; the usage record is
-- written afterwards, in `process_request`.
pub mod Admission
pub mod Quota
use shield_agent.Prelude.{
  ℕ, Bool, true, false, Option, none, some, Text, is_empty, ◌&&◌, not, if◌then◌else◌,
}
use shield_agent.Prelude.Int.{ℤ, positive, reaches}
use shield_agent.Prelude.Result.{Result, ok, err, ◌>>=◌}
use shield_agent.Jsonrpc.{Request}
use shield_agent.Token.{
  Token, Latencies, Store, get_by_hash, is_expired, is_method_allowed, count_usage, record_usage,
  hour, month,
}

pub data TokenError : Type 0 where
  internal_error invalid_token revoked expired : TokenError
  method_not_allowed : Text → TokenError
  hourly_exceeded monthly_exceeded : ℕ → ℤ → TokenError

pub record Faults : Type 0 where
  pub lookup : Bool
  pub hourly : Bool
  pub monthly : Bool
  pub usage : Bool

abbrev pub no_faults : Faults
no_faults = record { lookup = false; hourly = false; monthly = false; usage = false }

abbrev pub guard : Bool → TokenError → Result TokenError (Unit {0})
guard true e = ok tt
guard false e = err e

module _ (lt : Latencies) where
  -- A failed record is logged and changes nothing.
  unfoldable pub record_success : Store lt → Faults → ℕ → Text → Request → Store lt
  unfolding record_usage
  record_success s f now id req =
      if f.usage then s else record_usage lt s now id req.method true lt.zero_latency

module _ (lt : Latencies) (hash_token : Text → Text) where
  abbrev pub lookup_token : Store lt → Bool → Text → Result TokenError Token
  lookup_token s true hash = err internal_error
  lookup_token s false hash = elim (get_by_hash lt s hash) [
    | none ↦ err invalid_token
    | some t ↦ ok t
  ]

  -- A quota that is not positive is no quota.
  abbrev pub check_quota :
      Store lt → ℕ → Text → ℕ → ℤ → Bool → (ℕ → ℤ → TokenError) → Result TokenError (Unit {0})
  check_quota s now id window quota fault exceeded =
      if positive quota
      then (if fault
          then err internal_error
          else if reaches (count_usage lt s now id window) quota
          then err (exceeded (count_usage lt s now id window) quota)
          else ok tt)
      else ok tt

  -- Everything that is checked before the usage is recorded.
  unfoldable pub authorize : Store lt → Faults → ℕ → Text → Request → Result TokenError Token
  authorize s f now raw req = do
    t ← lookup_token s f.lookup (hash_token raw)
    _ ← guard t.active revoked
    _ ← guard (not (is_expired t now)) expired
    _ ← guard (is_method_allowed t req.method) (method_not_allowed req.method)
    _ ← check_quota s now t.id hour t.quota_hourly f.hourly hourly_exceeded
    _ ← check_quota s now t.id month t.quota_monthly f.monthly monthly_exceeded
    ok t

  unfoldable pub process_request :
      Store lt → Faults → ℕ → Text → Request → Store lt × Result TokenError Request
  unfolding is_empty
  process_request s f now raw req =
      if is_empty raw then (s, ok req) else elim (authorize s f now raw req) [
        | err e ↦ (s, err e)
        | ok t ↦ (record_success lt s f now t.id req, ok req)
      ]
