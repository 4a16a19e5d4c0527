-- ===== src/Guard/Request.antt =====
-- `(*GuardMiddleware).ProcessRequest` of internal/middleware/guard.go. The several calls of
-- `time.Now` in one request are one `now`; the calls of `onReject` are counted in `rejected`. The
-- reputation's multipliers are floating-point numbers: their type, the test for zero and
-- `int(float64(limit) * multiplier)` are the parameter `Multipliers`.
pub mod Decision
use shield_agent.Prelude.{
  ℕ, ◌+◌, Bool, true, false, Option, none, some, Text, codes, String, ◌=ₜ◌, is_empty, ◌&&◌, not,
  ltb, if◌then◌else◌, length,
}
use shield_agent.Prelude.Result.{Result, ok, err}
use shield_agent.Prelude.Int.{ℤ, pos, negsuc, positive, pos_part}
use shield_agent.Jsonrpc.{Request, version}
use shield_agent.AuthResult.{AuthResult}
use shield_agent.Guard.RateLimiter.{RateLimiter, allow_with_limit}
use shield_agent.Guard.BruteForce.{BruteForceTracker, is_blocked, record_failure}

pub data GuardError : Type 0 where
  bad_version : Text → GuardError
  empty_method : GuardError
  too_large : ℕ → ℤ → GuardError
  temporarily_blocked : Text → GuardError
  reputation_blocked : GuardError
  rate_exceeded : Text → GuardError

pub record Multipliers : Type 1 where
  pub Multiplier : Type 0
  pub is_zero : Multiplier → Bool
  -- `int(float64(limit) * multiplier)`
  pub scale : ℕ → Multiplier → ℤ

module _ (m : Multipliers) where
  open m use {Multiplier, is_zero, scale}

  -- The parts of `GuardMiddleware` that a request reads or changes.
  pub record Guard : Type 0 where
    pub limiter : Option RateLimiter
    pub max_body_size : ℤ
    pub brute_force : Option BruteForceTracker
    pub validate_json : Bool
    pub reputation : Option (Text → Multiplier)
    pub rejected : ℕ

  -- The JSON-RPC envelope, where it is validated.
  abbrev pub check_json : Guard → Request → Option GuardError
  check_json g req =
      if g.validate_json
      then (if not (is_empty req.jsonrpc) && not (req.jsonrpc =ₜ version)
          then some (bad_version req.jsonrpc)
          else if is_empty req.method
          then some empty_method
          else none)
      else none

  abbrev pub exceeds : ℕ → ℤ → Bool
  exceeds size limit = positive limit && ltb (pos_part limit) size

  abbrev pub check_size : Guard → Request → Option GuardError
  check_size g req =
      if exceeds (length req.params) g.max_body_size
      then some (too_large (length req.params) g.max_body_size)
      else none

  abbrev pub reject : Guard → GuardError → Guard × Result GuardError Request
  reject g e = (record g { rejected = g.rejected + 1 }, err e)

  abbrev pub at_least_one : ℤ → ℕ
  at_least_one (pos n) = if ltb n 1 then 1 else n
  at_least_one (negsuc _) = 1

  abbrev pub scaled : Option (Text → Multiplier) → Option AuthResult → ℕ → Option ℕ
  scaled none ar limit = some limit
  scaled (some rate) none limit = some limit
  scaled (some rate) (some ar) limit =
      if is_empty ar.agent_id_hash
      then some limit
      else if is_zero (rate ar.agent_id_hash)
      then none
      else some (at_least_one (scale limit (rate ar.agent_id_hash)))

  -- The limit for this request; `none` where the reputation blocks the agent.
  unfoldable pub effective_limit : Guard → Option AuthResult → ℕ → Option ℕ
  unfolding is_empty
  effective_limit g ar limit = scaled g.reputation ar limit

  abbrev pub use_slot : Guard → Request → RateLimiter × Bool → Guard × Result GuardError Request
  use_slot g req (rl, true) = (record g { limiter = some rl }, ok req)
  use_slot g req (rl, false) = reject (record g { limiter = some rl }) (rate_exceeded req.method)

  abbrev pub with_limit :
      Guard → ℕ → Request → RateLimiter → Option ℕ → Guard × Result GuardError Request
  with_limit g now req rl none = reject g reputation_blocked
  with_limit g now req rl (some limit) = use_slot g req (allow_with_limit rl now req.method limit)

  abbrev pub check_rate :
      Guard
      → ℕ
      → Option AuthResult
      → Request
      → Option RateLimiter
      → Guard × Result GuardError Request
  check_rate g now ar req none = (g, ok req)
  check_rate g now ar req (some rl) = with_limit g now req rl (effective_limit g ar rl.max_requests)

  abbrev pub after_block :
      Guard
      → ℕ
      → Option AuthResult
      → Request
      → BruteForceTracker × Bool
      → Guard × Result GuardError Request
  after_block g now ar req (bf, true) =
      reject (record g { brute_force = some bf }) (temporarily_blocked req.method)
  after_block g now ar req (bf, false) =
      check_rate (record g { brute_force = some bf }) now ar req g.limiter

  abbrev pub check_brute :
      Guard
      → ℕ
      → Option AuthResult
      → Request
      → Option BruteForceTracker
      → Guard × Result GuardError Request
  check_brute g now ar req none = check_rate g now ar req g.limiter
  check_brute g now ar req (some bf) = after_block g now ar req (is_blocked bf now req.method)

  unfoldable pub process_request :
      Guard → ℕ → Option AuthResult → Request → Guard × Result GuardError Request
  unfolding ◌=ₜ◌ is_empty
  process_request g now ar req = elim (check_json g req) [
    | some e ↦ (g, err e)
    | none ↦ elim (check_size g req) [
      | some e ↦ (g, err e)
      | none ↦ check_brute g now ar req g.brute_force
    ]
  ]

  -- `(*GuardMiddleware).RecordFailure`
  unfoldable pub record_guard_failure : Guard → ℕ → Text → Guard
  unfolding record_failure
  record_guard_failure g now key = elim g.brute_force [
    | none ↦ g
    | some bf ↦ record g { brute_force = some (record_failure bf now key) }
  ]
