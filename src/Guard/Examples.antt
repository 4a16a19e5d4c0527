-- ===== src/Guard/Examples.antt =====
-- The guard at concrete inputs.
use shield_agent.Prelude.{
  ℕ, ◌≤◌, ◌<◌, ◌*◌, ◌≡◌, ◌↔◌, true, false, none, some, List, [], ◌∷◌, Text, codes, leb, All, arith,
}
use shield_agent.Prelude.Int.{pos}
use shield_agent.Prelude.Map.{empty, insert}
use shield_agent.Prelude.Result.{ok}
use shield_agent.Jsonrpc.{Request, version}
use shield_agent.AuthResult.{AuthResult}
use shield_agent.Guard.RateLimiter.{RateLimiter}
use shield_agent.Guard.RateLimiter.Bounds.{
  Event, request, tick, admitted, Within, admitted-le-twice_limit,
}
use shield_agent.Guard.BruteForce.{FailRecord, BruteForceTracker}
use shield_agent.Guard.IpAccess.{v4, NetParser, IpLists}
use shield_agent.Guard.Request.{Multipliers, Guard, process_request}
use shield_agent.Guard.Config.{GuardConfig}
use shield_agent.Guard.Request.Decision.{Admissible, process_request_iff}

abbrev ping : Text
ping = codes "ping"

-- A window of ten, with a bucket that the window before has filled.
abbrev full : RateLimiter
full = record {
  max_requests = 2;
  window = 10;
  buckets = insert ping (record { count = 2; window_start = 95 }) empty;
}

abbrev burst : List Event
burst = request 101 ping 2 ∷ request 105 ping 2 ∷ tick 106 ∷ request 109 ping 2 ∷ []

burst-Within : All (Within 100 10 2) burst
burst-Within = (
  (omega arith, omega arith, omega arith),
  (
    (omega arith, omega arith, omega arith),
    ((omega arith, omega arith), ((omega arith, omega arith, omega arith), tt)),
  ),
)

admitted-le-twice_limit_example : admitted ping full burst ≤ 2 * 2
admitted-le-twice_limit_example =
    admitted-le-twice_limit ping 100 2 full burst (omega arith) burst-Within

abbrev tracker : BruteForceTracker
tracker = record { max_fails = 3; window = 300; block_dur = 600; failures = empty }

abbrev later : List ℕ
later = 20 ∷ 30 ∷ []

later_within : All (λ t. (10 ≤ t) × (t < 310)) later
later_within = ((omega arith, omega arith), ((omega arith, omega arith), tt))

abbrev blocked_record : FailRecord
blocked_record = record { count = 3; first_fail = 10; blocked_at = some 30 }

abbrev blocking : BruteForceTracker
blocking = record {
  max_fails = 3;
  window = 300;
  block_dur = 600;
  failures = insert ping blocked_record empty;
}

-- A parser that reads one address.
abbrev parser : NetParser
parser = record { parse_ip = λ _. some (v4 167_772_161); parse_cidr = λ _. none }

abbrev lists : IpLists
lists = record { blocklist = record { base = v4 167_772_160; prefix = 30 } ∷ []; allowlist = [] }

-- Multipliers in tenths.
abbrev tenths : Multipliers
tenths = record { Multiplier = ℕ; is_zero = λ m. leb m 0; scale = λ limit m. pos (limit * m) }

abbrev strict : Guard tenths
strict = record {
  limiter = some full;
  max_body_size = pos 100;
  brute_force = none;
  validate_json = true;
  reputation = some (λ _. 1);
  rejected = 0;
}

abbrev known : AuthResult
known = record { agent_id_hash = codes "ab"; status = codes "verified"; ip_address = codes "" }

abbrev ping_request : Request
ping_request = record { jsonrpc = version; id = none; method = ping; params = codes "{}" }

process_request_iff_example :
    ((process_request tenths strict 96 (some known) ping_request).1 ≡ ok ping_request)
    ↔ Admissible tenths strict 96 (some known) ping_request
process_request_iff_example = process_request_iff tenths strict 96 (some known) ping_request

abbrev off : GuardConfig
off = record {
  rate_limit_per_min = pos 0;
  max_body_size = pos 0;
  ip_blocklist = [];
  ip_allowlist = [];
  brute_force_max_fails = pos 0;
  brute_force_window = 0;
  brute_force_block_dur = 0;
  validate_jsonrpc = false;
}
