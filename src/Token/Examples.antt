-- ===== src/Token/Examples.antt =====
-- Tokens at concrete inputs.
use shield_agent.Prelude.{
  ℕ, ◌≤◌, ◌≡◌, ◌≢◌, ◌↔◌, true, none, some, List, [], ◌∷◌, Text, codes, arith, ◌=ₜ◌, =ₜ_iff,
}
use shield_agent.Prelude.Int.{pos}
use shield_agent.Prelude.Result.{ok}
use shield_agent.Jsonrpc.{Request, version}
use shield_agent.Token.{Token, Latencies, Store, UsageRecord, hour, get_by_hash, count_usage}
use shield_agent.Token.Middleware.{no_faults, authorize}
use shield_agent.Token.Middleware.Admission.{Admits, authorize_iff}
use shield_agent.Token.Middleware.Quota.{Call, handle_all, HasQuota, handle_all-within_quota}

abbrev whole : Latencies
whole = record { Float = ℕ; zero_latency = 0; average = λ _. 0 }

-- A hash that marks its argument.
abbrev hash : Text → Text
hash t = b'#' ∷ t

abbrev key : Text
key = codes "k"

abbrev two_an_hour : Token
two_an_hour = record {
  id = codes "id";
  name = codes "ci";
  token_hash = codes "#k";
  created_at = 0;
  expires_at = some 900;
  active = true;
  quota_hourly = pos 2;
  quota_monthly = pos 0;
  allowed_methods = [];
  ip_allowlist = [];
}

abbrev used : UsageRecord whole
used = record {
  token_id = codes "id";
  timestamp = 50;
  method = codes "ping";
  success = true;
  latency_ms = 0;
}

abbrev store : Store whole
store = record { tokens = two_an_hour ∷ []; usage = used ∷ [] }

abbrev ping : Request
ping = record { jsonrpc = version; id = none; method = codes "ping"; params = [] }

authorize_iff_example :
    (authorize whole hash store no_faults 100 key ping ≡ ok two_an_hour)
    ↔ Admits whole hash store 100 key ping two_an_hour
authorize_iff_example = authorize_iff whole hash store 100 key ping two_an_hour

given : key ≢ []
given = λ e. cc

has_quota : HasQuota whole hash store (codes "id") 2
unfolding get_by_hash ◌=ₜ◌
has_quota h t e same = ground (arith, =ₜ_iff (hash key) h)

abbrev calls : List Call
calls = record { at = 100; raw = key; req = ping } ∷ record { at = 101; raw = key; req = ping } ∷ []

below : count_usage whole store 99 (codes "id") hour ≤ 2
unfolding count_usage ◌=ₜ◌
below = omega arith

handle_all-within_quota_example :
    count_usage whole (handle_all whole hash store calls) 102 (codes "id") hour ≤ 2
handle_all-within_quota_example =
    handle_all-within_quota whole hash calls store 99 102 2 (codes "id") (omega arith) has_quota
      below (omega arith, (omega arith, omega arith))
