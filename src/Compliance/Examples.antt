-- ===== src/Compliance/Examples.antt =====
-- The audited proxy at a request for a host that is not on its list.
use shield_agent.Prelude.{
  ℕ, ◌+◌, ◌<◌, ◌==◌, ◌≡◌, refl, ◌⊎◌, Bool, true, false, none, [], ◌∷◌, Text, codes, ◌=ₜ◌, is_empty,
  any, length, has_suffix, has_prefix, to_lower,
}
use shield_agent.Prelude.Int.{pos}
use shield_agent.Prelude.Result.{Result, err}
use shield_agent.Audit.Row.{Formats, EgressLog}
use shield_agent.Audit.Store.{empty_db, insert_egress_log}
use shield_agent.Audit.Writer.{Limits}
use shield_agent.Egress.Headers.{Header}
use shield_agent.Egress.Policy.{PolicyMiddleware, allowed, matches_entry}
use shield_agent.Egress.Proxy.{HttpRequest, split_host_port}
use shield_agent.Egress.Proxy.Setup.{Proxy, Externals, Upstream}
use shield_agent.Egress.Proxy.Http.{http_request, handle_http}
use shield_agent.Egress.Proxy.Refused.{contacts}
use shield_agent.Compliance.{EgressError, Shared}
use shield_agent.Compliance.Enforced.{audited, wired, Records, is_forbidden, handle_http_disallowed}
use shield_agent.Prelude.{some}
use shield_agent.Egress.{EgressRequest, EgressResponse}
use shield_agent.Egress.Proxy.{failure}
use shield_agent.Compliance.Bodies.{ModelReader, ComplianceMiddleware, Digests, redact_mask}

abbrev formats : Formats
formats = record {
  Float = ℕ;
  format_time = λ t. t ∷ [];
  itoa = λ n. codes "0";
  format_float = λ x. codes "0";
  sha256_hex = λ t. (200 + length t) ∷ [];
}

abbrev server : Proxy (Shared formats) EgressError ℕ
server = record { items = []; detect = λ _. codes "unknown"; minter = false; mitm_hosts = [] }

abbrev externals : Externals (Shared formats) EgressError ℕ
externals = record {
  left_as = λ _ req. req;
  response_left = λ _ resp. resp;
  seconds = λ ms. ms;
  zero_ms = 0;
  is_log_write_failed = λ _. false;
  error = λ _. codes "denied";
  split_addr = λ _. none;
  atoi = λ _. pos 0;
  join_addr = λ host _. host;
  canonical = λ t. t;
  split_comma = λ t. t ∷ [];
  trim_space = λ t. t;
}

abbrev policy : PolicyMiddleware
policy = record { mode = codes "block"; allow_list = codes "openai.com" ∷ [] }

abbrev limits : Limits
limits = record { capacity = 2; retries = 3; backoff = 50 }

abbrev shared : Shared formats
shared = record {
  chain = record { prev_hash = [] };
  db = empty_db formats;
  request = none;
  violations = [];
}

abbrev call : HttpRequest
call = record {
  method = codes "GET";
  host = codes "example.com";
  scheme = codes "http";
  url_host = codes "example.com";
  request_uri = codes "/";
  content_length = pos 0;
  headers = [];
  body = [];
  close = false;
}

abbrev unreachable : Text → Header → Result Text (Upstream ℕ)
unreachable _ _ = err (codes "refused")

abbrev second_works : ℕ → Bool
second_works n = n == 0

handle_http_disallowed_example :
    let (s', effects) =
      handle_http
        (audited formats policy second_works limits server)
        (wired formats externals)
        7
        unreachable
        shared
        call in
    (any contacts effects ≡ false)
    × (any is_forbidden effects ≡ true)
    × (row : EgressLog formats) × Records formats
        (http_request server externals 7 call)
        shared.chain
        row
    × (s'.chain.prev_hash ≡ row.row_hash)
    × (((s'.db ≡ (insert_egress_log formats shared.db row).0)
          × ((n : ℕ) × (n < 3) × (second_works n ≡ false)))
        ⊎ ((s'.db ≡ shared.db) × ((n : ℕ) → n < 3 → second_works n ≡ true)))
unfolding http_request split_host_port allowed matches_entry has_suffix has_prefix to_lower ◌=ₜ◌
    is_empty
handle_http_disallowed_example =
    handle_http_disallowed formats server externals policy limits 7 unreachable shared call
      second_works refl refl refl

-- A body is the name of its model.
abbrev reader : ModelReader
reader = record { model = λ body. some body; model_version = λ body. some (body, []) }

abbrev has_at : Text → Bool
has_at t = any (λ c. c == 64) t

abbrev middleware : ComplianceMiddleware
middleware = record {
  patterns = record { name = codes "email"; matches = has_at; replace_all = λ f t. f t } ∷ [];
  mode = redact_mask;
  inject_header = true;
  log_full_body = false;
}

abbrev digests : Digests
digests = record { short_hash = λ t. t; sha256_hex = λ t. t; reader = reader }

abbrev asked : EgressRequest
asked = record (http_request server externals 7 call) { body = codes "a@b.c" }

abbrev answered : EgressResponse ℕ
answered = record (failure 5 (pos 200) []) { body = codes "gpt" }
