-- ===== src/Egress/Examples.antt =====
-- The allowlist and the providers at concrete hosts.
use shield_agent.Prelude.{◌≡◌, refl, false, [], ◌∷◌, Text, codes}
use shield_agent.Prelude.Int.{pos}
use shield_agent.Egress.{EgressRequest}
use shield_agent.Egress.Policy.{PolicyMiddleware}
use shield_agent.Egress.Provider.{detect}
use shield_agent.Prelude.{ℕ, All, none, some, true, List, is_empty, ◌=ₜ◌}
use shield_agent.Prelude.Result.{Result, ok, err}
use shield_agent.Egress.{passthrough_egress, process_egress_request}
use shield_agent.Egress.Headers.{Header}
use shield_agent.Egress.Proxy.{HttpRequest}
use shield_agent.Egress.Proxy.Setup.{Proxy, Externals, Upstream, Exchange, unsupported}
use shield_agent.Egress.Proxy.Http.{handle_http}
use shield_agent.Egress.Proxy.Mitm.{mitm_loop}
use shield_agent.Egress.Proxy.Connect.{serve_proxy}
use shield_agent.Egress.Proxy.Refused.{Sent, first_request, serve_proxy-contacts, mitm_loop-Sent}

abbrev policy : PolicyMiddleware
policy = record { mode = codes "block"; allow_list = codes "openai.com" ∷ [] }

abbrev lookalike : Text
lookalike = codes "notopenai.com"

abbrev request : EgressRequest
request = record {
  destination = codes "notopenai.com:443";
  host = lookalike;
  port = pos 443;
  method = codes "CONNECT";
  protocol = codes "https";
  provider = codes "unknown";
  started_at = 0;
  body = [];
  policy_action = [];
  policy_rule = [];
  correlation_id = [];
}

abbrev plain : HttpRequest
plain = record {
  method = codes "GET";
  host = codes "example.com";
  scheme = codes "http";
  url_host = codes "example.com";
  request_uri = codes "/";
  content_length = pos 0;
  headers =
      record { name = codes "X-Secret"; values = codes "1" ∷ [] }
      ∷ record { name = codes "Connection"; values = codes "X-Secret" ∷ [] }
      ∷ [];
  body = [];
  close = false;
}

abbrev server : Proxy ℕ Text ℕ
server = record {
  items = passthrough_egress [] ∷ [];
  detect = detect;
  minter = true;
  mitm_hosts = codes "example.com" ∷ [];
}

abbrev one_name : Text → List Text
one_name t = t ∷ []

abbrev externals : Externals ℕ Text ℕ
externals = record {
  left_as = λ _ req. req;
  response_left = λ _ resp. resp;
  seconds = λ ms. ms;
  zero_ms = 0;
  is_log_write_failed = λ _. false;
  error = λ e. e;
  split_addr = λ _. none;
  atoi = λ _. pos 0;
  join_addr = λ host _. host;
  canonical = λ t. t;
  split_comma = one_name;
  trim_space = λ t. t;
}

abbrev unreachable : Text → Header → Result Text (Upstream ℕ)
unreachable _ _ = err (codes "refused")

serve_proxy-contacts_example :
    (updated : EgressRequest) × ((process_egress_request server.items 0
        (first_request server externals 7 plain)).1
      ≡ ok updated)
unfolding serve_proxy handle_http passthrough_egress process_egress_request ◌=ₜ◌ is_empty
serve_proxy-contacts_example =
    serve_proxy-contacts server externals 7 unreachable unsupported none none [] (err []) 0 plain
      refl

abbrev exchange : Exchange ℕ
exchange = record {
  client = plain;
  body = some (codes "hello");
  now = 8;
  written = true;
  response = none;
  sent = true;
  latency_ms = 3;
}

mitm_loop-Sent_example :
    All
      (Sent server externals request (exchange ∷ []))
      (mitm_loop server externals 0 request (exchange ∷ [])).1
mitm_loop-Sent_example = mitm_loop-Sent server externals request 0 (exchange ∷ [])
