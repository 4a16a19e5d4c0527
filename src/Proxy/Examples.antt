-- ===== src/Proxy/Examples.antt =====
-- The router at a concrete request.
use shield_agent.Prelude.{
  ℕ, refl, true, false, List, [], ◌∷◌, codes, ◌=ₜ◌, has_prefix, is_empty, equal_fold, to_lower,
  lower_byte,
}
use shield_agent.Proxy.Router.{Route, HttpRequest, match, match_host, strip_port}
use shield_agent.Proxy.Router.Priority.{Best, match-Best}

abbrev by_host_only : Route ℕ
by_host_only = record {
  rule = record { host = codes "a.io"; path_prefix = []; strip_prefix = false };
  handler = 1;
}

abbrev by_path_too : Route ℕ
by_path_too = record {
  rule = record { host = codes "a.io"; path_prefix = codes "/v1"; strip_prefix = true };
  handler = 2;
}

abbrev routes : List (Route ℕ)
routes = by_host_only ∷ by_path_too ∷ []

abbrev request : HttpRequest
request = record { host = codes "A.io:80"; path = codes "/v1/x" }

match-Best_example : Best routes request by_path_too
unfolding match match_host strip_port has_prefix is_empty equal_fold to_lower lower_byte ◌=ₜ◌
match-Best_example = match-Best routes request by_path_too refl
