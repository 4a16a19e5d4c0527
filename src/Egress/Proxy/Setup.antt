-- ===== src/Egress/Proxy/Setup.antt =====
-- The state of the proxy of internal/egress/proxy.go, and what its handlers are given. `Externals` are
-- functions of package net, package strings and package net/http.
use shield_agent.Prelude.{ℕ, Bool, Option, List, ◌++◌, Text}
use shield_agent.Prelude.Int.{ℤ}
use shield_agent.Egress.Headers.{Header, remove_hop_by_hop_headers}
use shield_agent.Egress.{EgressRequest, EgressResponse, EgressMiddleware}
use shield_agent.Egress.Proxy.{HttpRequest, HttpResponse}

pub record Proxy (S E F : Type 0) : Type 0 where
  pub items : List (EgressMiddleware S (EgressResponse F) E)
  pub detect : Text → Text
  pub minter : Bool
  pub mitm_hosts : List Text

pub record Externals (S E F : Type 0) : Type 0 where
  pub left_as : S → EgressRequest → EgressRequest
  pub response_left : S → EgressResponse F → EgressResponse F
  pub seconds : F → F
  pub zero_ms : F
  pub is_log_write_failed : E → Bool
  pub error : E → Text
  pub split_addr : Text → Option (Text × Text)
  pub atoi : Text → ℤ
  pub join_addr : Text → ℤ → Text
  pub canonical : Text → Text
  pub split_comma : Text → List Text
  pub trim_space : Text → Text

-- What `client.Do` gives, and how much of its body reaches the client.
pub record Upstream (F : Type 0) : Type 0 where
  pub response : HttpResponse
  pub body : Text
  pub copied : ℤ
  pub latency_ms : F

-- The hijacked connection: the error of writing to it, if there is one.
pub data Hijack : Type 0 where
  unsupported hijack_failed : Hijack
  hijacked : Option Text → Hijack

-- The dialled connection, and the bytes that the two copy loops pass on.
pub record Tunnel (F : Type 0) : Type 0 where
  pub sent : ℤ
  pub received : ℤ
  pub latency_ms : F

-- One round of the loop of `handleMITM`: a request that is read, its body, whether it is written
-- upstream, the response with its body, and whether that is written to the client.
pub record Exchange (F : Type 0) : Type 0 where
  pub client : HttpRequest
  pub body : Option Text
  pub now : ℕ
  pub written : Bool
  pub response : Option (HttpResponse × Text)
  pub sent : Bool
  pub latency_ms : F

abbrev pub after : {S A : Type 0} → List A → S × List A → S × List A
after effects (s, rest) = (s, effects ++ rest)

module _ {S E F : Type 0} (ex : Externals S E F) where
  abbrev pub stripped : Header → Header
  stripped h = remove_hop_by_hop_headers ex.canonical ex.split_comma ex.trim_space h
