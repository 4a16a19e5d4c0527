-- ===== src/Egress/Proxy.antt =====
-- The forward proxy of internal/egress/proxy.go. A handler gives the state of the middlewares and what
-- it does, in order. The middlewares write into the request they are given, and the proxy goes on
-- with it after a refusal: `left_as` is that request as the state has it. The network is in the
-- arguments: what `client.Do`, the hijacked connection and the tunnel answer. The log is left out.

pub mod Setup
pub mod Http
pub mod Mitm
pub mod Connect
pub mod Refused
use shield_agent.Prelude.{
  ℕ, ◌==◌, ◌&&◌, ◌||◌, Bool, true, false, not, Option, none, some, List, [], ◌∷◌, ◌++◌, Text, codes,
  ◌=ₜ◌, equal_fold, is_empty, to_lower, any, if◌then◌else◌,
}
use shield_agent.Prelude.Int.{ℤ, pos, positive}
use shield_agent.Prelude.Result.{Result, ok, err}
use shield_agent.Egress.Headers.{Header, lookup}
use shield_agent.Egress.{
  EgressRequest, EgressResponse, EgressMiddleware, process_egress_request, process_egress_response,
}

-- What the proxy reads of a client's request.
pub record HttpRequest : Type 0 where
  pub method : Text
  pub host : Text
  pub scheme : Text
  pub url_host : Text
  pub request_uri : Text
  pub content_length : ℤ
  pub headers : Header
  pub body : Text
  pub close : Bool

pub record HttpResponse : Type 0 where
  pub status_code : ℕ
  pub headers : Header
  pub close : Bool
  pub proto_major : ℕ
  pub proto_minor : ℕ

-- What is done on the network, and the calls of `EgressMetrics`.
pub data Effect (F : Type 0) : Type 0 where
  reply : ℕ → Header → Text → Effect F
  established : Effect F
  forward : Text → Header → Text → Effect F
  tunnel : Text → Effect F
  inc_request : Text → Text → Effect F
  inc_policy_violation : Text → Text → Effect F
  observe_latency : Text → F → Effect F
  add_bytes : Text → ℤ → Effect F

-- `net.IP` by the tests that `checkDestination` makes.
pub record Ip : Type 0 where
  pub is_loopback : Bool
  pub is_private : Bool
  pub is_link_local_unicast : Bool
  pub is_link_local_multicast : Bool
  pub is_multicast : Bool
  pub is_unspecified : Bool

abbrev pub is_restricted : Ip → Bool
is_restricted ip =
    ip.is_loopback || ip.is_private || ip.is_link_local_unicast || ip.is_link_local_multicast
    || ip.is_multicast || ip.is_unspecified

-- Whether `checkDestination` returns nil for what `net.LookupIP` answers.
unfoldable pub check_destination : Option (List Ip) → Bool
check_destination none = true
check_destination (some ips) = not (any is_restricted ips)

-- `splitHostPort`, of `net.SplitHostPort` and the number that `strconv.Atoi` returns.
unfoldable pub split_host_port : (Text → Option (Text × Text)) → (Text → ℤ) → Text → Text × ℤ
split_host_port split atoi s = elim (split s) [ none ↦ (s, pos 0) | some (h, p) ↦ (h, atoi p) ]

-- Whether `Dial` goes on to the dialer, for `AllowLoopbackDestinations`, `net.LookupIP` and
-- `net.SplitHostPort`.
unfoldable pub dials :
    Bool → (Text → Option (List Ip)) → (Text → Option (Text × Text)) → Text → Bool
unfolding check_destination
dials allow_loopback lookup_ip split addr =
    let host : Text = elim (split addr) [ none ↦ addr | some (h, p) ↦ h ] in
    allow_loopback || check_destination (lookup_ip host)

unfoldable pub should_mitm : Bool → List Text → Text → Bool
should_mitm minter hosts host = minter && any (λ h. h =ₜ to_lower host) hosts

abbrev pub pick_action : Text → Text
pick_action a = if is_empty a then codes "allow" else a

-- `get` of the header `Connection`
abbrev pub first_value : List Text → Text
first_value [] = []
first_value (v ∷ _) = v

unfoldable pub keep_alive_response : HttpResponse → Bool
keep_alive_response resp =
    let connection = first_value (lookup (codes "Connection") resp.headers) in
    if resp.close
    then false
    else if resp.proto_major == 1 && resp.proto_minor == 0
    then equal_fold connection (codes "keep-alive")
    else not (equal_fold connection (codes "close"))

abbrev pub is_zero : ℤ → Bool
is_zero (pos n) = n == 0
is_zero _ = false

abbrev pub or_default_port : Text → ℤ → ℤ
or_default_port scheme port =
    if is_zero port then (if scheme =ₜ codes "https" then pos 443 else pos 80) else port

-- `dialUpstreamTLS`
abbrev pub tls_port : ℤ → ℤ
tls_port port = if is_zero port then pos 443 else port

-- `Response` with the fields that an error sets, and zeros.
abbrev pub failure : {F : Type 0} → F → ℤ → Text → EgressResponse F
failure zero_ms status detail = record {
  status_code = status;
  request_size = pos 0;
  response_size = pos 0;
  latency_ms = zero_ms;
  error_detail = detail;
  headers = [];
  body = [];
  prompt_hash = [];
  model = [];
  content_class = [];
  ai_generated = false;
  pii_detected = false;
  pii_scrubbed = false;
}

abbrev pub bytes_metric : {F : Type 0} → Text → ℤ → List (Effect F)
bytes_metric direction n = if positive n then add_bytes direction n ∷ [] else []

abbrev pub rejected_as : EgressRequest → Text → EgressRequest
rejected_as req failed = record req {
  policy_action = if is_empty req.policy_action then codes "block" else req.policy_action;
  policy_rule = if is_empty req.policy_rule then failed else req.policy_rule;
}

abbrev pub status_of : Bool → ℕ
status_of log_write_failed = if log_write_failed then 503 else 403

abbrev pub measured : {F : Type 0} → (F → F) → EgressRequest → EgressResponse F → List (Effect F)
measured seconds req resp =
    inc_request req.provider (pick_action req.policy_action)
      ∷ observe_latency req.provider (seconds resp.latency_ms)
      ∷ bytes_metric (codes "request") resp.request_size
    ++ bytes_metric (codes "response") resp.response_size

module _ {S E F : Type 0} (items : List (EgressMiddleware S (EgressResponse F) E))
    (seconds : F → F) where
  -- An error of the chain is only logged.
  unfoldable pub after_request : S → EgressRequest → EgressResponse F → S × List (Effect F)
  unfolding process_egress_response is_empty
  after_request s req resp =
      let (s', answer) = process_egress_response items s req resp in (s', measured seconds req resp)

  module _ (left_as : S → EgressRequest → EgressRequest) (is_log_write_failed : E → Bool)
      (error : E → Text) (zero_ms : F) where
    -- `rejectConnect` and `rejectHTTP`, which do the same.
    unfoldable pub reject : S → EgressRequest → Text → E → S × List (Effect F)
    unfolding process_egress_response is_empty
    reject s req failed e =
        let status = status_of (is_log_write_failed e) in
        let req' = rejected_as (left_as s req) failed in
        let (s', answer) =
          process_egress_response items s req' (failure zero_ms (pos status) (error e)) in
        (
          s',
          reply status [] (codes "request denied by policy")
              ∷ inc_request req'.provider req'.policy_action
              ∷ inc_policy_violation req'.policy_rule req'.policy_action
              ∷ [],
        )
