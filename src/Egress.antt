-- ===== src/Egress.antt =====
-- The outgoing requests: the chain of internal/egress/middleware.go. `ClientRequest`, a request of
-- package net/http, is left out; the state is shared by all middlewares.
pub mod Domain
pub mod Policy
pub mod Provider
pub mod Headers
pub mod Proxy
mod Examples
use shield_agent.Egress.Headers.{Header}
use shield_agent.Prelude.{
  Bool, ℕ, Option, none, some, List, [], ◌∷◌, Text, codes, is_empty, if◌then◌else◌,
}
use shield_agent.Prelude.Int.{ℤ}
use shield_agent.Prelude.Result.{Result, ok, err}

pub record EgressRequest : Type 0 where
  pub destination : Text
  pub host : Text
  pub port : ℤ
  pub method : Text
  pub protocol : Text
  pub provider : Text
  pub started_at : ℕ
  pub body : Text
  pub policy_action : Text
  pub policy_rule : Text
  pub correlation_id : Text

-- `Response`, whose latency is a floating-point number.
pub record EgressResponse (F : Type 0) : Type 0 where
  pub status_code : ℤ
  pub request_size : ℤ
  pub response_size : ℤ
  pub latency_ms : F
  pub error_detail : Text
  pub headers : Header
  pub body : Text
  pub prompt_hash : Text
  pub model : Text
  pub content_class : Text
  pub ai_generated : Bool
  pub pii_detected : Bool
  pub pii_scrubbed : Bool

-- `Answer` is the type of the responses, which the chain only passes on.
pub record EgressMiddleware (S Answer E : Type 0) : Type 0 where
  pub name : Text
  pub process_request : S → EgressRequest → S × Result E EgressRequest
  pub process_response : S → EgressRequest → Answer → S × Result E Answer

pub record SwappableEgressChain (S Answer E : Type 0) : Type 0 where
  pub chain : List (EgressMiddleware S Answer E)

module _ {S Answer E : Type 0} where
  unfoldable pub swap_egress :
      SwappableEgressChain S Answer E
      → List (EgressMiddleware S Answer E)
      → SwappableEgressChain S Answer E
  swap_egress sc chain = record { chain = chain }

  -- The error names the middleware that refused.
  unfoldable pub process_egress_request :
      List (EgressMiddleware S Answer E) → S → EgressRequest → S × Result (Text × E) EgressRequest
  process_egress_request [] s cur = (s, ok cur)
  process_egress_request (m ∷ items) s cur =
      let (s', answer) = m.process_request s cur in
      elim answer [ ok next ↦ process_egress_request items s' next | err e ↦ (s', err (m.name, e)) ]

  -- In the order of the items, like the requests.
  unfoldable pub process_egress_response :
      List (EgressMiddleware S Answer E) → S → EgressRequest → Answer → S × Result E Answer
  process_egress_response [] s req cur = (s, ok cur)
  process_egress_response (m ∷ items) s req cur =
      let (s', answer) = m.process_response s req cur in
      elim answer [ ok next ↦ process_egress_response items s' req next | err e ↦ (s', err e) ]

  -- `PassthroughEgressMiddleware`, whose name is "passthrough" unless it is given
  unfoldable pub passthrough_egress : Text → EgressMiddleware S Answer E
  passthrough_egress name = record {
    name = if is_empty name then codes "passthrough" else name;
    process_request = λ s req. (s, ok req);
    process_response = λ s req resp. (s, ok resp);
  }
