-- ===== src/Chain.antt =====
-- The ingress chain of internal/middleware/middleware.go. A middleware acts on a state that the
-- chain's middlewares share, in which each keeps its own part; `message` is the error's text and
-- `marshal` the JSON of a response, which `json.Marshal` gives.
pub mod Stops
use shield_agent.Prelude.{Bool, true, false, Option, none, some, List, [], ◌∷◌, ◌++◌, Text, codes}
use shield_agent.Prelude.Result.{Result, ok, err}
use shield_agent.Jsonrpc.{Request, Response, error_response, code_auth_failed}

pub record Middleware (S E : Type 0) : Type 0 where
  pub name : Text
  pub process_request : S → Request → S × Result E Request
  pub process_response : S → Response → S × Result E Response

-- `PassthroughMiddleware`
unfoldable pub passthrough : {S E : Type 0} → Middleware S E
passthrough = record {
  name = codes "passthrough";
  process_request = λ s req. (s, ok req);
  process_response = λ s resp. (s, ok resp);
}

module _ {E : Type 0} (message : E → Text) (marshal : Response → Text) where
  -- What is written to the caller: the error response and a newline.
  unfoldable pub error_payload : Request → E → Text
  unfolding error_response
  error_payload req e = marshal (error_response req.id code_auth_failed (message e)) ++ 10 ∷ []

module _ {S E : Type 0} (message : E → Text) (marshal : Response → Text) where
  -- The first error ends the loop, with the payload for the caller.
  unfoldable pub process_request :
      List (Middleware S E) → S → Request → S × Result (Text × E) Request
  process_request [] s cur = (s, ok cur)
  process_request (m ∷ items) s cur =
      let (s', answer) = m.process_request s cur in
      elim answer [
        | ok next ↦ process_request items s' next
        | err e ↦ (s', err (error_payload message marshal cur e, e))
      ]

unfoldable pub process_response :
    {S E : Type 0} → List (Middleware S E) → S → Response → S × Result E Response
process_response [] s cur = (s, ok cur)
process_response (m ∷ items) s cur =
    let (s', answer) = m.process_response s cur in
    elim answer [ ok next ↦ process_response items s' next | err e ↦ (s', err e) ]

-- The chain that is current, behind a lock.
pub record SwappableChain (S E : Type 0) : Type 0 where
  pub chain : List (Middleware S E)

unfoldable pub swap :
    {S E : Type 0} → SwappableChain S E → List (Middleware S E) → SwappableChain S E
swap sc chain = record { chain = chain }
