-- ===== src/Chain/Stops.antt =====
-- How far a request gets through the chain.
use shield_agent.Prelude.{◌≡◌, refl, List, [], ◌∷◌, ◌++◌, Text, arith, ap, inl, inr}
use shield_agent.Prelude.Result.{Result, ok, err, Result-cases}
use shield_agent.Jsonrpc.{Request, Response}
use shield_agent.Chain.{Middleware, error_payload, process_request}

module _ {S E : Type 0} (message : E → Text) (marshal : Response → Text) where
  abbrev run : List (Middleware S E) → S → Request → S × Result (Text × E) Request
  run = process_request message marshal

  -- Going on with the rest of a chain.
  abbrev pub continue :
      List (Middleware S E) → S × Result (Text × E) Request → S × Result (Text × E) Request
  continue items (s, ok req) = run items s req
  continue items (s, err e) = (s, err e)

  -- A chain of two parts runs the first and, if that lets the request through, the second on what
  -- the first made of the request and the state.
  pub process_request-append :
      (xs ys : List (Middleware S E)) (s : S) (req : Request)
      → run (xs ++ ys) s req ≡ continue ys (run xs s req)
  unfolding process_request
  process_request-append [] ys s req = refl
  process_request-append (m ∷ xs) ys s req = elim (Result-cases (m.process_request s req).1) [
    | inl (next, passed) ↦
        ground (arith, process_request-append xs ys (m.process_request s req).0 next)
    | inr (e, refused) ↦ ground arith
  ]

  -- The chain stops at one middleware: those before it let the request through, it refuses what it
  -- is given, and the state and the payload are those of its refusal.
  pub record StopsAt (items : List (Middleware S E)) (s : S) (req : Request) (s' : S)
      (payload : Text) (e : E) : Type 0 where
    pub before : List (Middleware S E)
    pub at : Middleware S E
    pub after : List (Middleware S E)
    pub split : items ≡ before ++ at ∷ after
    pub reached : S
    pub given : Request
    pub passed : run before s req ≡ (reached, ok given)
    pub refused : at.process_request reached given ≡ (s', err e)
    pub answer : payload ≡ error_payload message marshal given e

  -- A refused request was stopped by one middleware: those before it let the request through, it
  -- refused what they made of it, and the error response is the one for the request that it was
  -- given.
  pub process_request-StopsAt :
      (items : List (Middleware S E)) (s s' : S) (req : Request) (payload : Text) (e : E)
      → run items s req ≡ (s', err (payload, e))
      → StopsAt items s req s' payload e
  unfolding process_request
  process_request-StopsAt [] s s' req payload e h =
      cc (ap (λ (p : S × Result (Text × E) Request). p.1) h)
  process_request-StopsAt (m ∷ items) s s' req payload e h =
      elim (Result-cases (m.process_request s req).1) [
        | inr (e', refused) ↦ record {
          before = [];
          at = m;
          after = items;
          split = refl;
          reached = s;
          given = req;
          passed = refl;
          refused = ground arith;
          answer = ground arith;
        }
        | inl (next, passed) ↦
            let rest =
              process_request-StopsAt items (m.process_request s req).0 s' next payload e
                (ground arith) in
            record {
              before = m ∷ rest.before;
              at = rest.at;
              after = rest.after;
              split = ap (λ (l : List (Middleware S E)). m ∷ l) rest.split;
              reached = rest.reached;
              given = rest.given;
              passed = rw passed rest.passed;
              refused = rest.refused;
              answer = rest.answer;
            }
      ]
