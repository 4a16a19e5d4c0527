-- ===== src/Egress/Proxy/Refused.antt =====
-- What the chain refuses does not reach the network.
use mathlib.Core.List.{Memᴰ}
use shield_agent.Prelude.{
  ℕ, All, All-append, ◌≡◌, refl, inl, inr, Bool, true, false, Option, none, some, List, [], ◌∷◌,
  Text, codes, ◌=ₜ◌, any, arith, Bool-cases, if◌then◌else◌,
}
use shield_agent.Prelude.Int.{pos, positive}
use shield_agent.Prelude.Result.{Result, ok, err, Result-cases}
use shield_agent.Egress.Headers.{Header}
use shield_agent.Egress.{
  EgressRequest, EgressResponse, process_egress_request, process_egress_response,
}
use shield_agent.Egress.Proxy.{
  HttpRequest, HttpResponse, Effect, reply, established, forward, tunnel, inc_request,
  inc_policy_violation, observe_latency, add_bytes, failure, measured, after_request, reject,
}
use shield_agent.Egress.Proxy.Setup.{Proxy, Externals, Upstream, Hijack, Tunnel, Exchange}
use shield_agent.Egress.Proxy.Http.{http_request, handle_http}
use shield_agent.Egress.Proxy.Mitm.{
  mitm_request, mitm_exchange, mitm_forward, mitm_answer, mitm_replayed, blocked_as, mitm_judged,
  mitm_read, mitm_response, mitm_loop,
}
use shield_agent.Egress.Proxy.Connect.{connect_request, handle_connect, serve_proxy}

-- Whether an effect sends something of the client to another host.
abbrev pub contacts : {F : Type 0} → Effect F → Bool
contacts (forward _ _ _) = true
contacts (tunnel _) = true
contacts _ = false

module _ {S E F : Type 0} (p : Proxy S E F) (ex : Externals S E F) where
  -- The request that the proxy makes of the client's.
  abbrev pub first_request : ℕ → HttpRequest → EgressRequest
  first_request now r =
      if r.method =ₜ codes "CONNECT" then connect_request p ex now r else http_request p ex now r

  -- If the proxy forwards a request or opens a tunnel, the chain has accepted the request.
  pub serve_proxy-contacts :
      (now : ℕ) (send : Text → Header → Result Text (Upstream F)) (hijack : Hijack)
      (handshake dial_tls : Option Text) (exchanges : List (Exchange F))
      (dialled : Result Text (Tunnel F)) (s : S) (r : HttpRequest)
      → any contacts (serve_proxy p ex now send hijack handshake dial_tls exchanges dialled s r).1
        ≡ true
      → (updated : EgressRequest) × ((process_egress_request p.items s (first_request now r)).1
          ≡ ok updated)
  unfolding serve_proxy handle_http handle_connect reject
  serve_proxy-contacts now send hijack handshake dial_tls exchanges dialled s r h =
      elim (Result-cases (process_egress_request p.items s (first_request now r)).1) [
        | inl (updated, e) ↦ (updated, e)
        | inr ((failed, e), refused) ↦ absurd (elim (Bool-cases (r.method =ₜ codes "CONNECT")) [
          | inl connect ↦ ground arith
          | inr plain ↦ ground arith
        ])
      ]

  -- A body that the proxy forwards for a session is one that the client sent, to the session's
  -- destination, and the chain has accepted the request with that body.
  abbrev pub Sent : EgressRequest → List (Exchange F) → Effect F → Type 0
  Sent req exchanges (forward destination h body) =
      (destination ≡ req.destination)
      × (x : Exchange F) × Memᴰ x exchanges
      × (x.body ≡ some body)
      × (s : S) × (updated : EgressRequest) × ((process_egress_request p.items s
            (mitm_request p ex req x body)).1
          ≡ ok updated)
  Sent req exchanges _ = Unit

  module _ (req : EgressRequest) where
    Sent-later :
        (x : Exchange F) (exchanges : List (Exchange F)) (e : Effect F)
        → Sent req exchanges e
        → Sent req (x ∷ exchanges) e
    Sent-later x exchanges (forward d h b) (same, y, at, read, s, u, accepted) =
        (same, y, Memᴰ.tail at, read, s, u, accepted)
    Sent-later x exchanges (reply _ _ _) s = tt
    Sent-later x exchanges established s = tt
    Sent-later x exchanges (tunnel _) s = tt
    Sent-later x exchanges (inc_request _ _) s = tt
    Sent-later x exchanges (inc_policy_violation _ _) s = tt
    Sent-later x exchanges (observe_latency _ _) s = tt
    Sent-later x exchanges (add_bytes _ _) s = tt

    all_later :
        (x : Exchange F) (exchanges : List (Exchange F)) (effects : List (Effect F))
        → All (Sent req exchanges) effects
        → All (Sent req (x ∷ exchanges)) effects
    all_later x exchanges [] h = tt
    all_later x exchanges (e ∷ effects) (he, h) =
        (Sent-later x exchanges e he, all_later x exchanges effects h)

    measured-Sent :
        (exchanges : List (Exchange F)) (r : EgressRequest) (resp : EgressResponse F)
        → All (Sent req exchanges) (measured ex.seconds r resp)
    measured-Sent exchanges r resp = elim (Bool-cases (positive resp.request_size)) [
      | inl a ↦ elim (Bool-cases (positive resp.response_size)) [
        | inl b ↦ rw (a, b) (tt, (tt, (tt, (tt, tt))))
        | inr b ↦ rw (a, b) (tt, (tt, (tt, tt)))
      ]
      | inr a ↦ elim (Bool-cases (positive resp.response_size)) [
        | inl b ↦ rw (a, b) (tt, (tt, (tt, tt)))
        | inr b ↦ rw (a, b) (tt, (tt, tt))
      ]
    ]

    mitm_answer-Sent :
        (s : S) (r : EgressRequest) (x : Exchange F) (body : Text) (up : HttpResponse)
        (up_body : Text) (exchanges : List (Exchange F))
        → All (Sent req exchanges) (mitm_answer p ex s r x body up up_body).1
    unfolding mitm_answer
    mitm_answer-Sent s r x body up up_body exchanges = elim (Bool-cases x.sent) [
      | inl sent ↦ rw sent (
        tt,
        measured-Sent exchanges r (
            ex.response_left
              (process_egress_response p.items s r (mitm_response p ex x body up up_body)).0
              (mitm_response p ex x body up up_body)),
      )
      | inr lost ↦ rw lost tt
    ]

    mitm_replayed-Sent :
        (s : S) (r : EgressRequest) (x : Exchange F) (body : Text) (exchanges : List (Exchange F))
        (written : Bool) (response : Option (HttpResponse × Text))
        → All (Sent req exchanges) (mitm_replayed p ex s r x body written response).1
    unfolding mitm_replayed
    mitm_replayed-Sent s r x body exchanges false response = tt
    mitm_replayed-Sent s r x body exchanges true none = tt
    mitm_replayed-Sent s r x body exchanges true (some (up, up_body)) =
        mitm_answer-Sent s r x body up up_body exchanges

    mitm_forward-Sent :
        (s s0 : S) (r : EgressRequest) (x : Exchange F) (body : Text)
        (exchanges : List (Exchange F))
        → x.body ≡ some body
        → (process_egress_request p.items s0 (mitm_request p ex req x body)).1 ≡ ok r
        → All (Sent req (x ∷ exchanges)) (mitm_forward p ex req.destination s r x body).1
    unfolding mitm_forward
    mitm_forward-Sent s s0 r x body exchanges read accepted = (
      (refl, x, Memᴰ.head refl, read, s0, r, accepted),
      mitm_replayed-Sent s r x body (x ∷ exchanges) x.written x.response,
    )

    mitm_judged-Sent :
        (s s0 : S) (x : Exchange F) (body : Text) (exchanges : List (Exchange F))
        (answer : Result (Text × E) EgressRequest)
        → x.body ≡ some body
        → (process_egress_request p.items s0 (mitm_request p ex req x body)).1 ≡ answer
        → All (Sent req (x ∷ exchanges)) (mitm_judged p ex req x body s answer).1
    unfolding mitm_judged after_request
    mitm_judged-Sent s s0 x body exchanges (ok updated) read accepted =
        mitm_forward-Sent s s0 updated x body exchanges read accepted
    mitm_judged-Sent s s0 x body exchanges (err (failed, e)) read refused = (
      tt,
      measured-Sent (x ∷ exchanges)
          (blocked_as p ex (ex.left_as s (mitm_request p ex req x body)) failed)
          (failure ex.zero_ms (pos 403) (ex.error e)),
    )

    mitm_read-Sent :
        (s : S) (x : Exchange F) (exchanges : List (Exchange F)) (read : Option Text)
        → x.body ≡ read
        → All (Sent req (x ∷ exchanges)) (mitm_read p ex s req x read).1
    unfolding mitm_read
    mitm_read-Sent s x exchanges none e = tt
    mitm_read-Sent s x exchanges (some body) e =
        let answer = process_egress_request p.items s (mitm_request p ex req x body) in
        mitm_judged-Sent answer.0 s x body exchanges answer.1 e refl

    mitm_exchange-Sent :
        (s : S) (x : Exchange F) (exchanges : List (Exchange F))
        → All (Sent req (x ∷ exchanges)) (mitm_exchange p ex s req x).1
    unfolding mitm_exchange
    mitm_exchange-Sent s x exchanges = mitm_read-Sent s x exchanges x.body refl

    -- Nothing of a decrypted session is forwarded that the chain has not accepted.
    pub mitm_loop-Sent :
        (s : S) (exchanges : List (Exchange F))
        → All (Sent req exchanges) (mitm_loop p ex s req exchanges).1
    unfolding mitm_loop
    mitm_loop-Sent s [] = tt
    mitm_loop-Sent s (x ∷ exchanges) =
        let (s', effects, more) = mitm_exchange p ex s req x in
        elim (Bool-cases (mitm_exchange p ex s req x).2) [
          | inl goes_on ↦ rw goes_on (
              All-append (Sent req (x ∷ exchanges)) (mitm_exchange p ex s req x).1
                (mitm_loop p ex (mitm_exchange p ex s req x).0 req exchanges).1
                (mitm_exchange-Sent s x exchanges)
                (all_later x exchanges
                  (mitm_loop p ex (mitm_exchange p ex s req x).0 req exchanges).1
                  (mitm_loop-Sent (mitm_exchange p ex s req x).0 exchanges)))
          | inr stops ↦ rw stops (mitm_exchange-Sent s x exchanges)
        ]
