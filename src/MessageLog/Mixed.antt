-- ===== src/MessageLog/Mixed.antt =====
-- What happens when two requests in flight have one id.
use shield_agent.Prelude.{
  ℕ, ◌≡◌, ap, ◌∙◌, true, false, Option, none, List, [], ◌∷◌, ◌++◌, Text, codes, =ₜ_iff, arith,
}
use mathlib.Core.Path.{ap₂}
use shield_agent.Prelude.Int.{ℤ}
use shield_agent.Prelude.Map.{Map, delete}
use shield_agent.Jsonrpc.{Request, Response, is_notification}
use shield_agent.MessageLog.{
  PendingRequest, ActionLog, MessageLog, Context, id_string, finish, response_event, or_no_request,
  latency_of, log_request, log_response, response_log,
}
use shield_agent.MessageLog.Pairing.{
  asked, answered, apply, apply_all, finish-pending, finish-messages, log_request-Waits,
}

module _ {F : Type 0} (compact : Text → Option Text) (itoa : ℤ → Text) (zero_ms : F)
    (latency : ℕ → ℕ → F) where
  log_request-messages :
      (lm : MessageLog F) (ctx : Context) (now : ℕ) (req : Request)
      → is_notification req ≡ false
      → ((log_request compact zero_ms ctx now lm req).messages ≡ lm.messages)
        × ((log_request compact zero_ms ctx now lm req).has_on_message ≡ lm.has_on_message)
  unfolding log_request
  log_request-messages lm ctx now req call = (ground arith, ground arith)

  log_response-messages :
      (s : MessageLog F) (key : Text) (now : ℕ) (ctx : Context) (resp : Response)
      → id_string compact resp.id ≡ key
      → s.has_on_message ≡ true
      → let s' = log_response itoa zero_ms (latency now) compact ctx now s resp in
        (s'.messages
          ≡ s.messages
            ++ (
              codes "out",
              (or_no_request (s.pending key)).method,
              latency_of zero_ms (latency now) (s.pending key),
            )
              ∷ [])
        × (s'.has_on_message ≡ true)
        × (s'.pending key ≡ none)
  unfolding log_response response_log
  log_response-messages s key now ctx resp same counts = (
    told.0
        ∙ ap
            (λ (k : Text).
              s.messages
              ++ (
                codes "out",
                (or_no_request (s.pending k)).method,
                latency_of zero_ms (latency now) (s.pending k),
              )
                ∷ [])
            same,
    told.1,
    ap (λ (f : Map PendingRequest). f key)
          (finish-pending cleared log (response_event itoa zero_ms (latency now) log) (codes "out")
            log.method log.latency_ms)
        ∙ ground (arith, =ₜ_iff (id_string compact resp.id) key),
  )
    where
      log : ActionLog F
      log =
          response_log itoa zero_ms (latency now) ctx now (s.pending (id_string compact resp.id))
            resp

      cleared : MessageLog F
      cleared = record s { pending = delete (id_string compact resp.id) s.pending }

      told :
          ((finish cleared log
              (response_event itoa zero_ms (latency now) log)
              (codes "out")
              log.method
              log.latency_ms).messages
            ≡ s.messages ++ (codes "out", log.method, log.latency_ms) ∷ [])
          × ((finish cleared log
                (response_event itoa zero_ms (latency now) log)
                (codes "out")
                log.method
                log.latency_ms).has_on_message
              ≡ true)
      told =
          finish-messages cleared log (response_event itoa zero_ms (latency now) log) (codes "out")
            log.method log.latency_ms counts

  -- Two requests in flight with one id: the first response is logged with the method of the second
  -- request, whichever it answers, and the second with none.
  pub log_response_mixed :
      (lm : MessageLog F) (ctx : Context) (t : ℕ) (first second : Request) (one two : Response)
      → is_notification first ≡ false
      → is_notification second ≡ false
      → id_string compact first.id ≡ id_string compact second.id
      → id_string compact one.id ≡ id_string compact second.id
      → id_string compact two.id ≡ id_string compact second.id
      → lm.has_on_message ≡ true
      → (apply_all compact itoa zero_ms latency lm (
          asked ctx t first
          ∷ asked ctx t second
          ∷ answered ctx t one
          ∷ answered ctx t two
          ∷ [])).messages
        ≡ lm.messages
          ++ (codes "out", second.method, latency t t) ∷ []
          ++ (codes "out", [], zero_ms) ∷ []
  unfolding apply_all apply
  log_response_mixed lm ctx t first second one two a b e f g counts =
      let key = id_string compact second.id in
      let s1 = log_request compact zero_ms ctx t lm first in
      let s2 = log_request compact zero_ms ctx t s1 second in
      let s3 = log_response itoa zero_ms (latency t) compact ctx t s2 one in
      let (m1, h1) = log_request-messages lm ctx t first a in
      let (m2, h2) = log_request-messages s1 ctx t second b in
      let (p, found, method, start) =
        log_request-Waits compact itoa zero_ms latency s1 ctx t second b in
      let (m3, h3, gone) = log_response-messages s2 key t ctx one f (h2 ∙ h1 ∙ counts) in
      let (m4, h4, none_left) = log_response-messages s3 key t ctx two g h3 in
      m4
      ∙ ap₂ told
          (m3
            ∙ ap₂ told (m2 ∙ m1) (
                ap out found
                ∙ ap₂ (λ (n : Text) (u : ℕ). (codes "out", n, latency t u)) method start))
          (ap out gone)
    where
      told : List (Text × Text × F) → Text × Text × F → List (Text × Text × F)
      told calls call = calls ++ call ∷ []

      out : Option PendingRequest → Text × Text × F
      out o = (codes "out", (or_no_request o).method, latency_of zero_ms (latency t) o)
