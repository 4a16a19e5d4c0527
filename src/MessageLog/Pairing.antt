-- ===== src/MessageLog/Pairing.antt =====
-- Which request a response is logged with.
use shield_agent.Prelude.{
  ℕ, ◌<◌, ◌≡◌, ◌≢◌, refl, sym, ap, ◌∙◌, inl, inr, true, false, Option, none, some, List, [], ◌∷◌,
  ◌++◌, Text, codes, All, ◌=ₜ◌, =ₜ_iff, =ₜ_refl, length, arith, Bool-cases, Option-cases,
}
use mathlib.Core.Path.{Path}
use shield_agent.Prelude.Int.{ℤ}
use shield_agent.Telemetry.{Event}
use shield_agent.Prelude.Map.{Map, delete}
use shield_agent.Jsonrpc.{Request, Response, is_notification}
use shield_agent.MessageLog.{
  PendingRequest, ActionLog, MessageLog, Context, id_string, set_auth_status, enqueue, note,
  count_message, finish, response_event, or_no_request, latency_of, log_request, log_response,
  response_log, channel_size,
}

-- A call of the middleware by one of its users.
pub data Call : Type 0 where
  asked : Context → ℕ → Request → Call
  answered : Context → ℕ → Response → Call
  authenticated : Text → Text → Text → Call

-- What `note`, `count_message` and `enqueue` leave as it is.
module _ {F : Type 0} where
  pub finish-pending :
      (lm : MessageLog F) (log : ActionLog F) (e : Event F) (d m : Text) (ms : F)
      → (finish lm log e d m ms).pending ≡ lm.pending
  unfolding finish enqueue note count_message
  finish-pending lm log e d m ms = ground arith

  finish-write_ch :
      (lm : MessageLog F) (log : ActionLog F) (e : Event F) (d m : Text) (ms : F)
      → length lm.write_ch < channel_size
      → (finish lm log e d m ms).write_ch ≡ lm.write_ch ++ log ∷ []
  unfolding finish enqueue note count_message
  finish-write_ch lm log e d m ms room = ground arith

  pub finish-messages :
      (lm : MessageLog F) (log : ActionLog F) (e : Event F) (d m : Text) (ms : F)
      → lm.has_on_message ≡ true
      → ((finish lm log e d m ms).messages ≡ lm.messages ++ (d, m, ms) ∷ [])
        × ((finish lm log e d m ms).has_on_message ≡ true)
  unfolding finish enqueue note count_message
  finish-messages lm log e d m ms counts = (ground arith, ground arith)

module _ {F : Type 0} (compact : Text → Option Text) (itoa : ℤ → Text) (zero_ms : F)
    (latency : ℕ → ℕ → F) where
  unfoldable pub apply : MessageLog F → Call → MessageLog F
  unfolding log_request log_response set_auth_status
  apply lm (asked ctx now req) = log_request compact zero_ms ctx now lm req
  apply lm (answered ctx now resp) = log_response itoa zero_ms (latency now) compact ctx now lm resp
  apply lm (authenticated id status hash) = set_auth_status lm id status hash

  unfoldable pub apply_all : MessageLog F → List Call → MessageLog F
  unfolding apply
  apply_all lm [] = lm
  apply_all lm (c ∷ calls) = apply_all (apply lm c) calls

  -- The call is no request and no response with this id.
  abbrev pub Other : Text → Call → Type 0
  Other key (asked ctx now req) = id_string compact req.id ≢ key
  Other key (answered ctx now resp) = id_string compact resp.id ≢ key
  Other key (authenticated _ _ _) = Unit

  -- The id waits for an answer, with this method and start.
  abbrev pub Waits : Text → Text → ℕ → MessageLog F → Type 0
  Waits key method start lm =
      (p : PendingRequest) × (lm.pending key ≡ some p)
      × (p.method ≡ method)
      × (p.started_at ≡ start)

  module _ (key method : Text) (start : ℕ) where
    apply-Waits :
        (lm : MessageLog F) (c : Call)
        → Other key c
        → Waits key method start lm
        → Waits key method start (apply lm c)
    unfolding apply log_request log_response set_auth_status finish enqueue note count_message
    apply-Waits lm (asked ctx now req) o (p, found, m, t) =
        let differs = =ₜ_iff (id_string compact req.id) key in (p, ground arith, m, t)
    apply-Waits lm (answered ctx now resp) o (p, found, m, t) =
        let differs = =ₜ_iff (id_string compact resp.id) key in (p, ground arith, m, t)
    apply-Waits lm (authenticated id status hash) o (p, found, m, t) =
        elim (Option-cases (lm.pending id)) [
          | inl absent ↦ (p, ground arith, m, t)
          | inr (q, present) ↦ elim (Bool-cases (id =ₜ key)) [
            | inl same ↦
                let e : Path (Option PendingRequest) (some q) (some p) =
                  sym present ∙ ap lm.pending ((=ₜ_iff id key).0 same) ∙ found in
                (
                  record q { auth_status = status; agent_hash = hash },
                  ground arith,
                  ground arith,
                  ground arith,
                )
            | inr other ↦ (p, ground arith, m, t)
          ]
        ]

    apply_all-Waits :
        (lm : MessageLog F) (calls : List Call)
        → All (Other key) calls
        → Waits key method start lm
        → Waits key method start (apply_all lm calls)
    unfolding apply_all
    apply_all-Waits lm [] o w = w
    apply_all-Waits lm (c ∷ calls) (oc, o) w =
        apply_all-Waits (apply lm c) calls o (apply-Waits lm c oc w)

  pub log_request-Waits :
      (lm : MessageLog F) (ctx : Context) (now : ℕ) (req : Request)
      → is_notification req ≡ false
      → Waits (id_string compact req.id) req.method now (log_request compact zero_ms ctx now lm req)
  unfolding log_request
  log_request-Waits lm ctx now req call = (
    record { method = req.method; agent_hash = []; auth_status = []; started_at = now },
    ground (arith, =ₜ_refl (id_string compact req.id)),
    refl,
    refl,
  )

  log_response-Waits :
      (s : MessageLog F) (key method : Text) (start now : ℕ) (ctx : Context) (resp : Response)
      → id_string compact resp.id ≡ key
      → length s.write_ch < channel_size
      → Waits key method start s
      → let s' = log_response itoa zero_ms (latency now) compact ctx now s resp in
        (log : ActionLog F) × (s'.write_ch ≡ s.write_ch ++ log ∷ [])
        × (log.method ≡ method)
        × (log.latency_ms ≡ latency now start)
        × (s'.pending key ≡ none)
  unfolding log_response response_log
  log_response-Waits s key method start now ctx resp same room (p, found, m, t) = (
    log,
    finish-write_ch cleared log (response_event itoa zero_ms (latency now) log) (codes "out")
        log.method log.latency_ms room,
    ap (λ (o : Option PendingRequest). (or_no_request o).method) waiting ∙ m,
    ap (latency_of zero_ms (latency now)) waiting ∙ ap (latency now) t,
    ap (λ (f : Map PendingRequest). f key)
          (finish-pending cleared log (response_event itoa zero_ms (latency now) log) (codes "out")
            log.method log.latency_ms)
        ∙ ground (arith, =ₜ_iff (id_string compact resp.id) key),
  )
    where
      waiting : s.pending (id_string compact resp.id) ≡ some p
      waiting = ap s.pending same ∙ found

      log : ActionLog F
      log =
          response_log itoa zero_ms (latency now) ctx now (s.pending (id_string compact resp.id))
            resp

      cleared : MessageLog F
      cleared = record s { pending = delete (id_string compact resp.id) s.pending }

  -- A response is logged with the method and the start of the request that it answers, if no other
  -- request or response between them has its id and the channel has room; then nothing waits under
  -- the id.
  pub log_response_pairs :
      (lm : MessageLog F) (ctx ctx' : Context) (start now : ℕ) (req : Request) (resp : Response)
      (calls : List Call)
      → is_notification req ≡ false
      → id_string compact resp.id ≡ id_string compact req.id
      → All (Other (id_string compact req.id)) calls
      → length (apply_all (log_request compact zero_ms ctx start lm req) calls).write_ch
        < channel_size
      → let s = apply_all (log_request compact zero_ms ctx start lm req) calls in
        let s' = log_response itoa zero_ms (latency now) compact ctx' now s resp in
        (log : ActionLog F) × (s'.write_ch ≡ s.write_ch ++ log ∷ [])
        × (log.method ≡ req.method)
        × (log.latency_ms ≡ latency now start)
        × (s'.pending (id_string compact req.id) ≡ none)
  log_response_pairs lm ctx ctx' start now req resp calls call same others room =
      let key = id_string compact req.id in
      let s = apply_all (log_request compact zero_ms ctx start lm req) calls in
      log_response-Waits s key req.method start now ctx' resp same room (
        apply_all-Waits key req.method start (log_request compact zero_ms ctx start lm req) calls
          others (log_request-Waits lm ctx start req call))
