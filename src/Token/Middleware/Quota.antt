-- ===== src/Token/Middleware/Quota.antt =====
-- How much of its quota a token can use.
use shield_agent.Prelude.{
  ℕ, ◌+◌, ◌≤◌, ◌<◌, ◌≡◌, ◌∙◌, sym, ap, some, List, [], ◌∷◌, Text, ◌=ₜ◌, =ₜ_iff, =ₜ_refl, arith,
  Bool-cases, inl, inr, if◌then◌else◌, count_if, count_if-append,
}
use shield_agent.Prelude.Int.{pos}
use shield_agent.Prelude.Result.{ok, Result-cases}
use shield_agent.Jsonrpc.{Request}
use shield_agent.Token.{
  Token, Latencies, Store, UsageRecord, in_window, get_by_hash, count_usage, hour, find,
}
use shield_agent.Token.Middleware.{no_faults, authorize, process_request, record_success}
use shield_agent.Token.Middleware.Admission.{authorize_iff}

module _ (lt : Latencies) where
  count_if-later :
      (id : Text) (now later window : ℕ) (us : List (UsageRecord lt))
      → now ≤ later
      → count_if (in_window lt id later window) us ≤ count_if (in_window lt id now window) us
  count_if-later id now later window [] le = omega arith
  count_if-later id now later window (u ∷ us) le =
      ground (arith, count_if-later id now later window us le)

  -- Time only lets usage fall out of the window.
  count_usage-later :
      (s : Store lt) (id : Text) (now later window : ℕ)
      → now ≤ later
      → count_usage lt s later id window ≤ count_usage lt s now id window
  unfolding count_usage
  count_usage-later s id now later window le = count_if-later id now later window s.usage le

  -- A record counts once for its token, and not at all for another.
  count_usage-record_success :
      (s : Store lt) (now window : ℕ) (used id : Text) (req : Request)
      → count_usage lt (record_success lt s no_faults now used req) now id window
        ≡ count_usage lt s now id window + (if used =ₜ id then 1 else 0)
  unfolding count_usage record_success
  count_usage-record_success s now window used id req =
      count_if-append (in_window lt id now window) s.usage _
      ∙ ap (λ n. count_usage lt s now id window + n) (ground arith)

-- A request as it reaches the middleware.
pub record Call : Type 0 where
  pub at : ℕ
  pub raw : Text
  pub req : Request

-- The calls come in order, none before `start` and none after `end`.
abbrev pub Chronological : ℕ → ℕ → List Call → Type 0
Chronological start end [] = start ≤ end
Chronological start end (c ∷ cs) = (start ≤ c.at) × Chronological c.at end cs

module _ (lt : Latencies) (hash_token : Text → Text) where
  abbrev pub handle : Store lt → Call → Store lt
  handle s c = (process_request lt hash_token s no_faults c.at c.raw c.req).0

  unfoldable pub handle_all : Store lt → List Call → Store lt
  handle_all s [] = s
  handle_all s (c ∷ cs) = handle_all (handle s c) cs

  -- Every token with this id has this hourly quota.
  abbrev pub HasQuota : Store lt → Text → ℕ → Type 0
  HasQuota s id quota =
      (hash : Text) (t : Token)
      → get_by_hash lt s hash ≡ some t
      → t.id ≡ id
      → t.quota_hourly ≡ pos quota

  tokens-handle : (s : Store lt) (c : Call) → (handle s c).tokens ≡ s.tokens
  unfolding process_request record_success
  tokens-handle s c = elim (Result-cases (authorize lt hash_token s no_faults c.at c.raw c.req)) [
    | inl (t, passed) ↦ ground arith
    | inr (e, refused) ↦ ground arith
  ]

  handle-HasQuota :
      (s : Store lt) (c : Call) (id : Text) (quota : ℕ)
      → HasQuota s id quota
      → HasQuota (handle s c) id quota
  unfolding get_by_hash
  handle-HasQuota s c id quota h hash t found same =
      h hash t (sym (ap (find (λ u. u.token_hash =ₜ hash)) (tokens-handle s c)) ∙ found) same

  handle-within :
      (s : Store lt) (c : Call) (id : Text) (quota : ℕ)
      → 0 < quota
      → HasQuota s id quota
      → count_usage lt s c.at id hour ≤ quota
      → count_usage lt (handle s c) c.at id hour ≤ quota
  unfolding process_request
  handle-within s c id quota set h within =
      elim (Result-cases (authorize lt hash_token s no_faults c.at c.raw c.req)) [
        | inr (e, refused) ↦ ground arith
        | inl (t, passed) ↦
            let a = (authorize_iff lt hash_token s c.at c.raw c.req t).0 passed in
            elim (Bool-cases (t.id =ₜ id)) [
              | inl same ↦ ground (
                arith,
                (=ₜ_iff t.id id).0 same,
                h (hash_token c.raw) t a.found,
                a.hourly,
                count_usage-record_success lt s c.at hour t.id id c.req,
              )
              | inr other ↦ ground (arith, count_usage-record_success lt s c.at hour t.id id c.req)
            ]
      ]

  -- With a working database, requests that are handled one after the other, in the order of their
  -- times, never bring the usage of a token above its hourly quota, which is positive, at any time
  -- from the last request on, if the usage was within it at the start.
  pub handle_all-within_quota :
      (calls : List Call) (s : Store lt) (start end quota : ℕ) (id : Text)
      → 0 < quota
      → HasQuota s id quota
      → count_usage lt s start id hour ≤ quota
      → Chronological start end calls
      → count_usage lt (handle_all s calls) end id hour ≤ quota
  unfolding handle_all
  handle_all-within_quota [] s start end quota id set h within order =
      omega (arith, count_usage-later lt s id start end hour order)
  handle_all-within_quota (c ∷ cs) s start end quota id set h within (le, order) =
      handle_all-within_quota cs (handle s c) c.at end quota id set (handle-HasQuota s c id quota h)
        (handle-within s c id quota set h
          (omega (arith, count_usage-later lt s id start c.at hour le)))
        order

  -- Two requests of one token that are both checked before either is recorded both pass with one
  -- request left in the hourly quota, and the usage then exceeds it.
  pub count_usage-race :
      (s : Store lt) (now quota : ℕ) (raw raw' : Text) (req req' : Request) (t : Token)
      → authorize lt hash_token s no_faults now raw req ≡ ok t
      → authorize lt hash_token s no_faults now raw' req' ≡ ok t
      → t.quota_hourly ≡ pos quota
      → count_usage lt s now t.id hour + 1 ≡ quota
      → quota
        < count_usage lt
            (record_success lt (record_success lt s no_faults now t.id req) no_faults now t.id req')
            now
            t.id
            hour
  count_usage-race s now quota raw raw' req req' t first second q left = ground (
    arith,
    =ₜ_refl t.id,
    count_usage-record_success lt s now hour t.id t.id req,
    count_usage-record_success lt (record_success lt s no_faults now t.id req) now hour t.id t.id
        req',
  )
