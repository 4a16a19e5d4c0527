-- ===== src/Webui/Tokens.antt =====
-- The tokens on the dashboard, internal/webui/api.go. `generate` is `GenerateToken`, `none` where there is
-- no entropy; `duration` is `parseDuration`, and `since` the query parameter that `time.ParseDuration`
-- read. Only a row that is taken fails in the database.
use shield_agent.Prelude.{
  ℕ, ◌+◌, Bool, false, Option, none, some, List, [], ◌∷◌, Text, codes, ◌=ₜ◌, is_empty, keep,
  if◌then◌else◌, ◌==◌,
}
use shield_agent.Prelude.Int.{ℤ}
use shield_agent.Prelude.Result.{ok, err}
use shield_agent.Proxy.Router.{trim_prefix}
use shield_agent.Token.{
  Latencies, Token, Store, StoreError, UsageStats, create, revoke, get_by_id, get_stats,
}
use shield_agent.Webui.{Call, day}

pub record NewToken : Type 0 where
  pub name : Text
  pub quota_hourly : ℤ
  pub quota_monthly : ℤ
  pub expires_in : Text
  pub allowed_methods : List Text
  pub ip_allowlist : List Text

pub data Answer (lt : Latencies) : Type 0 where
  wrong_method name_required no_entropy id_required no_token token_revoked : Answer lt
  store_failed : StoreError → Answer lt
  found_tokens : List Token → Answer lt
  found_token : Token → Answer lt
  made_token : Text → Text → Answer lt
  token_stats : UsageStats lt → Answer lt

pub record TokenReply (lt : Latencies) : Type 0 where
  pub status : ℕ
  pub answer : Answer lt

-- `strings.Split(s, "/")`, its first part and the others
abbrev pub split_slash : Text → Text × List Text
split_slash [] = ([], [])
split_slash (c ∷ s) =
    let (part, parts) = split_slash s in if c == b'/' then ([], part ∷ parts) else (c ∷ part, parts)

abbrev pub is_stats : List Text → Bool
is_stats [] = false
is_stats (part ∷ parts) = part =ₜ codes "stats"

-- The time of expiry that the body asks for; what does not parse is no expiry.
abbrev pub expiry_of : (Text → Option ℕ) → ℕ → Text → Option ℕ
expiry_of duration now expires_in =
    if is_empty expires_in
    then none
    else elim (duration expires_in) [ none ↦ none | some d ↦ some (now + d) ]

abbrev window_of : Option ℕ → ℕ
window_of none = day
window_of (some since) = since

module _ (lt : Latencies) (decode : Text → Option NewToken) (hash_token : Text → Text)
    (duration : Text → Option ℕ) (newest_first : List Token → List Token) where
  abbrev pub answer_with : ℕ → Answer lt → TokenReply lt
  answer_with status answer = record { status = status; answer = answer }

  unfoldable pub post_token :
      ℕ → Text → Option Text → Store lt → NewToken → Store lt × TokenReply lt
  unfolding create is_empty
  post_token now id generate s body =
      if is_empty body.name then (s, answer_with 400 name_required) else elim generate [
        | none ↦ (s, answer_with 500 no_entropy)
        | some raw ↦
            let (s', made) =
              create lt s id now body.name (hash_token raw) (expiry_of duration now body.expires_in)
                body.quota_hourly body.quota_monthly body.allowed_methods body.ip_allowlist in
            elim made [
              | err e ↦ (s', answer_with 500 (store_failed e))
              | ok id' ↦ (s', answer_with 201 (made_token id' raw))
            ]
      ]

  unfoldable pub handle_tokens : ℕ → Text → Option Text → Store lt → Call → Store lt × TokenReply lt
  unfolding post_token ◌=ₜ◌
  handle_tokens now id generate s c =
      if c.method =ₜ codes "GET"
      then (
        s,
        answer_with 200 (found_tokens (newest_first (keep (λ (t : Token). t.active) s.tokens))),
      )
      else if c.method =ₜ codes "POST"
      then elim (decode c.body) [
        | none ↦ (s, answer_with 400 name_required)
        | some body ↦ post_token now id generate s body
      ]
      else (s, answer_with 405 wrong_method)

  unfoldable pub revoke_token : Store lt → Text → Store lt × TokenReply lt
  unfolding revoke
  revoke_token s id =
      let (s', done) = revoke lt s id in
      elim done [
        | err e ↦ (s', answer_with 404 (store_failed e))
        | ok _ ↦ (s', answer_with 200 token_revoked)
      ]

  unfoldable pub handle_token_by_id : ℕ → Option ℕ → Store lt → Call → Store lt × TokenReply lt
  unfolding revoke_token get_by_id get_stats is_empty ◌=ₜ◌
  handle_token_by_id now since s c =
      let (id, parts) = split_slash (trim_prefix c.path (codes "/api/tokens/")) in
      if is_empty id
      then (s, answer_with 400 id_required)
      else if is_stats parts
      then (if c.method =ₜ codes "GET"
          then (s, answer_with 200 (token_stats (get_stats lt s now id (window_of since))))
          else (s, answer_with 405 wrong_method))
      else if c.method =ₜ codes "DELETE"
      then revoke_token s id
      else if c.method =ₜ codes "GET"
      then elim (get_by_id lt s id) [
        | none ↦ (s, answer_with 404 no_token)
        | some t ↦ (s, answer_with 200 (found_token t))
      ]
      else (s, answer_with 405 wrong_method)
