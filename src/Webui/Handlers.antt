-- ===== src/Webui/Handlers.antt =====
-- The handlers behind `requireAuth` leave the sessions of the dashboard as they are.
use shield_agent.Prelude.{
  ℕ, ◌≡◌, refl, inl, inr, Bool, Option, List, Text, codes, ◌=ₜ◌, arith, is_empty, Bool-cases,
  Option-cases,
}
use shield_agent.Prelude.Result.{Result-cases}
use shield_agent.Auth.KeyTable.{AgentKey, insert_agent_key, delete_agent_key}
use shield_agent.Config.{MiddlewareEntry}
use shield_agent.Proxy.Router.{trim_prefix}
use shield_agent.Storage.{UpstreamRow, insert_upstream, update_upstream, delete_upstream}
use shield_agent.Webui.{
  Bcrypt, Dashboard, handle_change_password, change_password, handle_middlewares,
  handle_middleware_toggle, toggle, trim_suffix,
}
use shield_agent.Webui.Tables.{
  NewKey, post_upstream, handle_upstreams, put_upstream, remove_upstream, handle_upstream_by_name,
  post_key, handle_keys, handle_key_by_id, with_transport,
}
use shield_agent.Webui.Sessions.{KeepsSessions}

module _ {V : Type 0} where
  change_password-KeepsSessions :
      (b : Bcrypt) (decode : Text → Option Text) (d : Dashboard V) (password : Text)
      → (change_password b decode d password).0.sessions ≡ d.sessions
  unfolding change_password
  change_password-KeepsSessions b decode d password = elim (Bool-cases (is_empty password)) [
    | inl blank ↦ ground arith
    | inr given ↦ elim (Option-cases (b.generate password)) [
      | inl failed ↦ ground arith
      | inr (hash, made) ↦ ground arith
    ]
  ]

  pub handle_change_password-KeepsSessions :
      (b : Bcrypt) (decode : Text → Option Text)
      → KeepsSessions {V = V} (handle_change_password b decode)
  unfolding handle_change_password
  handle_change_password-KeepsSessions b decode d c = elim (Bool-cases (c.method =ₜ codes "POST")) [
    | inr other ↦ ground arith
    | inl post ↦ elim (Option-cases (decode c.body)) [
      | inl unread ↦ ground arith
      | inr (password, read) ↦ ground (arith, change_password-KeepsSessions b decode d password)
    ]
  ]

  pub handle_middlewares-KeepsSessions : KeepsSessions {V = V} handle_middlewares
  unfolding handle_middlewares
  handle_middlewares-KeepsSessions d c = ground arith

  toggle-KeepsSessions :
      (toggle_mw : Text → Bool → List (MiddlewareEntry V) → List (MiddlewareEntry V)) (name : Text)
      (d : Dashboard V)
      → (toggle toggle_mw name d).0.sessions ≡ d.sessions
  unfolding toggle
  toggle-KeepsSessions toggle_mw name d = refl

  pub handle_middleware_toggle-KeepsSessions :
      (toggle_mw : Text → Bool → List (MiddlewareEntry V) → List (MiddlewareEntry V))
      → KeepsSessions (handle_middleware_toggle toggle_mw)
  unfolding handle_middleware_toggle
  handle_middleware_toggle-KeepsSessions toggle_mw d c =
      let name = trim_suffix (trim_prefix c.path (codes "/api/middlewares/")) (codes "/toggle") in
      elim (Bool-cases (c.method =ₜ codes "POST")) [
        | inr other ↦ rw other refl
        | inl post ↦ elim (Bool-cases (is_empty name)) [
          | inl blank ↦ rw (post, blank) refl
          | inr given ↦ rw (post, given) (toggle-KeepsSessions toggle_mw name d)
        ]
      ]

  post_upstream-KeepsSessions :
      (decode : Text → Option UpstreamRow) (by_created : List UpstreamRow → List UpstreamRow)
      (now : ℕ) (d : Dashboard V) (u : UpstreamRow)
      → (post_upstream decode by_created now d u).0.sessions ≡ d.sessions
  unfolding post_upstream
  post_upstream-KeepsSessions decode by_created now d u =
      elim (Result-cases (insert_upstream now (with_transport u) d.upstreams)) [
        | inl (rows, inserted) ↦ ground arith
        | inr (e, failed) ↦ ground arith
      ]

  pub handle_upstreams-KeepsSessions :
      (decode : Text → Option UpstreamRow) (by_created : List UpstreamRow → List UpstreamRow)
      (now : ℕ)
      → KeepsSessions {V = V} (handle_upstreams decode by_created now)
  unfolding handle_upstreams
  handle_upstreams-KeepsSessions decode by_created now d c = elim (Option-cases (decode c.body)) [
    | inl unread ↦ ground arith
    | inr (u, read) ↦ ground (arith, post_upstream-KeepsSessions decode by_created now d u)
  ]

  put_upstream-KeepsSessions :
      (decode : Text → Option UpstreamRow) (by_created : List UpstreamRow → List UpstreamRow)
      (now : ℕ) (name : Text) (d : Dashboard V) (u : UpstreamRow)
      → (put_upstream decode by_created now name d u).0.sessions ≡ d.sessions
  unfolding put_upstream
  put_upstream-KeepsSessions decode by_created now name d u =
      elim (Result-cases (update_upstream name u d.upstreams)) [
        | inl (rows, updated) ↦ ground arith
        | inr (e, failed) ↦ ground arith
      ]

  remove_upstream-KeepsSessions :
      (decode : Text → Option UpstreamRow) (by_created : List UpstreamRow → List UpstreamRow)
      (now : ℕ) (name : Text) (d : Dashboard V)
      → (remove_upstream decode by_created now name d).0.sessions ≡ d.sessions
  unfolding remove_upstream
  remove_upstream-KeepsSessions decode by_created now name d =
      elim (Result-cases (delete_upstream name d.upstreams)) [
        | inl (rows, deleted) ↦ ground arith
        | inr (e, failed) ↦ ground arith
      ]

  pub handle_upstream_by_name-KeepsSessions :
      (decode : Text → Option UpstreamRow) (by_created : List UpstreamRow → List UpstreamRow)
      (now : ℕ)
      → KeepsSessions {V = V} (handle_upstream_by_name decode by_created now)
  unfolding handle_upstream_by_name
  handle_upstream_by_name-KeepsSessions decode by_created now d c =
      let name = trim_prefix c.path (codes "/api/upstreams/") in
      elim (Option-cases (decode c.body)) [
        | inl unread ↦ ground (arith, remove_upstream-KeepsSessions decode by_created now name d)
        | inr (u, read) ↦ ground (
          arith,
          remove_upstream-KeepsSessions decode by_created now name d,
          put_upstream-KeepsSessions decode by_created now name d u,
        )
      ]

  post_key-KeepsSessions :
      (decode : Text → Option NewKey) (base64 : Text → Option Text)
      (newest_first : List AgentKey → List AgentKey) (created : Text) (d : Dashboard V) (k : NewKey)
      → (post_key decode base64 newest_first created d k).0.sessions ≡ d.sessions
  unfolding post_key
  post_key-KeepsSessions decode base64 newest_first created d k =
      elim (Result-cases (insert_agent_key d.keys k.id k.public_key k.label created)) [
        | inl (rows, inserted) ↦ ground arith
        | inr (e, failed) ↦ ground arith
      ]

  pub handle_keys-KeepsSessions :
      (decode : Text → Option NewKey) (base64 : Text → Option Text)
      (newest_first : List AgentKey → List AgentKey) (created : Text)
      → KeepsSessions {V = V} (handle_keys decode base64 newest_first created)
  unfolding handle_keys
  handle_keys-KeepsSessions decode base64 newest_first created d c =
      elim (Option-cases (decode c.body)) [
        | inl unread ↦ ground arith
        | inr (k, read) ↦
            ground (arith, post_key-KeepsSessions decode base64 newest_first created d k)
      ]

  pub handle_key_by_id-KeepsSessions : KeepsSessions {V = V} handle_key_by_id
  unfolding handle_key_by_id
  handle_key_by_id-KeepsSessions d c =
      elim (Result-cases (delete_agent_key d.keys (trim_prefix c.path (codes "/api/keys/")))) [
        | inl (rows, deleted) ↦ ground arith
        | inr (e, failed) ↦ ground arith
      ]
