-- ===== src/Webui.antt =====
-- The API of the dashboard, internal/webui/api.go: logging in and the middlewares here, the tables in
-- Webui/Tables and Webui/Tokens. `bcrypt`, `encoding/json` and `time.ParseDuration` are parameters; a handler gives the
-- state after it and its reply. Failures of the database are left out, but for a key that is taken.
pub mod Tables
pub mod Tokens
pub mod Sessions
pub mod Handlers
pub mod Toggled
pub mod Restarted
mod Examples
use shield_agent.Prelude.{
  ℕ, ◌+◌, ◌*◌, Bool, true, false, not, Option, none, some, List, [], ◌∷◌, ◌++◌, Text, codes, ◌=ₜ◌,
  is_empty, has_prefix, has_suffix, length, take, ltb, if◌then◌else◌, ◌-◌, ◌&&◌,
}
use shield_agent.Prelude.Map.{Map, empty, insert, delete}
use shield_agent.Auth.KeyTable.{AgentKey}
use shield_agent.Token.{Token, hour}
use shield_agent.Storage.{ConfigTable, save_config, load_config, UpstreamRow}
use shield_agent.Config.{MiddlewareEntry}
use shield_agent.Config.Load.{key_prefix}
use shield_agent.Proxy.Router.{trim_prefix}

pub record Call : Type 0 where
  pub method : Text
  pub path : Text
  pub cookie : Option Text
  pub body : Text

pub data Content : Type 0 where
  plain failure confirmed : Text → Content
  confirmed_of : Text → Text → Content
  -- `err.Error()` for a name or an id that no row has
  missing : Text → Content
  logged_in : Text → Bool → Content
  toggled : Text → Bool → Content
  statuses : List (Text × Bool) → Content
  upstreams_found : List UpstreamRow → Content
  keys_found : List AgentKey → Content

-- `http.Error` with a plain text, or `writeJSON`
pub record Reply : Type 0 where
  pub status : ℕ
  pub content : Content

abbrev pub reply : ℕ → Content → Reply
reply status content = record { status = status; content = content }

abbrev pub not_allowed : Reply
not_allowed = reply 405 (plain (codes "method not allowed"))

-- `sessions` has the expiry of each session; the entries of the middlewares are those of `getCfg`.
pub record Dashboard (V : Type 0) : Type 0 where
  pub sessions : Map ℕ
  pub admin : ConfigTable
  pub middlewares : List (MiddlewareEntry V)
  pub upstreams : List UpstreamRow
  pub keys : List AgentKey

pub record Bcrypt : Type 0 where
  pub generate : Text → Option Text
  pub compare_hash : Text → Text → Bool

abbrev pub password_key : Text
password_key = codes "password_hash"

abbrev pub or_blank : Option Text → Text
or_blank none = []
or_blank (some t) = t

-- `ensureAdminPassword`
unfoldable pub ensure_admin_password : Bcrypt → ConfigTable → ConfigTable
unfolding load_config save_config
ensure_admin_password b admin = elim (load_config password_key admin) [
  | some hash ↦ admin
  | none ↦
      save_config (codes "force_change") (codes "true")
        (save_config password_key (or_blank (b.generate (codes "admin"))) admin)
]

abbrev pub day : ℕ
day = 24 * hour

module _ {V : Type 0} (b : Bcrypt) (decode : Text → Option Text) where
  -- `decode` reads the field of the body, `none` where the body is not JSON.
  unfoldable pub handle_login : ℕ → Text → Dashboard V → Call → Dashboard V × Reply
  unfolding load_config ◌=ₜ◌
  handle_login now fresh d c =
      if not (c.method =ₜ codes "POST") then (d, not_allowed) else elim (decode c.body) [
        | none ↦ (d, reply 400 (failure (codes "invalid request body")))
        | some password ↦ elim (load_config password_key d.admin) [
          | none ↦ (d, reply 500 (failure (codes "internal error")))
          | some hash ↦
              if b.compare_hash hash password
              then (
                record d { sessions = insert fresh (now + day) d.sessions },
                reply 200 (
                    logged_in fresh
                      (or_blank (load_config (codes "force_change") d.admin) =ₜ codes "true")),
              )
              else (d, reply 401 (failure (codes "invalid password")))
        ]
      ]

  unfoldable pub change_password : Dashboard V → Text → Dashboard V × Reply
  unfolding save_config is_empty
  change_password d password =
      if is_empty password
      then (d, reply 400 (failure (codes "new_password required")))
      else elim (b.generate password) [
        | none ↦ (d, reply 500 (failure (codes "internal error")))
        | some hash ↦ (
          record d {
            admin =
                save_config (codes "force_change") (codes "false")
                  (save_config password_key hash d.admin);
          },
          reply 200 (confirmed (codes "password changed")),
        )
      ]

  unfoldable pub handle_change_password : Dashboard V → Call → Dashboard V × Reply
  unfolding change_password ◌=ₜ◌
  handle_change_password d c =
      if not (c.method =ₜ codes "POST") then (d, not_allowed) else elim (decode c.body) [
        | none ↦ (d, reply 400 (failure (codes "new_password required")))
        | some password ↦ change_password d password
      ]

abbrev pub Handler : Type 0 → Type 0
Handler V = Dashboard V → Call → Dashboard V × Reply

-- Whether a session exists and its expiry has not passed
abbrev pub is_live : ℕ → Option ℕ → Bool
is_live now none = false
is_live now (some expiry) = not (ltb expiry now)

unfoldable pub require_auth : {V : Type 0} → ℕ → Handler V → Handler V
require_auth now next d c = elim c.cookie [
  | none ↦ (d, reply 401 (failure (codes "authentication required")))
  | some id ↦ if is_live now (d.sessions id) then next d c else (
    record d { sessions = delete id d.sessions },
    reply 401 (failure (codes "session expired")),
  )
]

abbrev pub on_by_default : Option Bool → Bool
on_by_default none = true
on_by_default (some on) = on

abbrev pub status_list : {V : Type 0} → List (MiddlewareEntry V) → List (Text × Bool)
status_list [] = []
status_list (e ∷ es) = (e.name, on_by_default e.enabled) ∷ status_list es

unfoldable pub handle_middlewares : {V : Type 0} → Handler V
unfolding ◌=ₜ◌
handle_middlewares d c =
    if c.method =ₜ codes "GET"
    then (d, reply 200 (statuses (status_list d.middlewares)))
    else (d, not_allowed)

-- `strings.TrimSuffix`
abbrev pub trim_suffix : Text → Text → Text
trim_suffix s p = if has_suffix s p then take (length s - length p) s else s

-- What the loop finds, true for a name that no entry has
unfoldable pub is_now_on : {V : Type 0} → Text → List (MiddlewareEntry V) → Bool
unfolding ◌=ₜ◌
is_now_on name [] = true
is_now_on name (e ∷ es) =
    let rest = is_now_on name es in if e.name =ₜ name then on_by_default e.enabled else rest

abbrev pub bool_text : Bool → Text
bool_text true = codes "true"
bool_text false = codes "false"

-- `toggle_mw` is the callback `ToggleMW`, on the entries.
module _ {V : Type 0}
    (toggle_mw : Text → Bool → List (MiddlewareEntry V) → List (MiddlewareEntry V)) where
  unfoldable pub toggle : Text → Dashboard V → Dashboard V × Reply
  unfolding save_config is_now_on
  toggle name d =
      let on = not (is_now_on name d.middlewares) in
      (
        record d {
          middlewares = toggle_mw name on d.middlewares;
          admin = save_config (key_prefix ++ name) (bool_text on) d.admin;
        },
        reply 200 (toggled name on),
      )

  unfoldable pub handle_middleware_toggle : Handler V
  unfolding toggle has_prefix has_suffix is_empty ◌=ₜ◌
  handle_middleware_toggle d c =
      let name = trim_suffix (trim_prefix c.path (codes "/api/middlewares/")) (codes "/toggle") in
      if not (c.method =ₜ codes "POST")
      then (d, not_allowed)
      else if is_empty name
      then (d, reply 400 (failure (codes "middleware name required")))
      else toggle name d
