-- ===== src/Webui/Examples.antt =====
-- The theorems of the dashboard at concrete inputs.
use mathlib.Core.List.{Memᴰ}
use shield_agent.Registry.{is_enabled}
use shield_agent.Prelude.{
  ◌⊎◌, arith, ℕ, ◌≡◌, refl, not, Option, some, none, List, [], ◌∷◌, Text, codes, ◌=ₜ◌,
}
use shield_agent.Prelude.Map.{empty}
use shield_agent.Config.{MiddlewareEntry, entry_on}
use shield_agent.Config.Load.{key_prefix, set_enabled, apply_db_overrides}
use shield_agent.Config.Load.Overrides.{is_on, first_status}
use shield_agent.Storage.{load_config_prefix}
use shield_agent.Webui.{Bcrypt, Call, Dashboard, handle_middlewares, ensure_admin_password, toggle}
use shield_agent.Webui.Sessions.{Use, login, call, Passes, Refused, run, require_auth-Opened}
use shield_agent.Webui.Handlers.{handle_middlewares-KeepsSessions}
use shield_agent.Webui.Restarted.{is_enabled-toggle}

-- A hash is the password itself.
abbrev bcrypt : Bcrypt
bcrypt = record { generate = λ t. some t; compare_hash = λ hash t. hash =ₜ t }

abbrev given_body : Text → Option Text
given_body t = some t

abbrev fresh_start : Dashboard ℕ
fresh_start = record {
  sessions = empty;
  admin = ensure_admin_password bcrypt [];
  middlewares = entry_on (codes "log") ∷ [];
  upstreams = [];
  keys = [];
}

abbrev first_login : Call
first_login = record {
  method = codes "POST";
  path = codes "/api/auth/login";
  cookie = none;
  body = codes "admin";
}

abbrev listing : Call
listing = record {
  method = codes "GET";
  path = codes "/api/middlewares";
  cookie = some (codes "s1");
  body = [];
}

abbrev uses : List (Use ℕ)
uses =
    login 5 (codes "s1") first_login
    ∷ call 6 handle_middlewares handle_middlewares-KeepsSessions listing
    ∷ []

require_auth-Opened_example :
    Passes bcrypt given_body 6 fresh_start uses listing
    ⊎ Refused bcrypt given_body 6 (run bcrypt given_body fresh_start uses) listing
require_auth-Opened_example = require_auth-Opened bcrypt given_body fresh_start uses 6 listing refl

-- At the next start the log middleware, which was on, is off.
is_enabled-toggle_example :
    let entries =
      apply_db_overrides
        (entry_on {V = ℕ} (codes "log") ∷ [])
        (load_config_prefix key_prefix (toggle set_enabled (codes "log") fresh_start).0.admin) in
    ((e : MiddlewareEntry ℕ) × Memᴰ e entries × (e.name ≡ codes "log"))
    × ((e : MiddlewareEntry ℕ)
        → Memᴰ e entries
        → e.name ≡ codes "log"
        → is_enabled e ≡ not (is_on (first_status (codes "log") fresh_start.middlewares)))
unfolding ◌=ₜ◌
is_enabled-toggle_example =
    is_enabled-toggle (codes "log") fresh_start (entry_on (codes "log") ∷ []) (omega arith)
