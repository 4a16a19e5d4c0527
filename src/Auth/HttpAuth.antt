-- ===== src/Auth/HttpAuth.antt =====
-- internal/middleware/httpauth/httpauth.go, with the middlewares of internal/middleware/a2a and
-- internal/middleware/httpapi that call it, and their chains. A handler gives what it does for a
-- request, of some type `R`; `reject` is `http.Error`. A body is `none` where reading it fails.
pub mod Signed
pub mod Chains
pub mod Log
use shield_agent.Prelude.{
  Bool, true, false, Option, none, some, List, [], ◌∷◌, ◌++◌, Text, codes, ◌=ₜ◌, is_empty, ◌||◌,
  if◌then◌else◌, ℕ,
}
use shield_agent.Prelude.Result.{Result, ok, err}
use shield_agent.Auth.KeyStore.{KeyError, resolve_did_key}
use shield_agent.Auth.Middleware.{Crypto, is_did}

pub record Config : Type 0 where
  pub store : Text → Result KeyError Text
  pub mode : Text
  pub agent_id_header : Text
  pub signature_header : Text

-- `header` is `r.Header.Get`.
pub record HttpCall : Type 0 where
  pub method : Text
  pub path : Text
  pub header : Text → Text
  pub body : Option Text

abbrev pub signed_text : Text → Text → Text → Text
signed_text method path body = method ++ 32 ∷ (path ++ 10 ∷ body)

unfoldable pub hash_request : Crypto → Text → Text → Text → Text
hash_request c method path body = c.sha256 (signed_text method path body)

unfoldable pub resolve_agent : Config → Text → Result KeyError Text
resolve_agent cfg agent_id =
    if is_did agent_id then resolve_did_key agent_id else cfg.store agent_id

-- The argument of `OnAuth`, and the status and text of a refusal.
pub record Judged : Type 0 where
  pub status : Text
  pub refusal : Option (ℕ × Text)

-- A failure refuses the request in the mode closed only.
abbrev pub failure : Config → Text → Judged
failure cfg text = record {
  status = codes "failed";
  refusal = if cfg.mode =ₜ codes "closed" then some (401, text) else none;
}

abbrev pub no_body : Judged
no_body = record {
  status = codes "failed";
  refusal = some (400, codes "failed to read request body");
}

abbrev pub verified_call : Judged
verified_call = record { status = codes "verified"; refusal = none }

abbrev pub unsigned_call : Judged
unsigned_call = record { status = codes "unsigned"; refusal = none }

abbrev pub agent_id_of : Config → HttpCall → Text
agent_id_of cfg r = r.header cfg.agent_id_header

abbrev pub sig_hex_of : Config → HttpCall → Text
sig_hex_of cfg r = r.header cfg.signature_header

unfoldable pub judge_body : Crypto → Config → HttpCall → Text → Text → Judged
unfolding hash_request ◌=ₜ◌
judge_body c cfg r key body = elim (c.hex_decode (sig_hex_of cfg r)) [
  | none ↦ failure cfg (codes "unauthorized: invalid signature encoding")
  | some sig ↦
      if c.verify key (hash_request c r.method r.path body) sig
      then verified_call
      else failure cfg (codes "unauthorized: signature verification failed")
]

unfoldable pub judge : Crypto → Config → HttpCall → Judged
unfolding judge_body resolve_agent is_empty ◌=ₜ◌
judge c cfg r =
    if is_empty (agent_id_of cfg r) || is_empty (sig_hex_of cfg r)
    then unsigned_call
    else elim (resolve_agent cfg (agent_id_of cfg r)) [
      | err e ↦ failure cfg (codes "unauthorized: unknown agent")
      | ok key ↦ elim r.body [ none ↦ no_body | some body ↦ judge_body c cfg r key body ]
    ]

module _ {R : Type 0} (reject : ℕ → Text → R) where
  abbrev pub Handler : Type 0
  Handler = HttpCall → R

  -- `WrapHandler`; its second part is the argument of `OnAuth`.
  unfoldable pub wrap_handler : Crypto → Config → Handler → HttpCall → R × Text
  unfolding judge
  wrap_handler c cfg next r =
      let j = judge c cfg r in
      elim j.refusal [
        | none ↦ (next r, j.status)
        | some (status, text) ↦ (reject status text, j.status)
      ]
