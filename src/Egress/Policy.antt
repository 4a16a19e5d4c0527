-- ===== src/Egress/Policy.antt =====
-- internal/compliance/policy.go. `trim_space` is `strings.TrimSpace`. The calls of
-- `IncPolicyViolation` are the pairs of their arguments; the request that a refusal leaves behind
-- is kept, since the middleware writes into it.
pub mod Allowlist
use shield_agent.Prelude.{
  Bool, true, false, List, [], ◌∷◌, ◌++◌, Text, codes, ◌=ₜ◌, is_empty, has_prefix, has_suffix,
  to_lower, any, ◌&&◌, ◌||◌, if◌then◌else◌,
}
use shield_agent.Prelude.Result.{Result, ok, err}
use shield_agent.Egress.{EgressRequest}
use shield_agent.Egress.Domain.{dot}

pub record PolicyMiddleware : Type 0 where
  pub mode : Text
  pub allow_list : List Text

module _ (trim_space : Text → Text) where
  -- The entries trimmed and in lower case, without those that are empty then.
  unfoldable pub cleaned : List Text → List Text
  unfolding is_empty
  cleaned [] = []
  cleaned (a ∷ entries) =
      let rest = cleaned entries in
      let entry = trim_space (to_lower a) in if is_empty entry then rest else entry ∷ rest

  -- `NewPolicyMiddleware`
  unfoldable pub new_policy_middleware : Text → List Text → PolicyMiddleware
  unfolding cleaned is_empty
  new_policy_middleware mode entries = record {
    mode = if is_empty mode then codes "warn" else mode;
    allow_list = cleaned entries;
  }

abbrev pub is_nil : List Text → Bool
is_nil [] = true
is_nil (_ ∷ _) = false

abbrev pub starts_with_dot : Text → Bool
starts_with_dot a = has_prefix a (codes ".")

-- Does an entry allow a host in lower case: the loop's two tests.
unfoldable pub matches_entry : Text → Text → Bool
matches_entry host a = (starts_with_dot a && has_suffix host a) || has_suffix host (dot ∷ a)

unfoldable pub allowed : PolicyMiddleware → Text → Bool
allowed p host =
    if is_nil p.allow_list
    then true
    else if any (λ a. to_lower host =ₜ a) p.allow_list
    then true
    else any (matches_entry (to_lower host)) p.allow_list

pub record Violation : Type 0 where
  pub rule : Text
  pub action : Text

pub record Verdict : Type 0 where
  pub request : EgressRequest
  pub violations : List Violation
  pub refused : Bool

abbrev pub mark_allowed : EgressRequest → EgressRequest
mark_allowed req =
    if is_empty req.policy_action then record req { policy_action = codes "allow" } else req

abbrev pub is_block : PolicyMiddleware → Bool
is_block p = p.mode =ₜ codes "block"

abbrev pub action_of : PolicyMiddleware → Text
action_of p = if is_block p then codes "block" else codes "warn"

unfoldable pub process_policy : PolicyMiddleware → EgressRequest → Verdict
process_policy p req =
    if allowed p req.host
    then record { request = mark_allowed req; violations = []; refused = false }
    else record {
      request = record req { policy_action = action_of p; policy_rule = codes "upstream_allow" };
      violations = record { rule = codes "upstream_allow"; action = action_of p } ∷ [];
      refused = is_block p;
    }
