-- ===== src/Egress/Provider.antt =====
-- internal/egress/provider_detect.go.
pub mod Rules
use shield_agent.Prelude.{
  Bool, true, false, List, [], ◌∷◌, ◌++◌, Text, codes, ◌=ₜ◌, has_prefix, has_suffix, to_lower, ◌&&◌,
  ◌||◌, if◌then◌else◌,
}
use shield_agent.Egress.Domain.{dot}

pub record HostRule : Type 0 where
  pub suffix : Text
  pub provider : Text

abbrev pub provider_unknown : Text
provider_unknown = codes "unknown"

abbrev pub rule : Text → Text → HostRule
rule suffix provider = record { suffix = suffix; provider = provider }

abbrev pub host_rules : List HostRule
host_rules =
    rule (codes "api.openai.com") (codes "openai")
    ∷ rule (codes "api.anthropic.com") (codes "anthropic")
    ∷ rule (codes "generativelanguage.googleapis.com") (codes "google")
    ∷ rule (codes "aiplatform.googleapis.com") (codes "google")
    ∷ rule (codes "api.cohere.ai") (codes "cohere")
    ∷ rule (codes "api.cohere.com") (codes "cohere")
    ∷ rule (codes "api.mistral.ai") (codes "mistral")
    ∷ rule (codes ".openai.azure.com") (codes "azure")
    ∷ []

-- `strings.TrimSuffix(host, ".")`
unfoldable pub trim_dot : Text → Text
trim_dot [] = []
trim_dot (c ∷ []) = if c ∷ [] =ₜ codes "." then [] else c ∷ []
trim_dot (c ∷ d ∷ s) = c ∷ trim_dot (d ∷ s)

unfoldable pub matches_rule : Text → Text → Bool
matches_rule host suffix =
    if has_prefix suffix (codes ".")
    then has_suffix host suffix
    else host =ₜ suffix || has_suffix host (dot ∷ suffix)

-- The provider of the first rule that matches.
unfoldable pub detect_by : List HostRule → Text → Text
detect_by [] host = provider_unknown
detect_by (r ∷ rules) host =
    let rest = detect_by rules host in if matches_rule host r.suffix then r.provider else rest

unfoldable pub detect : Text → Text
detect host = detect_by host_rules (trim_dot (to_lower host))
