-- ===== src/Config/Validate.antt =====
-- `Validate` and `validateEgress` of internal/config/config.go. `trim_space` is `strings.TrimSpace`.

pub mod Valid
use shield_agent.Prelude.{
  ◌&&◌, ◌||◌, Bool, true, false, not, Option, none, some, List, [], ◌∷◌, Text, codes, ◌=ₜ◌,
  is_empty, to_lower, any, if◌then◌else◌,
}
use shield_agent.Prelude.Int.{ℤ, pos, negsuc, positive}
use shield_agent.Reputation.{Floats}
use shield_agent.Config.{Config, UpstreamConfig, EgressConfig}

-- What the messages say is wrong, with the values that they quote.
pub data Invalid : Type 0 where
  bad_mode bad_level bad_format bad_listen bad_policy_mode bad_algorithm bad_redaction_mode :
      Text → Invalid
  bad_epsilon no_monitor_addr no_upstream_name : Invalid
  bad_batch_interval bad_retention bad_egress_retention : ℤ → Invalid
  no_url duplicate_name : Text → Invalid
  bad_transport bad_protocol : Text → Text → Invalid

-- A test, what fails without it, and the tests after it
abbrev pub check : Bool → Invalid → Option Invalid → Option Invalid
check passes e rest = if passes then rest else some e

abbrev pub one_of : List Text → Text → Bool
one_of names t = any (λ n. t =ₜ n) names

abbrev pub modes : List Text
modes = codes "open" ∷ codes "verified" ∷ codes "closed" ∷ []

abbrev pub levels : List Text
levels = codes "debug" ∷ codes "info" ∷ codes "warn" ∷ codes "error" ∷ []

abbrev pub formats : List Text
formats = codes "json" ∷ codes "text" ∷ []

abbrev pub transports : List Text
transports = [] ∷ codes "sse" ∷ codes "streamable-http" ∷ []

abbrev pub protocols : List Text
protocols = [] ∷ codes "auto" ∷ codes "mcp" ∷ codes "a2a" ∷ codes "http" ∷ []

abbrev pub policy_modes : List Text
policy_modes = codes "warn" ∷ codes "block" ∷ []

abbrev pub algorithms : List Text
algorithms = [] ∷ codes "sha256" ∷ []

abbrev pub redaction_modes : List Text
redaction_modes = [] ∷ codes "mask" ∷ codes "hash" ∷ []

abbrev pub not_negative : ℤ → Bool
not_negative (pos _) = true
not_negative (negsuc _) = false

-- The loop over the upstreams, with the names that were seen
unfoldable pub check_upstreams : List Text → List UpstreamConfig → Option Invalid → Option Invalid
unfolding is_empty ◌=ₜ◌
check_upstreams names [] rest = rest
check_upstreams names (u ∷ us) rest = check (not (is_empty u.name)) no_upstream_name (
    check (not (is_empty u.url)) (no_url u.name) (
      check (not (one_of names u.name)) (duplicate_name u.name) (
        check (one_of transports u.transport) (bad_transport u.name u.transport) (
          check (one_of protocols u.protocol) (bad_protocol u.name u.protocol)
            (check_upstreams (u.name ∷ names) us rest)))))

module _ (trim_space : Text → Text) where
  -- The tests of an egress proxy that is on
  unfoldable pub check_egress : {V : Type 0} → EgressConfig V → Option Invalid
  unfolding is_empty ◌=ₜ◌
  check_egress e = check (not (is_empty (trim_space e.listen))) (bad_listen e.listen) (
      check (one_of policy_modes e.policy_mode) (bad_policy_mode e.policy_mode) (
        check (not_negative e.retention_days) (bad_egress_retention e.retention_days) (
          check (not e.hash_chain.enabled || one_of algorithms e.hash_chain.algorithm)
            (bad_algorithm e.hash_chain.algorithm)
            (check (not e.pii_scrub.enabled || one_of redaction_modes e.pii_scrub.redaction_mode)
              (bad_redaction_mode e.pii_scrub.redaction_mode) none))))

  unfoldable pub validate_egress : {V : Type 0} → EgressConfig V → Option Invalid
  unfolding check_egress
  validate_egress e = if not e.enabled then none else check_egress e

  unfoldable pub validate : (fl : Floats) {V : Type 0} → Config fl V → Option Invalid
  unfolding validate_egress check_upstreams is_empty to_lower ◌=ₜ◌
  validate fl cfg = check (one_of modes cfg.security.mode) (bad_mode cfg.security.mode) (
      check (one_of levels (to_lower cfg.logging.level)) (bad_level cfg.logging.level) (
        check (one_of formats (to_lower cfg.logging.format)) (bad_format cfg.logging.format) (
          check (not (fl.at_least fl.zero_f cfg.telemetry.epsilon)) bad_epsilon (
            check (positive cfg.telemetry.batch_interval)
              (bad_batch_interval cfg.telemetry.batch_interval)
              (check (positive cfg.storage.retention_days)
                (bad_retention cfg.storage.retention_days)
                (check (not (is_empty (trim_space cfg.server.monitor_addr))) no_monitor_addr
                  (check_upstreams [] cfg.upstreams (validate_egress cfg.egress))))))))
