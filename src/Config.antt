-- ===== src/Config.antt =====
-- The configuration of internal/config/config.go, with internal/reputation/config.go. Floating-point
-- numbers are those of `Floats`; the free-form part of a middleware's entry is of a type `V`.
pub mod Load
pub mod Validate
mod Examples
use shield_agent.Prelude.{
  ℕ, Bool, true, false, Option, none, some, List, [], ◌∷◌, Text, codes, if◌then◌else◌,
}
use shield_agent.Prelude.Int.{ℤ, pos}
use shield_agent.Prelude.Map.{Map, empty, insert}
use shield_agent.Reputation.{Floats, ScoreWeights, Thresholds}

-- `enabled` is a pointer, `none` where it is nil; `options` is the field `Config`.
pub record MiddlewareEntry (V : Type 0) : Type 0 where
  pub name : Text
  pub enabled : Option Bool
  pub options : Map V

pub record UpstreamMatch : Type 0 where
  pub host : Text
  pub path_prefix : Text
  pub strip_prefix : Bool

pub record UpstreamConfig : Type 0 where
  pub name : Text
  pub url : Text
  pub rule : UpstreamMatch
  pub transport : Text
  pub protocol : Text
  pub tls_skip_verify : Bool
  pub tls_client_cert : Text
  pub tls_client_key : Text

pub record HashChainConfig : Type 0 where
  pub enabled : Bool
  pub algorithm : Text
  pub digest_path : Text
  pub digest_interval_hours : ℤ

pub record PiiScrubConfig : Type 0 where
  pub enabled : Bool
  pub custom_patterns : List Text
  pub redaction_mode : Text

pub record ContentTaggingConfig : Type 0 where
  pub enabled : Bool
  pub inject_header : Bool

pub record EgressConfig (V : Type 0) : Type 0 where
  pub enabled : Bool
  pub listen : Text
  pub upstream_allow : List Text
  pub policy_mode : Text
  pub retention_days : ℤ
  pub hash_chain : HashChainConfig
  pub mitm_hosts : List Text
  pub tls_passthrough_hosts : List Text
  pub ca_cert : Text
  pub ca_key : Text
  pub ca_auto_generate : Bool
  pub ca_validity_days : ℤ
  pub leaf_cache_ttl_min : ℤ
  pub pii_scrub : PiiScrubConfig
  pub content_tagging : ContentTaggingConfig
  pub log_full_body : Bool
  pub middlewares : List (MiddlewareEntry V)

pub record ServerConfig : Type 0 where
  pub monitor_addr : Text
  pub tls_cert : Text
  pub tls_key : Text
  pub cors_allowed_origins : List Text

pub record SecurityConfig : Type 0 where
  pub mode : Text
  pub key_store_path : Text
  pub did_blocklist : List Text

pub record LoggingConfig : Type 0 where
  pub level : Text
  pub format : Text

pub record StorageConfig : Type 0 where
  pub db_path : Text
  pub retention_days : ℤ

-- An entry that is on
abbrev pub entry_on : {V : Type 0} → Text → MiddlewareEntry V
entry_on name = record { name = name; enabled = some true; options = empty }

module _ (fl : Floats) where
  pub record TelemetryConfig : Type 0 where
    pub enabled : Bool
    pub endpoint : Text
    pub batch_interval : ℤ
    pub epsilon : fl.Float

  pub record ApiConfig : Type 0 where
    pub enabled : Bool
    pub peers : List Text
    pub remote_weight : fl.Float
    pub epsilon : fl.Float

  pub record ReputationConfig : Type 0 where
    pub enabled : Bool
    pub recalc_interval : ℤ
    pub window_hours : ℤ
    pub weights : ScoreWeights fl
    pub thresholds : Thresholds fl
    pub rate_multipliers : Map fl.Float
    pub cache_ttl : ℤ
    pub api : ApiConfig

  pub record Config (V : Type 0) : Type 0 where
    pub server : ServerConfig
    pub security : SecurityConfig
    pub logging : LoggingConfig
    pub telemetry : TelemetryConfig
    pub storage : StorageConfig
    pub reputation : ReputationConfig
    pub middlewares : List (MiddlewareEntry V)
    pub upstreams : List UpstreamConfig
    pub egress : EgressConfig V

  -- A literal with two decimals, which is the quotient rounded
  abbrev pub hundredths : ℕ → fl.Float
  hundredths n = fl.div (fl.of_nat n) (fl.of_nat 100)

  abbrev pub default_multipliers : Map fl.Float
  default_multipliers = insert (codes "trusted") (hundredths 200) (
      insert (codes "normal") (hundredths 100) (
        insert (codes "suspicious") (hundredths 25)
          (insert (codes "blocked") (hundredths 0) empty)))

  abbrev pub default_reputation : ReputationConfig
  default_reputation = record {
    enabled = false;
    recalc_interval = pos 300;
    window_hours = pos 24;
    weights = record {
      success_rate = hundredths 35;
      error_penalty = hundredths 25;
      latency = hundredths 10;
      volume = hundredths 10;
      auth_failure = hundredths 15;
      rate_limit = hundredths 5;
    };
    thresholds = record {
      trusted_from = hundredths 80;
      normal_from = hundredths 40;
      suspicious_from = hundredths 10;
    };
    rate_multipliers = default_multipliers;
    cache_ttl = pos 60;
    api = record {
      enabled = false;
      peers = [];
      remote_weight = hundredths 30;
      epsilon = hundredths 100;
    };
  }

  abbrev pub default_egress : {V : Type 0} → EgressConfig V
  default_egress = record {
    enabled = false;
    listen = codes "127.0.0.1:8889";
    upstream_allow = [];
    policy_mode = codes "warn";
    retention_days = pos 0;
    hash_chain = record {
      enabled = true;
      algorithm = codes "sha256";
      digest_path = [];
      digest_interval_hours = pos 0;
    };
    mitm_hosts = [];
    tls_passthrough_hosts = [];
    ca_cert = [];
    ca_key = [];
    ca_auto_generate = false;
    ca_validity_days = pos 3650;
    leaf_cache_ttl_min = pos 60;
    pii_scrub = record { enabled = true; custom_patterns = []; redaction_mode = codes "mask" };
    content_tagging = record { enabled = true; inject_header = false };
    log_full_body = false;
    middlewares = entry_on (codes "policy") ∷ entry_on (codes "egress_log") ∷ [];
  }

  abbrev pub defaults : {V : Type 0} → Config V
  defaults = record {
    server = record {
      monitor_addr = codes "127.0.0.1:9090";
      tls_cert = [];
      tls_key = [];
      cors_allowed_origins = codes "*" ∷ [];
    };
    security = record {
      mode = codes "open";
      key_store_path = codes "keys.yaml";
      did_blocklist = [];
    };
    logging = record { level = codes "info"; format = codes "json" };
    telemetry = record {
      enabled = false;
      endpoint = codes "http://localhost:8080";
      batch_interval = pos 60;
      epsilon = hundredths 100;
    };
    storage = record { db_path = codes "shield-agent.db"; retention_days = pos 30 };
    reputation = default_reputation;
    middlewares = entry_on (codes "auth") ∷ entry_on (codes "guard") ∷ entry_on (codes "log") ∷ [];
    upstreams = [];
    egress = default_egress;
  }
