-- ===== src/Config/Load.antt =====
-- `Load`, `applyEnv`, `applyCLI`, `SetMiddlewareEnabled` and `ApplyDBOverrides` of
-- internal/config/config.go. The environment gives the empty text for what is not set; `Parsers` is
-- package strconv, `none` where it fails; the range over a map of overrides is a list of its entries.
pub mod CommandLine
pub mod Priority
pub mod Overrides
use shield_agent.Prelude.{
  Bool, true, false, Option, none, some, List, [], ◌∷◌, ◌++◌, Text, codes, ◌=ₜ◌, is_empty,
  has_prefix, if◌then◌else◌,
}
use shield_agent.Prelude.Int.{ℤ}
use shield_agent.Prelude.Map.{empty}
use shield_agent.Prelude.Result.{Result, ok, err, ◌>>=◌}
use shield_agent.Reputation.{Floats}
use shield_agent.Proxy.Router.{trim_prefix}
use shield_agent.Config.{
  MiddlewareEntry, ServerConfig, SecurityConfig, LoggingConfig, StorageConfig, TelemetryConfig,
  ReputationConfig, Config, defaults,
}
use shield_agent.Config.Validate.{Invalid, validate}

pub record Parsers (F : Type 0) : Type 0 where
  pub bool_of : Text → Option Bool
  pub int_of : Text → Option ℤ
  pub float_of : Text → Option F

-- What a variable of the environment makes of a field
unfoldable pub given : Text → Text → Text
unfolding is_empty
given v old = if is_empty v then old else v

abbrev pub or_old : {A : Type 0} → Option A → A → A
or_old none old = old
or_old (some a) _ = a

-- A variable that is set and can be parsed
unfoldable pub parsed : {A : Type 0} → (Text → Option A) → Text → A → A
unfolding is_empty
parsed parse v old = if is_empty v then old else or_old (parse v) old

abbrev pub key_prefix : Text
key_prefix = codes "middleware_enabled_"

module _ {V : Type 0} where
  -- The first entry of that name is set, or a new one is appended.
  unfoldable pub set_enabled : Text → Bool → List (MiddlewareEntry V) → List (MiddlewareEntry V)
  unfolding ◌=ₜ◌
  set_enabled name on [] = record { name = name; enabled = some on; options = empty } ∷ []
  set_enabled name on (e ∷ es) =
      let rest = set_enabled name on es in
      if e.name =ₜ name then record e { enabled = some on } ∷ es else e ∷ rest

  -- `ApplyDBOverrides`
  unfoldable pub apply_db_overrides :
      List (MiddlewareEntry V) → List (Text × Text) → List (MiddlewareEntry V)
  unfolding set_enabled has_prefix ◌=ₜ◌
  apply_db_overrides es [] = es
  apply_db_overrides es ((k, v) ∷ overrides) =
      apply_db_overrides
        (if has_prefix k key_prefix
          then set_enabled (trim_prefix k key_prefix) (v =ₜ codes "true") es
          else es)
        overrides

pub data LoadError : Type 0 where
  loading_file : LoadError
  unknown_key : Text → LoadError
  invalid : Invalid → LoadError

-- The file: absent, or what opening and decoding it over a configuration gives.
pub data ConfigFile (C : Type 0) : Type 0 where
  no_path missing unreadable : ConfigFile C
  decoding : (C → Option C) → ConfigFile C

module _ (fl : Floats) (p : Parsers fl.Float) where
  abbrev pub parse_bool : Text → Bool → Bool
  parse_bool s fallback = or_old (p.bool_of s) fallback

  abbrev pub env_server : (Text → Text) → ServerConfig → ServerConfig
  unfolding given
  env_server env c = record c {
    monitor_addr = given (env (codes "SHIELD_AGENT_MONITOR_ADDR")) c.monitor_addr;
    tls_cert = given (env (codes "SHIELD_AGENT_TLS_CERT")) c.tls_cert;
    tls_key = given (env (codes "SHIELD_AGENT_TLS_KEY")) c.tls_key;
  }

  abbrev pub env_security : (Text → Text) → SecurityConfig → SecurityConfig
  unfolding given
  env_security env c = record c {
    mode = given (env (codes "SHIELD_AGENT_SECURITY_MODE")) c.mode;
    key_store_path = given (env (codes "SHIELD_AGENT_KEY_STORE_PATH")) c.key_store_path;
  }

  abbrev pub env_logging : (Text → Text) → LoggingConfig → LoggingConfig
  unfolding given
  env_logging env c = record {
    level = given (env (codes "SHIELD_AGENT_LOG_LEVEL")) c.level;
    format = given (env (codes "SHIELD_AGENT_LOG_FORMAT")) c.format;
  }

  abbrev pub env_telemetry : (Text → Text) → TelemetryConfig fl → TelemetryConfig fl
  unfolding given parsed
  env_telemetry env c = record {
    enabled = parsed p.bool_of (env (codes "SHIELD_AGENT_TELEMETRY_ENABLED")) c.enabled;
    endpoint = given (env (codes "SHIELD_AGENT_TELEMETRY_ENDPOINT")) c.endpoint;
    batch_interval =
        parsed p.int_of (env (codes "SHIELD_AGENT_TELEMETRY_BATCH_INTERVAL")) c.batch_interval;
    epsilon = parsed p.float_of (env (codes "SHIELD_AGENT_TELEMETRY_EPSILON")) c.epsilon;
  }

  abbrev pub env_storage : (Text → Text) → StorageConfig → StorageConfig
  unfolding given parsed
  env_storage env c = record {
    db_path = given (env (codes "SHIELD_AGENT_DB_PATH")) c.db_path;
    retention_days = parsed p.int_of (env (codes "SHIELD_AGENT_RETENTION_DAYS")) c.retention_days;
  }

  abbrev pub env_reputation : (Text → Text) → ReputationConfig fl → ReputationConfig fl
  unfolding parsed
  env_reputation env c = record c {
    enabled = parsed p.bool_of (env (codes "SHIELD_AGENT_REPUTATION_ENABLED")) c.enabled;
    recalc_interval =
        parsed p.int_of (env (codes "SHIELD_AGENT_REPUTATION_RECALC_INTERVAL")) c.recalc_interval;
    window_hours =
        parsed p.int_of (env (codes "SHIELD_AGENT_REPUTATION_WINDOW_HOURS")) c.window_hours;
    cache_ttl = parsed p.int_of (env (codes "SHIELD_AGENT_REPUTATION_CACHE_TTL")) c.cache_ttl;
  }

module _ (fl : Floats) (V : Type 0) (p : Parsers fl.Float) where
  abbrev pub Cfg : Type 0
  Cfg = Config fl V

  unfoldable pub apply_env : (Text → Text) → Cfg → Cfg
  unfolding given parsed
  apply_env env cfg = record cfg {
    server = env_server fl p env cfg.server;
    security = env_security fl p env cfg.security;
    logging = env_logging fl p env cfg.logging;
    telemetry = env_telemetry fl p env cfg.telemetry;
    storage = env_storage fl p env cfg.storage;
    reputation = env_reputation fl p env cfg.reputation;
  }

  -- One override
  unfoldable pub apply_override : Text → Text → Cfg → Result LoadError Cfg
  unfolding set_enabled ◌=ₜ◌
  apply_override k v cfg =
      if k =ₜ codes "monitor-addr"
      then ok (record cfg { server = record cfg.server { monitor_addr = v } })
      else if k =ₜ codes "log-level"
      then ok (record cfg { logging = record cfg.logging { level = v } })
      else if k =ₜ codes "telemetry"
      then ok (record cfg {
        telemetry = record cfg.telemetry { enabled = parse_bool fl p v cfg.telemetry.enabled };
      })
      else if k =ₜ codes "disable-middleware"
      then ok (record cfg { middlewares = set_enabled v false cfg.middlewares })
      else if k =ₜ codes "enable-middleware"
      then ok (record cfg { middlewares = set_enabled v true cfg.middlewares })
      else err (unknown_key k)

  unfoldable pub apply_cli : Cfg → List (Text × Text) → Result LoadError Cfg
  unfolding apply_override
  apply_cli cfg [] = ok cfg
  apply_cli cfg ((k, v) ∷ overrides) = apply_override k v cfg >>= λ cfg'. apply_cli cfg' overrides

  unfoldable pub load_file : ConfigFile Cfg → Cfg → Result LoadError Cfg
  load_file no_path cfg = ok cfg
  load_file missing cfg = ok cfg
  load_file unreadable cfg = err loading_file
  load_file (decoding decode) cfg = elim (decode cfg) [
    | none ↦ err loading_file
    | some cfg' ↦ ok cfg'
  ]

  abbrev pub validated : Option Invalid → Cfg → Result LoadError Cfg
  validated none cfg = ok cfg
  validated (some e) cfg = err (invalid e)

  -- The configuration, where the error is nil.
  unfoldable pub load :
      (Text → Text) → (Text → Text) → ConfigFile Cfg → List (Text × Text) → Result LoadError Cfg
  unfolding load_file apply_env apply_cli validate
  load trim_space env file overrides = load_file file (defaults fl) >>= λ cfg.
      apply_cli (apply_env env cfg) overrides >>= λ cfg'.
      validated (validate trim_space fl cfg') cfg'
