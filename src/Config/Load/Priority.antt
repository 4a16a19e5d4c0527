-- ===== src/Config/Load/Priority.antt =====
-- Which source of the configuration decides.
use mathlib.Core.Path.{subst}
use shield_agent.Prelude.{
  ◌≡◌, refl, sym, ap, ◌∙◌, inl, inr, Option, none, some, List, [], ◌∷◌, Text, codes, ◌=ₜ◌, arith,
  if◌then◌else◌, Option-cases,
}
use shield_agent.Prelude.Result.{ok, Result-cases}
use shield_agent.Reputation.{Floats}
use shield_agent.Config.{SecurityConfig, StorageConfig, ReputationConfig, Config, defaults}
use shield_agent.Config.Validate.{validate}
use shield_agent.Config.Validate.Valid.{IsValid, validate_iff}
use shield_agent.Config.Load.CommandLine.{
  value_of, flag_of, switched, Overridden, Gives, the_config, apply_override-Gives,
}
use shield_agent.Config.Load.{
  Parsers, ConfigFile, or_old, given, parsed, apply_env, apply_override, apply_cli, load_file, load,
}

module _ (fl : Floats) (V : Type 0) (p : Parsers fl.Float) where
  or_later :
      {A : Type 0} (later earlier : Option A) (old : A)
      → or_old later (or_old earlier old)
        ≡ or_old (elim later [ some a ↦ some a | none ↦ earlier ]) old
  or_later none earlier old = refl
  or_later (some a) earlier old = refl

  -- One override, and then the others
  cons-Overridden :
      (k v : Text) (overrides : List (Text × Text)) (cfg next cfg' : Config fl V)
      → Overridden fl V p ((k, v) ∷ []) cfg next
      → Overridden fl V p overrides next cfg'
      → Overridden fl V p ((k, v) ∷ overrides) cfg cfg'
  cons-Overridden k v overrides cfg next cfg' one rest = record {
    monitor_addr =
        rest.monitor_addr
        ∙ ap (or_old (value_of (codes "monitor-addr") overrides)) one.monitor_addr
        ∙ or_later (value_of (codes "monitor-addr") overrides)
            (if k =ₜ codes "monitor-addr" then some v else none) cfg.server.monitor_addr;
    level =
        rest.level
        ∙ ap (or_old (value_of (codes "log-level") overrides)) one.level
        ∙ or_later (value_of (codes "log-level") overrides)
            (if k =ₜ codes "log-level" then some v else none) cfg.logging.level;
    enabled =
        rest.enabled
        ∙ ap (or_old (flag_of p.bool_of (codes "telemetry") overrides)) one.enabled
        ∙ or_later (flag_of p.bool_of (codes "telemetry") overrides)
            (if k =ₜ codes "telemetry" then p.bool_of v else none) cfg.telemetry.enabled;
    middlewares = rest.middlewares ∙ ap (switched overrides) one.middlewares;
    tls_cert = rest.tls_cert ∙ one.tls_cert;
    tls_key = rest.tls_key ∙ one.tls_key;
    origins = rest.origins ∙ one.origins;
    security = rest.security ∙ one.security;
    format = rest.format ∙ one.format;
    endpoint = rest.endpoint ∙ one.endpoint;
    batch_interval = rest.batch_interval ∙ one.batch_interval;
    epsilon = rest.epsilon ∙ one.epsilon;
    storage = rest.storage ∙ one.storage;
    reputation = rest.reputation ∙ one.reputation;
    upstreams = rest.upstreams ∙ one.upstreams;
    egress = rest.egress ∙ one.egress;
  }

  apply_cli-Overridden :
      (cfg cfg' : Config fl V) (overrides : List (Text × Text))
      → apply_cli fl V p cfg overrides ≡ ok cfg'
      → Overridden fl V p overrides cfg cfg'
  unfolding apply_cli
  apply_cli-Overridden cfg cfg' [] h =
      subst (Overridden fl V p [] cfg) (the_config fl V p cfg cfg' h) record {
        monitor_addr = refl;
        tls_cert = refl;
        tls_key = refl;
        origins = refl;
        security = refl;
        level = refl;
        format = refl;
        enabled = refl;
        endpoint = refl;
        batch_interval = refl;
        epsilon = refl;
        storage = refl;
        reputation = refl;
        middlewares = refl;
        upstreams = refl;
        egress = refl;
      }
  apply_cli-Overridden cfg cfg' ((k, v) ∷ overrides) h =
      elim (Result-cases (apply_override fl V p k v cfg)) [
        | inr (e, failed) ↦ absurd (ground arith)
        | inl (next, done) ↦
            cons-Overridden k v overrides cfg next cfg'
              (subst (Gives fl V p ((k, v) ∷ []) cfg) done (apply_override-Gives fl V p k v cfg))
              (apply_cli-Overridden next cfg' overrides (rw done at h))
      ]

  -- Where each setting comes from: the command line where it has a value, then the environment where a
  -- variable is set and can be read, then the file and the defaults, as `read` has them.
  pub record Decided (env : Text → Text) (overrides : List (Text × Text)) (read cfg : Config fl V)
      : Type 0 where
    pub monitor_addr :
        cfg.server.monitor_addr
        ≡ or_old
            (value_of (codes "monitor-addr") overrides)
            (given (env (codes "SHIELD_AGENT_MONITOR_ADDR")) read.server.monitor_addr)
    pub tls_cert :
        cfg.server.tls_cert ≡ given (env (codes "SHIELD_AGENT_TLS_CERT")) read.server.tls_cert
    pub tls_key :
        cfg.server.tls_key ≡ given (env (codes "SHIELD_AGENT_TLS_KEY")) read.server.tls_key
    pub origins : cfg.server.cors_allowed_origins ≡ read.server.cors_allowed_origins
    pub mode :
        cfg.security.mode ≡ given (env (codes "SHIELD_AGENT_SECURITY_MODE")) read.security.mode
    pub key_store_path :
        cfg.security.key_store_path
        ≡ given (env (codes "SHIELD_AGENT_KEY_STORE_PATH")) read.security.key_store_path
    pub did_blocklist : cfg.security.did_blocklist ≡ read.security.did_blocklist
    pub level :
        cfg.logging.level
        ≡ or_old
            (value_of (codes "log-level") overrides)
            (given (env (codes "SHIELD_AGENT_LOG_LEVEL")) read.logging.level)
    pub format :
        cfg.logging.format ≡ given (env (codes "SHIELD_AGENT_LOG_FORMAT")) read.logging.format
    pub telemetry_enabled :
        cfg.telemetry.enabled
        ≡ or_old
            (flag_of p.bool_of (codes "telemetry") overrides)
            (parsed p.bool_of (env (codes "SHIELD_AGENT_TELEMETRY_ENABLED")) read.telemetry.enabled)
    pub endpoint :
        cfg.telemetry.endpoint
        ≡ given (env (codes "SHIELD_AGENT_TELEMETRY_ENDPOINT")) read.telemetry.endpoint
    pub batch_interval :
        cfg.telemetry.batch_interval
        ≡ parsed p.int_of
            (env (codes "SHIELD_AGENT_TELEMETRY_BATCH_INTERVAL"))
            read.telemetry.batch_interval
    pub epsilon :
        cfg.telemetry.epsilon
        ≡ parsed p.float_of (env (codes "SHIELD_AGENT_TELEMETRY_EPSILON")) read.telemetry.epsilon
    pub db_path :
        cfg.storage.db_path ≡ given (env (codes "SHIELD_AGENT_DB_PATH")) read.storage.db_path
    pub retention_days :
        cfg.storage.retention_days
        ≡ parsed p.int_of (env (codes "SHIELD_AGENT_RETENTION_DAYS")) read.storage.retention_days
    pub reputation_enabled :
        cfg.reputation.enabled
        ≡ parsed p.bool_of (env (codes "SHIELD_AGENT_REPUTATION_ENABLED")) read.reputation.enabled
    pub recalc_interval :
        cfg.reputation.recalc_interval
        ≡ parsed p.int_of
            (env (codes "SHIELD_AGENT_REPUTATION_RECALC_INTERVAL"))
            read.reputation.recalc_interval
    pub window_hours :
        cfg.reputation.window_hours
        ≡ parsed p.int_of
            (env (codes "SHIELD_AGENT_REPUTATION_WINDOW_HOURS"))
            read.reputation.window_hours
    pub cache_ttl :
        cfg.reputation.cache_ttl
        ≡ parsed p.int_of
            (env (codes "SHIELD_AGENT_REPUTATION_CACHE_TTL"))
            read.reputation.cache_ttl
    pub weights : cfg.reputation.weights ≡ read.reputation.weights
    pub thresholds : cfg.reputation.thresholds ≡ read.reputation.thresholds
    pub rate_multipliers : cfg.reputation.rate_multipliers ≡ read.reputation.rate_multipliers
    pub api : cfg.reputation.api ≡ read.reputation.api
    pub middlewares : cfg.middlewares ≡ switched overrides read.middlewares
    pub upstreams : cfg.upstreams ≡ read.upstreams
    pub egress : cfg.egress ≡ read.egress

  Overridden-Decided :
      (env : Text → Text) (overrides : List (Text × Text)) (read cfg : Config fl V)
      → Overridden fl V p overrides (apply_env fl V p env read) cfg
      → Decided env overrides read cfg
  unfolding apply_env
  Overridden-Decided env overrides read cfg o = record {
    monitor_addr = o.monitor_addr;
    tls_cert = o.tls_cert;
    tls_key = o.tls_key;
    origins = o.origins;
    mode = ap (λ (s : SecurityConfig). s.mode) o.security;
    key_store_path = ap (λ (s : SecurityConfig). s.key_store_path) o.security;
    did_blocklist = ap (λ (s : SecurityConfig). s.did_blocklist) o.security;
    level = o.level;
    format = o.format;
    telemetry_enabled = o.enabled;
    endpoint = o.endpoint;
    batch_interval = o.batch_interval;
    epsilon = o.epsilon;
    db_path = ap (λ (s : StorageConfig). s.db_path) o.storage;
    retention_days = ap (λ (s : StorageConfig). s.retention_days) o.storage;
    reputation_enabled = ap (λ (s : ReputationConfig fl). s.enabled) o.reputation;
    recalc_interval = ap (λ (s : ReputationConfig fl). s.recalc_interval) o.reputation;
    window_hours = ap (λ (s : ReputationConfig fl). s.window_hours) o.reputation;
    cache_ttl = ap (λ (s : ReputationConfig fl). s.cache_ttl) o.reputation;
    weights = ap (λ (s : ReputationConfig fl). s.weights) o.reputation;
    thresholds = ap (λ (s : ReputationConfig fl). s.thresholds) o.reputation;
    rate_multipliers = ap (λ (s : ReputationConfig fl). s.rate_multipliers) o.reputation;
    api = ap (λ (s : ReputationConfig fl). s.api) o.reputation;
    middlewares = o.middlewares;
    upstreams = o.upstreams;
    egress = o.egress;
  }

  -- In a configuration that is loaded, each setting is the one of the command line where that has a
  -- value for it, else the one of its variable of the environment where this is set and can be read,
  -- else that of the file or the default; the switches of middlewares are applied in order, and the
  -- configuration is valid.
  pub load-Priority :
      (trim_space env : Text → Text) (file : ConfigFile (Config fl V))
      (overrides : List (Text × Text)) (read cfg : Config fl V)
      → load_file fl V p file (defaults fl) ≡ ok read
      → load fl V p trim_space env file overrides ≡ ok cfg
      → Decided env overrides read cfg × IsValid trim_space fl cfg
  unfolding load
  load-Priority trim_space env file overrides read cfg f h =
      elim (Result-cases (apply_cli fl V p (apply_env fl V p env read) overrides)) [
        | inr (e, failed) ↦ absurd (ground arith)
        | inl (next, done) ↦ elim (Option-cases (validate trim_space fl next)) [
          | inr (e, bad) ↦ absurd (ground arith)
          | inl good ↦
              let same : next ≡ cfg = ground arith in
              let o = apply_cli-Overridden (apply_env fl V p env read) next overrides done in
              (
                subst (Decided env overrides read) same
                    (Overridden-Decided env overrides read next o),
                (validate_iff trim_space fl cfg).0 (ap (validate trim_space fl) (sym same) ∙ good),
              )
        ]
      ]
