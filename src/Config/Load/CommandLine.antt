-- ===== src/Config/Load/CommandLine.antt =====
-- What one override of the command line makes of a configuration.
use mathlib.Core.Path.{subst}
use shield_agent.Prelude.{
  ◌≡◌, refl, sym, inl, inr, Bool, true, false, Option, none, some, List, [], ◌∷◌, Text, codes, ◌=ₜ◌,
  =ₜ_iff, arith, if◌then◌else◌, Bool-cases,
}
use shield_agent.Prelude.Result.{Result, ok, err}
use shield_agent.Reputation.{Floats}
use shield_agent.Config.{Config, MiddlewareEntry}
use shield_agent.Config.Load.{Parsers, LoadError, or_old, set_enabled, apply_override}

-- The last value of a key
abbrev pub value_of : Text → List (Text × Text) → Option Text
value_of key [] = none
value_of key ((k, v) ∷ overrides) = elim (value_of key overrides) [
  | some later ↦ some later
  | none ↦ if k =ₜ key then some v else none
]

-- The last value of a key that reads as a flag
abbrev pub flag_of : (Text → Option Bool) → Text → List (Text × Text) → Option Bool
flag_of read key [] = none
flag_of read key ((k, v) ∷ overrides) = elim (flag_of read key overrides) [
  | some later ↦ some later
  | none ↦ if k =ₜ key then read v else none
]

-- The switches of middlewares, one after the other
abbrev pub switched :
    {V : Type 0} → List (Text × Text) → List (MiddlewareEntry V) → List (MiddlewareEntry V)
switched [] es = es
switched ((k, v) ∷ overrides) es = switched overrides (
    if k =ₜ codes "disable-middleware"
    then set_enabled v false es
    else if k =ₜ codes "enable-middleware"
    then set_enabled v true es
    else es)

module _ (fl : Floats) (V : Type 0) (p : Parsers fl.Float) where
  -- What the command line makes of a configuration
  pub record Overridden (overrides : List (Text × Text)) (cfg cfg' : Config fl V) : Type 0 where
    pub monitor_addr :
        cfg'.server.monitor_addr
        ≡ or_old (value_of (codes "monitor-addr") overrides) cfg.server.monitor_addr
    pub tls_cert : cfg'.server.tls_cert ≡ cfg.server.tls_cert
    pub tls_key : cfg'.server.tls_key ≡ cfg.server.tls_key
    pub origins : cfg'.server.cors_allowed_origins ≡ cfg.server.cors_allowed_origins
    pub security : cfg'.security ≡ cfg.security
    pub level :
        cfg'.logging.level ≡ or_old (value_of (codes "log-level") overrides) cfg.logging.level
    pub format : cfg'.logging.format ≡ cfg.logging.format
    pub enabled :
        cfg'.telemetry.enabled
        ≡ or_old (flag_of p.bool_of (codes "telemetry") overrides) cfg.telemetry.enabled
    pub endpoint : cfg'.telemetry.endpoint ≡ cfg.telemetry.endpoint
    pub batch_interval : cfg'.telemetry.batch_interval ≡ cfg.telemetry.batch_interval
    pub epsilon : cfg'.telemetry.epsilon ≡ cfg.telemetry.epsilon
    pub storage : cfg'.storage ≡ cfg.storage
    pub reputation : cfg'.reputation ≡ cfg.reputation
    pub middlewares : cfg'.middlewares ≡ switched overrides cfg.middlewares
    pub upstreams : cfg'.upstreams ≡ cfg.upstreams
    pub egress : cfg'.egress ≡ cfg.egress

  -- What overrides gives, where it is no error
  abbrev pub Gives : List (Text × Text) → Config fl V → Result LoadError (Config fl V) → Type 0
  Gives overrides cfg (err e) = Unit {0}
  Gives overrides cfg (ok cfg') = Overridden overrides cfg cfg'

  pub the_config :
      (cfg cfg' : Config fl V)
      → ◌≡◌ {A = Result LoadError (Config fl V)} (ok cfg) (ok cfg')
      → cfg ≡ cfg'
  the_config cfg cfg' h = ground arith

  override_monitor_addr :
      (v : Text) (cfg : Config fl V)
      → Gives
          ((codes "monitor-addr", v) ∷ [])
          cfg
          (apply_override fl V p (codes "monitor-addr") v cfg)
  unfolding apply_override ◌=ₜ◌
  override_monitor_addr v cfg = record {
    monitor_addr = refl;
    tls_cert = refl;
    tls_key = refl;
    origins = refl;
    security = refl;
    level = refl;
    format = refl;
    enabled = refl;
    endpoint = refl;
    batch_interval = refl;
    epsilon = refl;
    storage = refl;
    reputation = refl;
    middlewares = refl;
    upstreams = refl;
    egress = refl;
  }

  override_log_level :
      (v : Text) (cfg : Config fl V)
      → Gives ((codes "log-level", v) ∷ []) cfg (apply_override fl V p (codes "log-level") v cfg)
  unfolding apply_override ◌=ₜ◌
  override_log_level v cfg = record {
    monitor_addr = refl;
    tls_cert = refl;
    tls_key = refl;
    origins = refl;
    security = refl;
    level = refl;
    format = refl;
    enabled = refl;
    endpoint = refl;
    batch_interval = refl;
    epsilon = refl;
    storage = refl;
    reputation = refl;
    middlewares = refl;
    upstreams = refl;
    egress = refl;
  }

  override_telemetry :
      (v : Text) (cfg : Config fl V)
      → Gives ((codes "telemetry", v) ∷ []) cfg (apply_override fl V p (codes "telemetry") v cfg)
  unfolding apply_override ◌=ₜ◌
  override_telemetry v cfg = record {
    monitor_addr = refl;
    tls_cert = refl;
    tls_key = refl;
    origins = refl;
    security = refl;
    level = refl;
    format = refl;
    enabled = refl;
    endpoint = refl;
    batch_interval = refl;
    epsilon = refl;
    storage = refl;
    reputation = refl;
    middlewares = refl;
    upstreams = refl;
    egress = refl;
  }

  override_disable_middleware :
      (v : Text) (cfg : Config fl V)
      → Gives
          ((codes "disable-middleware", v) ∷ [])
          cfg
          (apply_override fl V p (codes "disable-middleware") v cfg)
  unfolding apply_override ◌=ₜ◌
  override_disable_middleware v cfg = record {
    monitor_addr = refl;
    tls_cert = refl;
    tls_key = refl;
    origins = refl;
    security = refl;
    level = refl;
    format = refl;
    enabled = refl;
    endpoint = refl;
    batch_interval = refl;
    epsilon = refl;
    storage = refl;
    reputation = refl;
    middlewares = refl;
    upstreams = refl;
    egress = refl;
  }

  override_enable_middleware :
      (v : Text) (cfg : Config fl V)
      → Gives
          ((codes "enable-middleware", v) ∷ [])
          cfg
          (apply_override fl V p (codes "enable-middleware") v cfg)
  unfolding apply_override ◌=ₜ◌
  override_enable_middleware v cfg = record {
    monitor_addr = refl;
    tls_cert = refl;
    tls_key = refl;
    origins = refl;
    security = refl;
    level = refl;
    format = refl;
    enabled = refl;
    endpoint = refl;
    batch_interval = refl;
    epsilon = refl;
    storage = refl;
    reputation = refl;
    middlewares = refl;
    upstreams = refl;
    egress = refl;
  }

  -- A key that the source reads
  at_key :
      (key k v : Text) (cfg : Config fl V)
      → k =ₜ key ≡ true
      → Gives ((key, v) ∷ []) cfg (apply_override fl V p key v cfg)
      → Gives ((k, v) ∷ []) cfg (apply_override fl V p k v cfg)
  at_key key k v cfg same =
      subst (λ (x : Text). Gives ((x, v) ∷ []) cfg (apply_override fl V p x v cfg))
        (sym ((=ₜ_iff k key).0 same))

  pub apply_override-Gives :
      (k v : Text) (cfg : Config fl V) → Gives ((k, v) ∷ []) cfg (apply_override fl V p k v cfg)
  unfolding apply_override
  apply_override-Gives k v cfg = elim (Bool-cases (k =ₜ codes "monitor-addr")) [
    | inl here ↦ at_key (codes "monitor-addr") k v cfg here (override_monitor_addr v cfg)
    | inr h1 ↦ elim (Bool-cases (k =ₜ codes "log-level")) [
      | inl here ↦ at_key (codes "log-level") k v cfg here (override_log_level v cfg)
      | inr h2 ↦ elim (Bool-cases (k =ₜ codes "telemetry")) [
        | inl here ↦ at_key (codes "telemetry") k v cfg here (override_telemetry v cfg)
        | inr h3 ↦ elim (Bool-cases (k =ₜ codes "disable-middleware")) [
          | inl here ↦
              at_key (codes "disable-middleware") k v cfg here (override_disable_middleware v cfg)
          | inr h4 ↦ elim (Bool-cases (k =ₜ codes "enable-middleware")) [
            | inl here ↦
                at_key (codes "enable-middleware") k v cfg here (override_enable_middleware v cfg)
            | inr h5 ↦ rw (h1, h2, h3, h4, h5) tt
          ]
        ]
      ]
    ]
  ]
