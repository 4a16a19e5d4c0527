-- ===== src/Config/Validate/Valid.antt =====
-- Which configurations are valid.
use mathlib.Core.List.{Memᴰ}
use shield_agent.Prelude.{
  ◌<◌, ◌≡◌, ◌≢◌, refl, sym, ◌∙◌, ◌↔◌, ◌⊎◌, inl, inr, ◌||◌, Bool, true, false, not, Option, none,
  List, [], ◌∷◌, Text, ◌=ₜ◌, =ₜ_iff, is_empty, is_empty_iff, to_lower, All, arith, Bool-cases,
}
use shield_agent.Prelude.Int.{ℤ, pos, negsuc, positive, pos_part}
use shield_agent.Reputation.{Floats}
use shield_agent.Config.{Config, UpstreamConfig, EgressConfig}
use shield_agent.Config.Validate.{
  Invalid, bad_mode, bad_level, bad_format, bad_epsilon, bad_batch_interval, bad_retention,
  no_monitor_addr, bad_listen, bad_policy_mode, bad_egress_retention, bad_algorithm,
  bad_redaction_mode, check, one_of, modes, levels, formats, transports, protocols, policy_modes,
  algorithms, redaction_modes, not_negative, check_upstreams, check_egress, validate_egress,
  validate,
}

check_iff :
    (p : Bool) (e : Invalid) (rest : Option Invalid) {P R : Type 0}
    → (p ≡ true) ↔ P
    → (rest ≡ none) ↔ R
    → (check p e rest ≡ none) ↔ (P × R)
check_iff true e rest f g = (λ h. (f.0 refl, g.0 h), λ h. g.1 h.1)
check_iff false e rest f g = (λ h. absurd (ground arith), λ h. let t = f.1 h.0 in cc)

one_of_sound : (names : List Text) (t : Text) → one_of names t ≡ true → Memᴰ t names
one_of_sound [] t h = absurd (ground arith)
one_of_sound (n ∷ names) t h = elim (Bool-cases (t =ₜ n)) [
  | inl e ↦ Memᴰ.head ((=ₜ_iff t n).0 e)
  | inr e ↦ Memᴰ.tail (one_of_sound names t (rw e at h))
]

one_of_complete : (names : List Text) (t : Text) → Memᴰ t names → one_of names t ≡ true
one_of_complete [] t m = elim m [ ]
one_of_complete (n ∷ names) t (Memᴰ.head e) = ground (arith, (=ₜ_iff t n).1 e)
one_of_complete (n ∷ names) t (Memᴰ.tail m) = ground (arith, one_of_complete names t m)

one_of_iff : (names : List Text) (t : Text) → (one_of names t ≡ true) ↔ Memᴰ t names
one_of_iff names t = (one_of_sound names t, one_of_complete names t)

not-one_of_iff : (names : List Text) (t : Text) → (not (one_of names t) ≡ true) ↔ (Memᴰ t names → ⊥)
not-one_of_iff names t = (
  λ h m. let e = one_of_complete names t m in absurd (ground arith),
  λ f. elim (Bool-cases (one_of names t)) [
    | inl e ↦ absurd (f (one_of_sound names t e))
    | inr e ↦ rw e refl
  ],
)

not_empty_iff : (t : Text) → (not (is_empty t) ≡ true) ↔ (t ≢ [])
not_empty_iff t = ground (arith, is_empty_iff t)

positive_iff : (z : ℤ) → (positive z ≡ true) ↔ (0 < pos_part z)
positive_iff (pos n) = ground arith
positive_iff (negsuc n) = ground arith

not_iff : (b : Bool) → (not b ≡ true) ↔ (b ≡ false)
not_iff b = ground arith

same : (P : Type 0) → P ↔ P
same P = (λ p. p, λ p. p)

off_or_iff :
    (on : Bool) (names : List Text) (t : Text)
    → ((not on || one_of names t) ≡ true) ↔ ((on ≡ false) ⊎ Memᴰ t names)
off_or_iff false names t = (λ _. inl refl, λ _. refl)
off_or_iff true names t = (
  λ h. inr (one_of_sound names t h),
  λ h. elim h [ inl e ↦ cc | inr m ↦ one_of_complete names t m ],
)

-- Every upstream has a name, an address and a known transport and protocol, if one is given.
abbrev pub IsComplete : UpstreamConfig → Type 0
IsComplete u =
    (u.name ≢ []) × (u.url ≢ []) × Memᴰ u.transport transports × Memᴰ u.protocol protocols

-- No name is one of those given, or that of an upstream before it.
abbrev pub Fresh : List Text → List UpstreamConfig → Type 0
Fresh names [] = Unit
Fresh names (u ∷ us) = (Memᴰ u.name names → ⊥) × Fresh (u.name ∷ names) us

check_upstreams_iff :
    (names : List Text) (us : List UpstreamConfig) (rest : Option Invalid)
    → (check_upstreams names us rest ≡ none) ↔ (All IsComplete us × Fresh names us × (rest ≡ none))
unfolding check_upstreams
check_upstreams_iff names [] rest = (λ h. (tt, tt, h), λ h. h.2)
check_upstreams_iff names (u ∷ us) rest =
    let parts = check_iff (not (is_empty u.name)) _ _ (not_empty_iff u.name) (
      check_iff (not (is_empty u.url)) _ _ (not_empty_iff u.url) (
        check_iff (not (one_of names u.name)) _ _ (not-one_of_iff names u.name) (
          check_iff (one_of transports u.transport) _ _ (one_of_iff transports u.transport) (
            check_iff (one_of protocols u.protocol) _ _ (one_of_iff protocols u.protocol)
              (check_upstreams_iff (u.name ∷ names) us rest))))) in
    (
      λ h.
          let (name, (url, (fresh, (transport, (protocol, later))))) = parts.0 h in
          (((name, url, transport, protocol), later.0), (fresh, later.1), later.2),
      λ h. parts.1 (h.0.0.0, (h.0.0.1, (h.1.0, (h.0.0.2, (h.0.0.3, (h.0.1, h.1.1, h.2)))))),
    )

module _ (trim_space : Text → Text) where
  pub record IsValidEgress {V : Type 0} (e : EgressConfig V) : Type 0 where
    pub listen : trim_space e.listen ≢ []
    pub policy_mode : Memᴰ e.policy_mode policy_modes
    pub retention : not_negative e.retention_days ≡ true
    pub algorithm : (e.hash_chain.enabled ≡ false) ⊎ Memᴰ e.hash_chain.algorithm algorithms
    pub redaction : (e.pii_scrub.enabled ≡ false) ⊎ Memᴰ e.pii_scrub.redaction_mode redaction_modes

  pub record IsValid (fl : Floats) {V : Type 0} (cfg : Config fl V) : Type 0 where
    pub mode : Memᴰ cfg.security.mode modes
    pub level : Memᴰ (to_lower cfg.logging.level) levels
    pub format : Memᴰ (to_lower cfg.logging.format) formats
    pub epsilon : fl.at_least fl.zero_f cfg.telemetry.epsilon ≡ false
    pub interval : 0 < pos_part cfg.telemetry.batch_interval
    pub retention : 0 < pos_part cfg.storage.retention_days
    pub address : trim_space cfg.server.monitor_addr ≢ []
    pub complete : All IsComplete cfg.upstreams
    pub distinct : Fresh [] cfg.upstreams
    pub egress : (cfg.egress.enabled ≡ false) ⊎ IsValidEgress cfg.egress

  check_egress_iff :
      {V : Type 0} (e : EgressConfig V) → (check_egress trim_space e ≡ none) ↔ IsValidEgress e
  unfolding check_egress
  check_egress_iff e =
      let parts =
        check_iff (not (is_empty (trim_space e.listen))) (bad_listen e.listen) _
          (not_empty_iff (trim_space e.listen))
          (check_iff (one_of policy_modes e.policy_mode) (bad_policy_mode e.policy_mode) _
            (one_of_iff policy_modes e.policy_mode)
            (check_iff (not_negative e.retention_days) (bad_egress_retention e.retention_days) _
              (same (not_negative e.retention_days ≡ true))
              (check_iff (not e.hash_chain.enabled || one_of algorithms e.hash_chain.algorithm)
                (bad_algorithm e.hash_chain.algorithm) _
                (off_or_iff e.hash_chain.enabled algorithms e.hash_chain.algorithm)
                (check_iff
                  (not e.pii_scrub.enabled || one_of redaction_modes e.pii_scrub.redaction_mode)
                  (bad_redaction_mode e.pii_scrub.redaction_mode) none
                  (off_or_iff e.pii_scrub.enabled redaction_modes e.pii_scrub.redaction_mode)
                  (same (◌≡◌ {A = Option Invalid} none none)))))) in
      (
        λ h.
            let (listen, (mode, (retention, (algorithm, (redaction, _))))) = parts.0 h in
            record {
              listen = listen;
              policy_mode = mode;
              retention = retention;
              algorithm = algorithm;
              redaction = redaction;
            },
        λ v. parts.1 (v.listen, (v.policy_mode, (v.retention, (v.algorithm, (v.redaction, refl))))),
      )

  validate_egress_on :
      {V : Type 0} (e : EgressConfig V)
      → e.enabled ≡ true
      → validate_egress trim_space e ≡ check_egress trim_space e
  unfolding validate_egress
  validate_egress_on e on = ground arith

  validate_egress_iff :
      {V : Type 0} (e : EgressConfig V)
      → (validate_egress trim_space e ≡ none) ↔ ((e.enabled ≡ false) ⊎ IsValidEgress e)
  unfolding validate_egress
  validate_egress_iff e = elim (Bool-cases e.enabled) [
    | inr off ↦ (λ _. inl off, λ _. ground arith)
    | inl on ↦ (
      λ h. inr ((check_egress_iff e).0 (sym (validate_egress_on e on) ∙ h)),
      λ v. elim v [
        | inl off ↦ absurd (ground arith)
        | inr valid ↦ validate_egress_on e on ∙ (check_egress_iff e).1 valid
      ],
    )
  ]

  -- A configuration passes the validation exactly if it is valid.
  pub validate_iff :
      (fl : Floats) {V : Type 0} (cfg : Config fl V)
      → (validate trim_space fl cfg ≡ none) ↔ IsValid fl cfg
  unfolding validate
  validate_iff fl cfg =
      let parts =
        check_iff (one_of modes cfg.security.mode) (bad_mode cfg.security.mode) _
          (one_of_iff modes cfg.security.mode)
          (check_iff (one_of levels (to_lower cfg.logging.level)) (bad_level cfg.logging.level) _
            (one_of_iff levels (to_lower cfg.logging.level))
            (check_iff (one_of formats (to_lower cfg.logging.format))
              (bad_format cfg.logging.format) _ (one_of_iff formats (to_lower cfg.logging.format))
              (check_iff (not (fl.at_least fl.zero_f cfg.telemetry.epsilon)) bad_epsilon _
                (not_iff (fl.at_least fl.zero_f cfg.telemetry.epsilon))
                (check_iff (positive cfg.telemetry.batch_interval)
                  (bad_batch_interval cfg.telemetry.batch_interval) _
                  (positive_iff cfg.telemetry.batch_interval)
                  (check_iff (positive cfg.storage.retention_days)
                    (bad_retention cfg.storage.retention_days) _
                    (positive_iff cfg.storage.retention_days)
                    (check_iff (not (is_empty (trim_space cfg.server.monitor_addr))) no_monitor_addr
                      _ (not_empty_iff (trim_space cfg.server.monitor_addr))
                      (check_upstreams_iff [] cfg.upstreams
                        (validate_egress trim_space cfg.egress)))))))) in
      (
        λ h.
            let (mode, (level, (format, (epsilon, (interval, (retention, (address, later))))))) =
              parts.0 h in
            record {
              mode = mode;
              level = level;
              format = format;
              epsilon = epsilon;
              interval = interval;
              retention = retention;
              address = address;
              complete = later.0;
              distinct = later.1;
              egress = (validate_egress_iff cfg.egress).0 later.2;
            },
        λ v. parts.1 (
          v.mode,
          (
            v.level,
            (
              v.format,
              (
                v.epsilon,
                (
                  v.interval,
                  (
                    v.retention,
                    (
                      v.address,
                      (v.complete, v.distinct, (validate_egress_iff cfg.egress).1 v.egress),
                    ),
                  ),
                ),
              ),
            ),
          ),
        ),
      )
