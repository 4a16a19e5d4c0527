-- ===== src/Egress/Provider/Rules.antt =====
-- Which hosts belong to a provider.
use mathlib.Core.List.{Memᴰ}
use mathlib.Core.Path.{subst}
use shield_agent.Prelude.{
  ◌≡◌, refl, ◌⊎◌, inl, inr, true, false, List, [], ◌∷◌, Text, codes, ◌=ₜ◌, =ₜ_iff, has_prefix,
  to_lower, arith, Bool-cases,
}
use shield_agent.Egress.Domain.{dot, EndsIn, Below, has_suffix_iff}
use shield_agent.Egress.Provider.{
  HostRule, provider_unknown, host_rules, trim_dot, matches_rule, detect_by, detect,
}

-- The host is the rule's domain or is below it; for a rule with a dot, the host ends in it.
abbrev pub Belongs : Text → Text → Type 0
Belongs host suffix =
    ((has_prefix suffix (codes ".") ≡ true) × EndsIn suffix host)
    ⊎ ((has_prefix suffix (codes ".") ≡ false) × ((host ≡ suffix) ⊎ Below suffix host))

matches_rule-Belongs : (host suffix : Text) → matches_rule host suffix ≡ true → Belongs host suffix
unfolding matches_rule
matches_rule-Belongs host suffix h = elim (Bool-cases (has_prefix suffix (codes "."))) [
  | inl dotted ↦ inl (dotted, (has_suffix_iff host suffix).0 (ground arith))
  | inr plain ↦ elim (Bool-cases (host =ₜ suffix)) [
    | inl same ↦ inr (plain, inl ((=ₜ_iff host suffix).0 same))
    | inr other ↦ inr (plain, inr ((has_suffix_iff host (dot ∷ suffix)).0 (ground arith)))
  ]
]

Belongs-matches_rule : (host suffix : Text) → Belongs host suffix → matches_rule host suffix ≡ true
unfolding matches_rule
Belongs-matches_rule host suffix (inl (dotted, ends)) =
    ground (arith, (has_suffix_iff host suffix).1 ends)
Belongs-matches_rule host suffix (inr (plain, inl same)) = ground (arith, =ₜ_iff host suffix)
Belongs-matches_rule host suffix (inr (plain, inr below)) =
    ground (arith, (has_suffix_iff host (dot ∷ suffix)).1 below)

Found : List HostRule → Text → Type 0
Found rules host =
    (r : HostRule) × Memᴰ r rules × (r.provider ≡ detect_by rules host) × Belongs host r.suffix

Missed : List HostRule → Text → Type 0
Missed rules host =
    (detect_by rules host ≡ provider_unknown)
    × ((r : HostRule) → Memᴰ r rules → ¬ Belongs host r.suffix)

apart :
    (r : HostRule) (host : Text)
    → matches_rule host r.suffix ≡ false
    → matches_rule host r.suffix ≡ true
    → ⊥
apart r host no_match fits = ground arith

misses :
    (r : HostRule) (rules : List HostRule) (host : Text)
    → matches_rule host r.suffix ≡ false
    → ((o : HostRule) → Memᴰ o rules → ¬ Belongs host o.suffix)
    → (o : HostRule) → Memᴰ o (r ∷ rules)
    → ¬ Belongs host o.suffix
misses r rules host no_match rest o (Memᴰ.head e) b =
    elim (apart r host no_match
      (Belongs-matches_rule host r.suffix (subst (λ x. Belongs host x.suffix) e b))) [ ]
misses r rules host no_match rest o (Memᴰ.tail at) b = rest o at b

rules_split : (rules : List HostRule) (host : Text) → Found rules host ⊎ Missed rules host
unfolding detect_by Found Missed
rules_split [] host = inr (refl, λ r m. elim m [ ])
rules_split (r ∷ rules) host = elim (Bool-cases (matches_rule host r.suffix)) [
  | inl fits ↦ inl (r, Memᴰ.head refl, ground arith, matches_rule-Belongs host r.suffix fits)
  | inr no_match ↦ elim (rules_split rules host) [
    | inl (o, at, same, b) ↦ inl (o, Memᴰ.tail at, ground arith, b)
    | inr (unknown, rest) ↦ inr (ground arith, misses r rules host no_match rest)
  ]
]

-- A host that a provider other than unknown is found for belongs to a rule of that provider, and a
-- host that is found to be unknown belongs to no rule.
pub detect_rule :
    (host : Text)
    → ((r : HostRule) × Memᴰ r host_rules
        × (r.provider ≡ detect host)
        × Belongs (trim_dot (to_lower host)) r.suffix)
      ⊎ ((detect host ≡ provider_unknown)
          × ((r : HostRule) → Memᴰ r host_rules → ¬ Belongs (trim_dot (to_lower host)) r.suffix))
unfolding detect Found Missed
detect_rule host = rules_split host_rules (trim_dot (to_lower host))
