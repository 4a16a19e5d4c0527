-- ===== src/Egress/Policy/Allowlist.antt =====
-- Which hosts the policy lets through.
use mathlib.Core.List.{Memᴰ}
use mathlib.Core.Path.{subst}
use shield_agent.Prelude.{
  ℕ, ◌≡◌, refl, sym, ap, ◌↔◌, ◌⊎◌, inl, inr, Bool, true, false, ◌||◌, List, [], ◌∷◌, Text, codes,
  ◌=ₜ◌, =ₜ_iff, has_suffix, has_prefix, to_lower, any, any_iff, arith, Bool-cases,
}
use shield_agent.Egress.{EgressRequest}
use shield_agent.Egress.Domain.{dot, EndsIn, Below, has_suffix_iff}
use shield_agent.Egress.Policy.{
  PolicyMiddleware, allowed, matches_entry, process_policy, is_nil, starts_with_dot,
}

-- The entry is the host, a domain above it, or a dot and a domain above it.
abbrev pub CoversHost : Text → Text → Type 0
CoversHost host a =
    (host ≡ a) ⊎ Below a host ⊎ ((domain : Text) × (a ≡ dot ∷ domain) × Below domain host)

abbrev covers : Text → Text → Bool
covers host a = host =ₜ a || matches_entry host a

starts_with_dot_iff : (c : ℕ) (a : Text) → starts_with_dot (c ∷ a) ≡ true → c ≡ dot
unfolding has_prefix
starts_with_dot_iff c a h = ground arith

dotted :
    (host a : Text)
    → starts_with_dot a ≡ true
    → has_suffix host a ≡ true
    → (domain : Text) × (a ≡ dot ∷ domain) × Below domain host
unfolding has_prefix
dotted host [] d h = cc
dotted host (c ∷ a) d h =
    let e = starts_with_dot_iff c a d in
    (
      a,
      ap (λ (x : ℕ). x ∷ a) e,
      subst (λ x. EndsIn (x ∷ a) host) e ((has_suffix_iff host (c ∷ a)).0 h),
    )

covers_host : (host a : Text) → covers host a ≡ true → CoversHost host a
unfolding matches_entry has_prefix
covers_host host a h = elim (Bool-cases (host =ₜ a)) [
  | inl same ↦ inl ((=ₜ_iff host a).0 same)
  | inr other ↦ elim (Bool-cases (has_suffix host (dot ∷ a))) [
    | inl below ↦ inr (inl ((has_suffix_iff host (dot ∷ a)).0 below))
    | inr not_below ↦ inr (inr (dotted host a (ground arith) (ground arith)))
  ]
]

CoversHost-covers : (host a : Text) → CoversHost host a → covers host a ≡ true
unfolding matches_entry has_prefix
CoversHost-covers host a (inl same) = ground (arith, =ₜ_iff host a)
CoversHost-covers host a (inr (inl below)) = ground (arith, (has_suffix_iff host (dot ∷ a)).1 below)
CoversHost-covers host a (inr (inr (domain, e, below))) =
    subst (λ t. covers host t ≡ true) (sym e)
      (ground (arith, (has_suffix_iff host (dot ∷ domain)).1 below))

is_nil_lem : (l : List Text) → is_nil l ≡ true → l ≡ []
is_nil_lem [] h = refl
is_nil_lem (_ ∷ _) h = cc

allowed_covered :
    (p : PolicyMiddleware) (host : Text)
    → allowed p host ≡ true
    → (p.allow_list ≡ []) ⊎ ((a : Text) × Memᴰ a p.allow_list × CoversHost (to_lower host) a)
unfolding allowed
allowed_covered p host h = elim (Bool-cases (is_nil p.allow_list)) [
  | inl none_given ↦ inl (is_nil_lem p.allow_list none_given)
  | inr some_given ↦ elim (Bool-cases (any (λ a. to_lower host =ₜ a) p.allow_list)) [
    | inl found ↦
        let (a, at, same) = (any_iff (λ a. to_lower host =ₜ a) p.allow_list).0 found in
        inr (a, at, covers_host (to_lower host) a (ground arith))
    | inr missing ↦
        let (a, at, fits) =
          (any_iff (matches_entry (to_lower host)) p.allow_list).0 (ground arith) in
        inr (a, at, covers_host (to_lower host) a (ground arith))
  ]
]

entry_fits :
    (host a : Text) → covers host a ≡ true → (host =ₜ a) ≡ false → matches_entry host a ≡ true
entry_fits host a c other = ground arith

covered_allowed :
    (p : PolicyMiddleware) (host : Text)
    → (p.allow_list ≡ []) ⊎ ((a : Text) × Memᴰ a p.allow_list × CoversHost (to_lower host) a)
    → allowed p host ≡ true
unfolding allowed
covered_allowed p host (inl none_given) = ground arith
covered_allowed p host (inr (a, at, c)) = elim (Bool-cases (to_lower host =ₜ a)) [
  | inl same ↦
      let found = (any_iff (λ a. to_lower host =ₜ a) p.allow_list).1 (a, at, same) in ground arith
  | inr other ↦
      let fits = entry_fits (to_lower host) a (CoversHost-covers (to_lower host) a c) other in
      let found = (any_iff (matches_entry (to_lower host)) p.allow_list).1 (a, at, fits) in
      ground arith
]

passes :
    (p : PolicyMiddleware) (req : EgressRequest)
    → p.mode ≡ codes "block"
    → (process_policy p req).refused ≡ false
    → allowed p req.host ≡ true
unfolding process_policy
passes p req e h = ground (arith, =ₜ_iff p.mode (codes "block"))

passed :
    (p : PolicyMiddleware) (req : EgressRequest)
    → allowed p req.host ≡ true
    → (process_policy p req).refused ≡ false
unfolding process_policy
passed p req h = ground arith

-- A host passes exactly if there is no allowlist or some entry covers it, in lower case.
pub allowed_iff :
    (p : PolicyMiddleware) (host : Text)
    → (allowed p host ≡ true)
      ↔ ((p.allow_list ≡ []) ⊎ ((a : Text) × Memᴰ a p.allow_list × CoversHost (to_lower host) a))
allowed_iff p host = (allowed_covered p host, covered_allowed p host)

-- In the mode block a request passes exactly if there is no allowlist or some entry covers its
-- host, in lower case.
pub process_policy-block_iff :
    (p : PolicyMiddleware) (req : EgressRequest)
    → p.mode ≡ codes "block"
    → ((process_policy p req).refused ≡ false) ↔ (
        (p.allow_list ≡ []) ⊎ ((a : Text) × Memᴰ a p.allow_list × CoversHost (to_lower req.host) a))
process_policy-block_iff p req e = (
  λ h. (allowed_iff p req.host).0 (passes p req e h),
  λ c. passed p req ((allowed_iff p req.host).1 c),
)
