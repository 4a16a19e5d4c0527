-- ===== src/Egress/Domain.antt =====
-- Hosts below a domain, for the suffix tests of internal/compliance/policy.go and
-- internal/egress/provider_detect.go.
use mathlib.Core.Path.{subst}
use shield_agent.Prelude.{
  ℕ, ◌≡◌, sym, ap, ◌↔◌, inl, inr, true, [], ◌∷◌, ◌++◌, Text, ◌=ₜ◌, =ₜ_iff, =ₜ_refl, has_suffix,
  arith, Bool-cases,
}

abbrev pub dot : ℕ
dot = b'.'

abbrev pub EndsIn : Text → Text → Type 0
EndsIn p s = (front : Text) × (s ≡ front ++ p)

abbrev pub Below : Text → Text → Type 0
Below domain host = EndsIn (dot ∷ domain) host

EndsIn-grow : (a : ℕ) (s p : Text) → EndsIn p s → EndsIn p (a ∷ s)
EndsIn-grow a s p (front, e) = (a ∷ front, ap (λ (t : Text). a ∷ t) e)

has_suffix_end : (s p : Text) → has_suffix s p ≡ true → EndsIn p s
unfolding has_suffix
has_suffix_end [] p h = ([], (=ₜ_iff [] p).0 h)
has_suffix_end (a ∷ s) p h = elim (Bool-cases ((a ∷ s) =ₜ p)) [
  | inl here ↦ ([], (=ₜ_iff (a ∷ s) p).0 here)
  | inr other ↦ EndsIn-grow a s p (has_suffix_end s p (ground arith))
]

has_suffix_self : (p : Text) → has_suffix p p ≡ true
unfolding has_suffix
has_suffix_self [] = =ₜ_refl []
has_suffix_self (a ∷ p) = ground (arith, =ₜ_refl (a ∷ p))

has_suffix-append : (front p : Text) → has_suffix (front ++ p) p ≡ true
unfolding has_suffix
has_suffix-append [] p = has_suffix_self p
has_suffix-append (a ∷ front) p = ground (arith, has_suffix-append front p)

-- A test for a suffix holds exactly if the text ends in it.
pub has_suffix_iff : (s p : Text) → (has_suffix s p ≡ true) ↔ EndsIn p s
has_suffix_iff s p = (
  has_suffix_end s p,
  λ (front, e). subst (λ t. has_suffix t p ≡ true) (sym e) (has_suffix-append front p),
)
