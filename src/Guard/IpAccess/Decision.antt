-- ===== src/Guard/IpAccess/Decision.antt =====
-- Which addresses the lists let through.
use shield_agent.Prelude.{
  ◌≡◌, refl, ◌↔◌, ◌⊎◌, inl, inr, true, false, none, some, List, [], ◌∷◌, arith, Text, any, AnyOf,
  any_iff, Bool-cases,
}
use shield_agent.Guard.IpAccess.{
  Ip, IpNet, IpLists, NetParser, contains, is_nil, check_ip_access, judge,
}

abbrev pub Covers : List IpNet → Ip → Type 0
Covers nets ip = AnyOf (λ net. contains net ip) nets

is_nil-eq : (nets : List IpNet) → is_nil nets ≡ true → nets ≡ []
is_nil-eq [] h = refl
is_nil-eq (_ ∷ _) h = cc

not-Covers :
    (nets : List IpNet) (ip : Ip) → any (λ net. contains net ip) nets ≡ false → ¬ Covers nets ip
not-Covers nets ip h c = cc ((any_iff (λ net. contains net ip) nets).1 c)

any-is_nil :
    (nets : List IpNet) (ip : Ip) → is_nil nets ≡ true → any (λ net. contains net ip) nets ≡ false
any-is_nil [] ip h = refl
any-is_nil (_ ∷ _) ip h = cc

module _ (p : NetParser) (l : IpLists) (text : Text) (ip : Ip)
    (parsed : p.parse_ip text ≡ some ip) where
  check_ip_access-judge : check_ip_access p l text ≡ judge l text ip
  unfolding check_ip_access
  check_ip_access-judge = ground (arith, any-is_nil l.blocklist ip, any-is_nil l.allowlist ip)

  -- No network of the blocklist holds the address, and the allowlist is empty or holds it.
  abbrev pub Permitted : Type 0
  Permitted = (¬ Covers l.blocklist ip) × ((l.allowlist ≡ []) ⊎ Covers l.allowlist ip)

  judge-Permitted : judge l text ip ≡ none → Permitted
  judge-Permitted h = elim (Bool-cases (any (λ net. contains net ip) l.blocklist)) [
    | inl hit ↦ absurd (cc (rw hit at h))
    | inr miss ↦ (
      not-Covers l.blocklist ip miss,
      elim (Bool-cases (is_nil l.allowlist)) [
        | inl e ↦ inl (is_nil-eq l.allowlist e)
        | inr other ↦ inr ((any_iff (λ net. contains net ip) l.allowlist).0 (ground arith))
      ],
    )
  ]

  Permitted-judge : Permitted → judge l text ip ≡ none
  Permitted-judge (free, listed) = elim (Bool-cases (any (λ net. contains net ip) l.blocklist)) [
    | inl hit ↦ absurd (free ((any_iff (λ net. contains net ip) l.blocklist).0 hit))
    | inr miss ↦ rw miss (elim listed [
      | inl e ↦ rw e
      | inr c ↦ rw ((any_iff (λ net. contains net ip) l.allowlist).1 c) (ground arith)
    ])
  ]

  -- An address that parses passes exactly if no blocked network holds it and, where there is an
  -- allowlist, some allowed network does.
  pub check_ip_access_iff : (check_ip_access p l text ≡ none) ↔ Permitted
  check_ip_access_iff = (
    λ h. judge-Permitted (rw check_ip_access-judge at h),
    λ h. rw check_ip_access-judge (Permitted-judge h),
  )
