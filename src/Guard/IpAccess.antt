-- ===== src/Guard/IpAccess.antt =====
-- The address lists of internal/middleware/guard.go. `net.ParseIP` and `net.ParseCIDR` are
-- parameters; an address is its family and its number, a network an address with the length of its
-- prefix, and `IPNet.Contains` compares the two prefixes.
pub mod Decision
use shield_agent.Prelude.{
  ℕ, ◌-◌, ◌/◌, ◌^◌, ◌≡◌, refl, ◌↔◌, ◌⊎◌, inl, inr, Bool, true, false, Option, none, some, List, [],
  ◌∷◌, ◌++◌, arith, Text, ◌==◌, ◌&&◌, if◌then◌else◌, any, Bool-cases, ◌≢◌, codes,
}

pub data Ip : Type 0 where
  v4 : ℕ → Ip
  v6 : ℕ → Ip

pub record IpNet : Type 0 where
  pub base : Ip
  pub prefix : ℕ

abbrev pub contains_ip : Ip → ℕ → Ip → Bool
contains_ip (v4 n) prefix (v4 a) = n / 2 ^ (32 - prefix) == a / 2 ^ (32 - prefix)
contains_ip (v6 n) prefix (v6 a) = n / 2 ^ (128 - prefix) == a / 2 ^ (128 - prefix)
contains_ip (v4 _) prefix (v6 _) = false
contains_ip (v6 _) prefix (v4 _) = false

unfoldable pub contains : IpNet → Ip → Bool
contains net ip = contains_ip net.base net.prefix ip

-- `net.CIDRMask(32, 32)`, or `net.CIDRMask(128, 128)` where `ip.To4()` is nil
unfoldable pub host_net : Ip → IpNet
host_net (v4 a) = record { base = v4 a; prefix = 32 }
host_net (v6 a) = record { base = v6 a; prefix = 128 }

pub data IpError : Type 0 where
  blocked : Text → IpError
  not_allowed : Text → IpError

-- What package net parses.
pub record NetParser : Type 0 where
  pub parse_ip : Text → Option Ip
  pub parse_cidr : Text → Option IpNet

pub record IpLists : Type 0 where
  pub blocklist : List IpNet
  pub allowlist : List IpNet

abbrev pub is_nil : List IpNet → Bool
is_nil [] = true
is_nil (_ ∷ _) = false

abbrev pub judge : IpLists → Text → Ip → Option IpError
judge l text ip =
    if any (λ net. contains net ip) l.blocklist
    then some (blocked text)
    else if is_nil l.allowlist
    then none
    else if any (λ net. contains net ip) l.allowlist
    then none
    else some (not_allowed text)

module _ (p : NetParser) where
  -- A network, else a single address, else nothing: an entry that does not parse is dropped.
  abbrev parse_entry : Text → Option IpNet
  parse_entry cidr = elim (p.parse_cidr cidr) [
    | some net ↦ some net
    | none ↦ elim (p.parse_ip cidr) [ none ↦ none | some ip ↦ some (host_net ip) ]
  ]

  -- The two loops of `NewGuardMiddleware`.
  unfoldable pub parse_entries : List Text → List IpNet
  unfolding host_net
  parse_entries [] = []
  parse_entries (cidr ∷ more) =
      let rest = parse_entries more in
      elim (parse_entry cidr) [ none ↦ rest | some net ↦ net ∷ rest ]

  -- `nil` is `none`.
  unfoldable pub check_ip_access : IpLists → Text → Option IpError
  check_ip_access l text =
      if is_nil l.blocklist && is_nil l.allowlist
      then none
      else elim (p.parse_ip text) [ none ↦ none | some ip ↦ judge l text ip ]
