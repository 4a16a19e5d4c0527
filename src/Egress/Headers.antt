-- ===== src/Egress/Headers.antt =====
-- The headers of a request or response, and `removeHopByHopHeaders` of internal/egress/proxy.go.
-- `Header` is `http.Header`, a map from canonical names to values, as a list of its entries;
-- `canonical` is `textproto.CanonicalMIMEHeaderKey`, `split` is `strings.Split` at a comma and
-- `trim_space` is `strings.TrimSpace`.
use shield_agent.Prelude.{
  ◌≡◌, refl, ap, ◌∙◌, not, List, [], ◌∷◌, Text, codes, ◌=ₜ◌, =ₜ_iff, =ₜ_refl, is_empty, keep, any,
  arith, if◌then◌else◌,
}

pub record Field : Type 0 where
  pub name : Text
  pub values : List Text

abbrev pub Header : Type 0
Header = List Field

-- `h[key]`, which is empty for a missing key
unfoldable pub lookup : Text → Header → List Text
lookup key [] = []
lookup key (f ∷ h) = let rest = lookup key h in if f.name =ₜ key then f.values else rest

abbrev pub hop_by_hop_headers : List Text
hop_by_hop_headers =
    codes "Connection"
    ∷ codes "Proxy-Connection"
    ∷ codes "Proxy-Authenticate"
    ∷ codes "Proxy-Authorization"
    ∷ codes "Te"
    ∷ codes "Trailer"
    ∷ codes "Transfer-Encoding"
    ∷ codes "Upgrade"
    ∷ codes "Keep-Alive"
    ∷ []

module _ (canonical : Text → Text) where
  -- `h.Del(name)` and `h.Values(name)`
  unfoldable pub del : Text → Header → Header
  del name h = keep (λ f. not (f.name =ₜ canonical name)) h

  unfoldable pub values : Text → Header → List Text
  unfolding lookup
  values name h = lookup (canonical name) h

  unfoldable pub del_all : List Text → Header → Header
  unfolding del
  del_all [] h = h
  del_all (name ∷ names) h = del_all names (del name h)

  module _ (split : Text → List Text) (trim_space : Text → Text) where
    -- The names in one value of `Connection`
    unfoldable pub drop_listed : List Text → Header → Header
    unfolding del
    drop_listed [] h = h
    drop_listed (name ∷ names) h =
        drop_listed names (if is_empty (trim_space name) then h else del (trim_space name) h)

    unfoldable pub drop_extra : List Text → Header → Header
    unfolding drop_listed
    drop_extra [] h = h
    drop_extra (extra ∷ extras) h = drop_extra extras (drop_listed (split extra) h)

    unfoldable pub remove_hop_by_hop_headers : Header → Header
    unfolding del_all drop_extra values
    remove_hop_by_hop_headers h =
        let rest = del_all hop_by_hop_headers h in
        drop_extra (values (codes "Connection") rest) rest

  lookup-keep :
      (key name : Text) (h : Header)
      → lookup key (keep (λ f. not (f.name =ₜ name)) h) ≡ (if key =ₜ name then [] else lookup key h)
  unfolding lookup
  lookup-keep key name [] = ground arith
  lookup-keep key name (f ∷ h) =
      ground (arith, lookup-keep key name h, =ₜ_iff f.name key, =ₜ_iff f.name name, =ₜ_iff key name)

  -- What `del_all` leaves of a key.
  lookup-del_all :
      (key : Text) (names : List Text) (h : Header)
      → lookup key (del_all names h)
        ≡ (if any (λ name. key =ₜ canonical name) names then [] else lookup key h)
  unfolding del_all del
  lookup-del_all key [] h = refl
  lookup-del_all key (name ∷ names) h =
      ground (arith, lookup-del_all key names (del name h), lookup-keep key (canonical name) h)

  -- `Connection` is one of the fixed names.
  values-hop_by_hop : (h : Header) → values (codes "Connection") (del_all hop_by_hop_headers h) ≡ []
  unfolding values
  values-hop_by_hop h = ground (
    arith,
    lookup-del_all (canonical (codes "Connection")) hop_by_hop_headers h,
    =ₜ_refl (canonical (codes "Connection")),
  )

  drop_extra_none :
      (split : Text → List Text) (trim_space : Text → Text) (extras : List Text) (h : Header)
      → extras ≡ []
      → drop_extra split trim_space extras h ≡ h
  unfolding drop_extra
  drop_extra_none split trim_space extras h e = rw e refl

  -- The fields with the fixed names go, and every other field stays, also one that a `Connection`
  -- header of the message lists.
  pub lookup-remove_hop_by_hop_headers :
      (split : Text → List Text) (trim_space : Text → Text) (key : Text) (h : Header)
      → lookup key (remove_hop_by_hop_headers split trim_space h)
        ≡ (if any (λ name. key =ₜ canonical name) hop_by_hop_headers then [] else lookup key h)
  unfolding remove_hop_by_hop_headers
  lookup-remove_hop_by_hop_headers split trim_space key h =
      let rest = del_all hop_by_hop_headers h in
      ap (lookup key) (
        drop_extra_none split trim_space (values (codes "Connection") rest) rest
          (values-hop_by_hop h))
      ∙ lookup-del_all key hop_by_hop_headers h
