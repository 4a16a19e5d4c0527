-- ===== src/Proxy/Router.antt =====
-- internal/transport/proxy/router.go. A handler is a value that the router passes on; a request is
-- its host and its path.
pub mod Priority
use shield_agent.Prelude.{
  ℕ, zero, suc, ◌==◌, Bool, true, false, not, Option, none, some, List, [], ◌∷◌, ◌++◌, Text, codes,
  ◌=ₜ◌, equal_fold, has_prefix, is_empty, ◌&&◌, if◌then◌else◌, length, drop,
}

pub record Match : Type 0 where
  pub host : Text
  pub path_prefix : Text
  pub strip_prefix : Bool

pub record Route (H : Type 0) : Type 0 where
  pub rule : Match
  pub handler : H

pub record HttpRequest : Type 0 where
  pub host : Text
  pub path : Text

abbrev colon : ℕ
colon = b':'

abbrev mem : ℕ → Text → Bool
mem c [] = false
mem c (d ∷ s) = let rest = mem c s in if c == d then true else rest

-- `h[:strings.LastIndex(h, ":")]`, or `h` without a colon
unfoldable pub strip_port : Text → Text
strip_port [] = []
strip_port (c ∷ s) =
    let rest = strip_port s in if mem colon s then c ∷ rest else if c == colon then [] else c ∷ s

unfoldable pub match_host : Text → Text → Bool
unfolding strip_port equal_fold
match_host req_host pattern = equal_fold (strip_port req_host) pattern

-- `strings.TrimPrefix`
abbrev pub trim_prefix : Text → Text → Text
trim_prefix s p = if has_prefix s p then drop (length p) s else s

module _ {H : Type 0} where
  -- The first route that passes, as each of the four loops finds it.
  abbrev pub first_route : (Match → Bool) → List (Route H) → Option (Route H)
  first_route p [] = none
  first_route p (r ∷ rs) = let rest = first_route p rs in if p r.rule then some r else rest

  abbrev pub or_else : Option (Route H) → Option (Route H) → Option (Route H)
  or_else (some r) _ = some r
  or_else none o = o

abbrev pub has_host : Match → Bool
has_host m = not (is_empty m.host)

abbrev pub has_path : Match → Bool
has_path m = not (is_empty m.path_prefix)

-- The tests of the four passes: host and path, host, path, neither.
abbrev pub by_both : HttpRequest → Match → Bool
by_both req m =
    (has_host m && has_path m) && (match_host req.host m.host && has_prefix req.path m.path_prefix)

abbrev pub by_host : HttpRequest → Match → Bool
by_host req m = (has_host m && not (has_path m)) && match_host req.host m.host

abbrev pub by_path : HttpRequest → Match → Bool
by_path req m = (not (has_host m) && has_path m) && has_prefix req.path m.path_prefix

abbrev pub by_default : Match → Bool
by_default m = not (has_host m) && not (has_path m)

abbrev pub or_slash : Text → Text
or_slash path = if is_empty path then codes "/" else path

abbrev pub stripped : Match → HttpRequest → HttpRequest
stripped m req =
    if m.strip_prefix && has_path m
    then record req { path = or_slash (trim_prefix req.path m.path_prefix) }
    else req

pub data Served (H : Type 0) : Type 0 where
  bad_gateway : Served H
  handled : H → HttpRequest → Served H

module _ {H : Type 0} where
  unfoldable pub match : List (Route H) → HttpRequest → Option (Route H)
  unfolding match_host has_prefix is_empty
  match routes req = or_else (first_route (by_both req) routes) (
      or_else (first_route (by_host req) routes)
        (or_else (first_route (by_path req) routes) (first_route by_default routes)))

  -- `ServeHTTP`: 502 where no route matches.
  unfoldable pub serve_http : List (Route H) → HttpRequest → Served H
  unfolding match
  serve_http routes req = elim (match routes req) [
    | none ↦ bad_gateway
    | some r ↦ handled r.handler (stripped r.rule req)
  ]
