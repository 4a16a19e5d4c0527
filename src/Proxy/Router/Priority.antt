-- ===== src/Proxy/Router/Priority.antt =====
-- Which route a request gets.
use shield_agent.Prelude.{
  ℕ, ◌≤◌, ◌≡◌, ◌↔◌, inl, inr, Bool, true, false, none, some, List, [], ◌∷◌, has_prefix, is_empty,
  ◌&&◌, ◌||◌, if◌then◌else◌, arith, Bool-cases, Option-cases, sym,
}
use mathlib.Core.List.{Memᴰ}
use mathlib.Core.Path.{subst}
use shield_agent.Proxy.Router.{
  Match, Route, HttpRequest, match_host, first_route, by_both, by_host, by_path, by_default,
  stripped, match, serve_http, bad_gateway, handled,
}

-- Does the rule accept the request: each criterion that is given holds.
abbrev pub accepts : HttpRequest → Match → Bool
accepts req m =
    (is_empty m.host || match_host req.host m.host)
    && (is_empty m.path_prefix || has_prefix req.path m.path_prefix)

-- 3 for host and path, 2 for host, 1 for path, 0 for neither.
abbrev pub specificity : Match → ℕ
specificity m =
    if is_empty m.host
    then (if is_empty m.path_prefix then 0 else 1)
    else (if is_empty m.path_prefix then 2 else 3)

-- What the four passes test, of the accepted rules.
by_both_lem :
    (req : HttpRequest) (m : Match)
    → by_both req m ≡ true
    → (accepts req m ≡ true) × (specificity m ≡ 3)
by_both_lem req m e = ground arith

by_host_lem :
    (req : HttpRequest) (m : Match)
    → by_host req m ≡ true
    → (accepts req m ≡ true) × (specificity m ≡ 2)
by_host_lem req m e = ground arith

by_path_lem :
    (req : HttpRequest) (m : Match)
    → by_path req m ≡ true
    → (accepts req m ≡ true) × (specificity m ≡ 1)
by_path_lem req m e = ground arith

by_default_lem :
    (req : HttpRequest) (m : Match)
    → by_default m ≡ true
    → (accepts req m ≡ true) × (specificity m ≡ 0)
by_default_lem req m e = ground arith

by_both_rest :
    (req : HttpRequest) (m : Match)
    → accepts req m ≡ true
    → by_both req m ≡ false
    → specificity m ≤ 2
by_both_rest req m at e = ground arith

by_host_rest :
    (req : HttpRequest) (m : Match)
    → accepts req m ≡ true
    → by_both req m ≡ false
    → by_host req m ≡ false
    → specificity m ≤ 1
by_host_rest req m at e f = ground arith

by_path_rest :
    (req : HttpRequest) (m : Match)
    → accepts req m ≡ true
    → by_both req m ≡ false
    → by_host req m ≡ false
    → by_path req m ≡ false
    → specificity m ≤ 0
by_path_rest req m at e f g = ground arith

by_default_rest :
    (req : HttpRequest) (m : Match)
    → by_both req m ≡ false
    → by_host req m ≡ false
    → by_path req m ≡ false
    → by_default m ≡ false
    → accepts req m ≡ false
by_default_rest req m e f g h = ground arith

specificity_bound : (m : Match) → specificity m ≤ 3
specificity_bound m = ground arith

refused : (b : Bool) → b ≡ true → b ≡ false → ⊥
refused b e f = ground arith

module _ {H : Type 0} where
  first_route_here :
      (p : Match → Bool) (s : Route H) (rs : List (Route H)) (r : Route H)
      → first_route p (s ∷ rs) ≡ some r
      → p s.rule ≡ true
      → (r ≡ s) × (p r.rule ≡ true)
  first_route_here p s rs r e here = ground arith

  first_route-some :
      (p : Match → Bool) (rs : List (Route H)) (r : Route H)
      → first_route p rs ≡ some r
      → Memᴰ r rs × (p r.rule ≡ true)
  first_route-some p [] r e = cc
  first_route-some p (s ∷ rs) r e = elim (Bool-cases (p s.rule)) [
    | inl here ↦ let (same, holds) = first_route_here p s rs r e here in (Memᴰ.head same, holds)
    | inr other ↦ let (at, holds) = first_route-some p rs r (ground arith) in (Memᴰ.tail at, holds)
  ]

  first_route-none :
      (p : Match → Bool) (rs : List (Route H)) (r : Route H)
      → first_route p rs ≡ none
      → Memᴰ r rs
      → p r.rule ≡ false
  first_route-none p [] r e m = elim m [ ]
  first_route-none p (s ∷ rs) r e (Memᴰ.head at) =
      subst (λ t. p t.rule ≡ false) (sym at) (ground arith)
  first_route-none p (s ∷ rs) r e (Memᴰ.tail m) = first_route-none p rs r (ground arith) m

  abbrev pub Best : List (Route H) → HttpRequest → Route H → Type 0
  Best routes req r =
      Memᴰ r routes
      × (accepts req r.rule ≡ true)
      × ((other : Route H)
          → Memᴰ other routes
          → accepts req other.rule ≡ true
          → specificity other.rule ≤ specificity r.rule)

  -- A pass at level `k` finds a best route if every accepted rule is at most at that level.
  first_route-Best :
      (p : Match → Bool) (k : ℕ) (routes : List (Route H)) (req : HttpRequest) (r : Route H)
      → first_route p routes ≡ some r
      → ((m : Match) → p m ≡ true → (accepts req m ≡ true) × (specificity m ≡ k))
      → ((o : Route H) → Memᴰ o routes → accepts req o.rule ≡ true → specificity o.rule ≤ k)
      → Best routes req r
  first_route-Best p k routes req r e lem rest =
      let (at, holds) = first_route-some p routes r e in
      let (fine, level) = lem r.rule holds in
      (
        at,
        fine,
        λ o here taken. subst (λ n. specificity o.rule ≤ n) (sym level) (rest o here taken),
      )

  -- The chosen route is one of the list that accepts the request, and no route that accepts it is
  -- more specific.
  pub match-Best :
      (routes : List (Route H)) (req : HttpRequest) (r : Route H)
      → match routes req ≡ some r
      → Best routes req r
  unfolding match
  match-Best routes req r e = elim (Option-cases (first_route (by_both req) routes)) [
    | inr (s, one) ↦
        first_route-Best (by_both req) 3 routes req r (ground arith) (by_both_lem req)
          (λ o at taken. specificity_bound o.rule)
    | inl no_both ↦ elim (Option-cases (first_route (by_host req) routes)) [
      | inr (s, two) ↦
          first_route-Best (by_host req) 2 routes req r (ground arith) (by_host_lem req)
            (λ o at taken.
              by_both_rest req o.rule taken (first_route-none (by_both req) routes o no_both at))
      | inl no_host ↦ elim (Option-cases (first_route (by_path req) routes)) [
        | inr (s, three) ↦
            first_route-Best (by_path req) 1 routes req r (ground arith) (by_path_lem req)
              (λ o at taken.
                by_host_rest req o.rule taken (first_route-none (by_both req) routes o no_both at)
                  (first_route-none (by_host req) routes o no_host at))
        | inl no_path ↦
            first_route-Best by_default 0 routes req r (ground arith) (by_default_lem req)
              (λ o at taken.
                by_path_rest req o.rule taken (first_route-none (by_both req) routes o no_both at)
                  (first_route-none (by_host req) routes o no_host at)
                  (first_route-none (by_path req) routes o no_path at))
      ]
    ]
  ]

  match-none :
      (routes : List (Route H)) (req : HttpRequest) (r : Route H)
      → match routes req ≡ none
      → Memᴰ r routes
      → accepts req r.rule ≡ false
  unfolding match
  match-none routes req r e at =
      by_default_rest req r.rule (first_route-none (by_both req) routes r (ground arith) at)
        (first_route-none (by_host req) routes r (ground arith) at)
        (first_route-none (by_path req) routes r (ground arith) at)
        (first_route-none by_default routes r (ground arith) at)

  served : (s : Route H) (out : HttpRequest) → handled s.handler out ≡ bad_gateway → ⊥
  served s out e = cc

  -- A request is answered by 502 exactly if no route accepts it.
  pub serve_http-bad_gateway_iff :
      (routes : List (Route H)) (req : HttpRequest)
      → (serve_http routes req ≡ bad_gateway)
        ↔ ((r : Route H) → Memᴰ r routes → accepts req r.rule ≡ false)
  unfolding serve_http
  serve_http-bad_gateway_iff routes req = elim (Option-cases (match routes req)) [
    | inl unmatched ↦ (λ e r at. match-none routes req r unmatched at, λ refuse. ground arith)
    | inr (s, one) ↦ (
      λ e. elim (served s (stripped s.rule req) (ground arith)) [ ],
      λ refuse.
          let (at, taken, _) = match-Best routes req s one in
          elim (refused (accepts req s.rule) taken (refuse s at)) [ ],
    )
  ]
