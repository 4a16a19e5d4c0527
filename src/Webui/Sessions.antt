-- ===== src/Webui/Sessions.antt =====
-- Who may use the dashboard. A use of the dashboard is a sequence of logins and of calls through
-- `requireAuth`, whose handlers leave the sessions as they are (Webui/Handlers).
use shield_agent.Prelude.{
  ℕ, ◌≤◌, ◌+◌, ◌≡◌, refl, ap, ◌⊎◌, inl, inr, true, Option, none, some, List, [], ◌∷◌, Text, codes,
  ◌=ₜ◌, =ₜ_iff, arith, Bool-cases, Option-cases,
}
use shield_agent.Prelude.Map.{Map, empty, delete}
use shield_agent.Storage.{load_config}
use shield_agent.Webui.{
  Call, Dashboard, Reply, reply, failure, Bcrypt, Handler, day, password_key, is_live, require_auth,
  handle_login,
}

no_session :
    {sessions : Map ℕ} {id : Text} {expiry : ℕ} → sessions ≡ empty → sessions id ≡ some expiry → ⊥
no_session {sessions} {id} start h = let e = ap (λ (m : Map ℕ). m id) start in absurd (ground arith)

-- A handler behind `requireAuth` does not touch the sessions.
abbrev pub KeepsSessions : {V : Type 0} → Handler V → Type 0
KeepsSessions {V} next = (d : Dashboard V) (c : Call) → (next d c).0.sessions ≡ d.sessions

pub data Use (V : Type 0) : Type 0 where
  login : ℕ → Text → Call → Use V
  call : ℕ → (next : Handler V) → KeepsSessions next → Call → Use V

live_some :
    (now : ℕ) (o : Option ℕ)
    → is_live now o ≡ true
    → (expiry : ℕ) × (o ≡ some expiry) × (now ≤ expiry)
live_some now none h = absurd (ground arith)
live_some now (some expiry) h = (expiry, refl, ground arith)

module _ {V : Type 0} (b : Bcrypt) (decode : Text → Option Text) where
  -- A login opened the session with that expiry, with a password that the stored hash accepts.
  pub record LoggedIn (now expiry : ℕ) (d : Dashboard V) (c : Call) : Type 0 where
    pub password : Text
    pub hash : Text
    pub read : decode c.body ≡ some password
    pub stored : load_config password_key d.admin ≡ some hash
    pub accepted : b.compare_hash hash password ≡ true
    pub lasts : expiry ≡ now + day

  abbrev pub after : Dashboard V → Use V → Dashboard V
  after d (login now fresh c) = (handle_login b decode now fresh d c).0
  after d (call now next keeps c) = (require_auth now next d c).0

  abbrev pub run : Dashboard V → List (Use V) → Dashboard V
  run d [] = d
  run d (u ∷ us) = run (after d u) us

  -- That use opens the session.
  abbrev pub Opens : Text → ℕ → Dashboard V → Use V → Type 0
  Opens id expiry d (login now fresh c) = (fresh ≡ id) × LoggedIn now expiry d c
  Opens id expiry d (call now next keeps c) = ⊥

  -- Some use of the sequence opens the session.
  abbrev pub Opened : Text → ℕ → Dashboard V → List (Use V) → Type 0
  Opened id expiry d [] = ⊥
  Opened id expiry d (u ∷ us) = Opens id expiry d u ⊎ Opened id expiry (after d u) us

  login_opens :
      (now : ℕ) (fresh id : Text) (expiry : ℕ) (d : Dashboard V) (c : Call)
      → (handle_login b decode now fresh d c).0.sessions id ≡ some expiry
      → (d.sessions id ≡ some expiry) ⊎ ((fresh ≡ id) × LoggedIn now expiry d c)
  unfolding handle_login
  login_opens now fresh id expiry d c h = elim (Bool-cases (c.method =ₜ codes "POST")) [
    | inr other ↦ inl (ground arith)
    | inl post ↦ elim (Option-cases (decode c.body)) [
      | inl unread ↦ inl (ground arith)
      | inr (password, read) ↦ elim (Option-cases (load_config password_key d.admin)) [
        | inl unset ↦ inl (ground arith)
        | inr (hash, stored) ↦ elim (Bool-cases (b.compare_hash hash password)) [
          | inr refused ↦ inl (ground arith)
          | inl accepted ↦ elim (Bool-cases (fresh =ₜ id)) [
            | inr other ↦ inl (ground arith)
            | inl same ↦ inr (
              (=ₜ_iff fresh id).0 same,
              record {
                password = password;
                hash = hash;
                read = read;
                stored = stored;
                accepted = accepted;
                lasts = ground arith;
              },
            )
          ]
        ]
      ]
    ]
  ]

  call_keeps :
      (now : ℕ) (next : Handler V) (id : Text) (expiry : ℕ) (d : Dashboard V) (c : Call)
      → KeepsSessions next
      → (require_auth now next d c).0.sessions id ≡ some expiry
      → d.sessions id ≡ some expiry
  unfolding require_auth
  call_keeps now next id expiry d c keeps h = elim (Option-cases c.cookie) [
    | inl none_sent ↦ ground arith
    | inr (cookie, sent) ↦ elim (Bool-cases (is_live now (d.sessions cookie))) [
      | inl live ↦ ground (arith, keeps d c)
      | inr dead ↦ ground arith
    ]
  ]

  use-Opens :
      (id : Text) (expiry : ℕ) (d : Dashboard V) (u : Use V)
      → (after d u).sessions id ≡ some expiry
      → (d.sessions id ≡ some expiry) ⊎ Opens id expiry d u
  use-Opens id expiry d (login now fresh c) h = login_opens now fresh id expiry d c h
  use-Opens id expiry d (call now next keeps c) h = inl (call_keeps now next id expiry d c keeps h)

  run-Opened :
      (id : Text) (expiry : ℕ) (d : Dashboard V) (us : List (Use V))
      → (run d us).sessions id ≡ some expiry
      → (d.sessions id ≡ some expiry) ⊎ Opened id expiry d us
  run-Opened id expiry d [] h = inl h
  run-Opened id expiry d (u ∷ us) h = elim (run-Opened id expiry (after d u) us h) [
    | inr later ↦ inr (inr later)
    | inl before ↦ elim (use-Opens id expiry d u before) [
      | inl old ↦ inl old
      | inr now ↦ inr (inl now)
    ]
  ]

  live-Opened :
      (d : Dashboard V) (us : List (Use V)) (now : ℕ) (id : Text)
      → d.sessions ≡ empty
      → is_live now ((run d us).sessions id) ≡ true
      → (expiry : ℕ) × Opened id expiry d us × (now ≤ expiry)
  live-Opened d us now id start live =
      let (expiry, open_now, time) = live_some now ((run d us).sessions id) live in
      elim (run-Opened id expiry d us open_now) [
        | inr opened ↦ (expiry, opened, time)
        | inl old ↦ absurd (no_session start old)
      ]

  -- The call names a session that a login opened and whose expiry has not passed, and any handler
  -- gets it.
  abbrev pub Passes : ℕ → Dashboard V → List (Use V) → Call → Type 0
  Passes now d us c =
      (id : Text) × (expiry : ℕ) × (c.cookie ≡ some id)
      × Opened id expiry d us
      × (now ≤ expiry)
      × ((next : Handler V) → require_auth now next (run d us) c ≡ next (run d us) c)

  -- The answer is 401, whatever handler stands behind the check.
  abbrev pub Refused : ℕ → Dashboard V → Call → Type 0
  Refused now d c =
      (refused : Dashboard V × Reply) × (refused.1.status ≡ 401)
      × ((next : Handler V) → require_auth now next d c ≡ refused)

  -- After any logins, and calls of handlers that leave the sessions as they are, on a dashboard that
  -- starts without sessions, a call reaches the handler behind `requireAuth` only if its cookie is a
  -- session that a login opened with a password that the hash stored at that time accepts, and the
  -- session's expiry, a day after the login, has not passed; every other call is answered with 401,
  -- which does not depend on the handler.
  pub require_auth-Opened :
      (d : Dashboard V) (us : List (Use V)) (now : ℕ) (c : Call)
      → d.sessions ≡ empty
      → Passes now d us c ⊎ Refused now (run d us) c
  unfolding require_auth
  require_auth-Opened d us now c start = elim (Option-cases c.cookie) [
    | inl unsent ↦ inr (
      (run d us, reply 401 (failure (codes "authentication required"))),
      refl,
      λ next. rw unsent refl,
    )
    | inr (id, sent) ↦ elim (Bool-cases (is_live now ((run d us).sessions id))) [
      | inl live ↦
          let (expiry, opened, time) = live-Opened d us now id start live in
          inl (id, expiry, sent, opened, time, λ next. rw (sent, live) refl)
      | inr dead ↦ inr (
        (
          record (run d us) { sessions = delete id (run d us).sessions },
          reply 401 (failure (codes "session expired")),
        ),
        refl,
        λ next. rw (sent, dead) refl,
      )
    ]
  ]
