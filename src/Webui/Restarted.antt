-- ===== src/Webui/Restarted.antt =====
-- What a toggle on the dashboard makes of the entries at the next start, where no name stands twice.
use mathlib.Core.List.{Memᴰ}
use shield_agent.Prelude.{
  ℕ, ◌≤◌, ◌≡◌, refl, sym, ap, ◌∙◌, ◌⊎◌, inl, inr, Bool, true, false, not, some, List, [], ◌∷◌, Text,
  codes, ◌=ₜ◌, =ₜ_iff, arith, if◌then◌else◌, Bool-cases, has_prefix, count_if,
}
use shield_agent.Proxy.Router.{trim_prefix}
use shield_agent.Config.{MiddlewareEntry}
use shield_agent.Config.Load.{key_prefix, set_enabled, apply_db_overrides}
use shield_agent.Config.Load.Overrides.{is_on, first_status}
use shield_agent.Registry.{is_enabled}
use shield_agent.Storage.{ConfigTable, load_config_prefix}
use shield_agent.Webui.{Dashboard, is_now_on, toggle}
use shield_agent.Webui.Toggled.{
  is_enabled_lem, is_now_on-first_status, override_of-toggle, status-start,
}

module _ {V : Type 0} where
  -- The number of entries with a name
  abbrev pub named : Text → List (MiddlewareEntry V) → ℕ
  named name es = count_if (λ (e : MiddlewareEntry V). e.name =ₜ name) es

  -- Setting a name appends at most one entry, where the name has none.
  named-set_enabled :
      (name key : Text) (b : Bool) (es : List (MiddlewareEntry V))
      → (named name (set_enabled key b es) ≡ named name es)
        ⊎ ((named name es ≡ 0) × (named name (set_enabled key b es) ≡ 1) × (key =ₜ name ≡ true))
  unfolding set_enabled
  named-set_enabled name key b [] = elim (Bool-cases (key =ₜ name)) [
    | inl own ↦ inr (refl, ground arith, own)
    | inr other ↦ inl (ground arith)
  ]
  named-set_enabled name key b (e ∷ es) = elim (Bool-cases (e.name =ₜ key)) [
    | inl here ↦ inl (ground arith)
    | inr further ↦ elim (named-set_enabled name key b es) [
      | inl same ↦ inl (ground arith)
      | inr (absent, added, own) ↦
          let other : e.name =ₜ name ≡ false =
            ground (arith, =ₜ_iff key name, =ₜ_iff e.name name, =ₜ_iff e.name key) in
          inr (ground arith, ground arith, own)
    ]
  ]

  named_set_once :
      (name key : Text) (b : Bool) (es : List (MiddlewareEntry V))
      → named name es ≤ 1
      → named name (set_enabled key b es) ≤ 1
  named_set_once name key b es once = elim (named-set_enabled name key b es) [
    | inl same ↦ omega (arith, same)
    | inr (absent, added, own) ↦ omega (arith, added)
  ]

  named_next :
      (name key : Text) (ours b : Bool) (es : List (MiddlewareEntry V))
      → named name es ≤ 1
      → named name (if ours then set_enabled key b es else es) ≤ 1
  named_next name key true b es once = named_set_once name key b es once
  named_next name key false b es once = once

  named_once :
      (name : Text) (es : List (MiddlewareEntry V)) (overrides : ConfigTable)
      → named name es ≤ 1
      → named name (apply_db_overrides es overrides) ≤ 1
  unfolding apply_db_overrides
  named_once name es [] once = once
  named_once name es ((k, v) ∷ overrides) once =
      let key = trim_prefix k key_prefix in
      let b = v =ₜ codes "true" in
      let ours = has_prefix k key_prefix in
      named_once name (if ours then set_enabled key b es else es) overrides
        (named_next name key ours b es once)

  named-Mem :
      (name : Text) (e : MiddlewareEntry V) (es : List (MiddlewareEntry V))
      → Memᴰ e es
      → e.name =ₜ name ≡ true
      → 1 ≤ named name es
  named-Mem name e [] m own = elim m [ ]
  named-Mem name e (e' ∷ es) (Memᴰ.head same) own =
      let own' = ap (λ (x : MiddlewareEntry V). x.name =ₜ name) (sym same) ∙ own in ground arith
  named-Mem name e (e' ∷ es) (Memᴰ.tail at) own =
      let more = named-Mem name e es at own in ground arith

  -- The entries of a name that has one at most are on as the first is.
  all_enabled :
      (name : Text) (b : Bool) (es : List (MiddlewareEntry V))
      → named name es ≤ 1
      → first_status name es ≡ some b
      → (e : MiddlewareEntry V) → Memᴰ e es
      → e.name =ₜ name ≡ true
      → is_enabled e ≡ b
  all_enabled name b [] once h e m own = elim m [ ]
  all_enabled name b (e' ∷ es) once h e (Memᴰ.head same) own =
      let own' = ap (λ (x : MiddlewareEntry V). x.name =ₜ name) (sym same) ∙ own in
      ap is_enabled same ∙ is_enabled_lem e' ∙ ground arith
  all_enabled name b (e' ∷ es) once h e (Memᴰ.tail at) own = elim (Bool-cases (e'.name =ₜ name)) [
    | inl here ↦ let more = named-Mem name e es at own in absurd (ground arith)
    | inr other ↦ all_enabled name b es (ground arith) (ground arith) e at own
  ]

  has_entry :
      (name : Text) (b : Bool) (es : List (MiddlewareEntry V))
      → first_status name es ≡ some b
      → (e : MiddlewareEntry V) × Memᴰ e es × (e.name ≡ name)
  has_entry name b [] h = absurd (ground arith)
  has_entry name b (e ∷ es) h = elim (Bool-cases (e.name =ₜ name)) [
    | inl here ↦ (e, Memᴰ.head refl, (=ₜ_iff e.name name).0 here)
    | inr other ↦
        let (found, at, own) = has_entry name b es (ground arith) in (found, Memᴰ.tail at, own)
  ]

  -- A toggle holds at the next start, if the configuration then has at most one entry of the name: there
  -- is an entry of the name, and every one is on if the first entry of the name was off when it was
  -- toggled, and off if that one was on or if no entry had the name.
  pub is_enabled-toggle :
      (name : Text) (d : Dashboard V) (es : List (MiddlewareEntry V))
      → named name es ≤ 1
      → let entries =
          apply_db_overrides es
            (load_config_prefix key_prefix (toggle set_enabled name d).0.admin) in
        ((e : MiddlewareEntry V) × Memᴰ e entries × (e.name ≡ name))
        × ((e : MiddlewareEntry V)
            → Memᴰ e entries
            → e.name ≡ name
            → is_enabled e ≡ not (is_on (first_status name d.middlewares)))
  is_enabled-toggle name d es once =
      let admin = (toggle set_enabled name d).0.admin in
      let b = not (is_on (first_status name d.middlewares)) in
      let said : first_status name (apply_db_overrides es (load_config_prefix key_prefix admin))
          ≡ some b =
        status-start name (not (is_now_on name d.middlewares)) es admin (override_of-toggle name d)
        ∙ ap (λ on. some (not on)) (is_now_on-first_status name d.middlewares) in
      let entries = apply_db_overrides es (load_config_prefix key_prefix admin) in
      (
        has_entry name b entries said,
        λ e at own.
            all_enabled name b entries
              (named_once name es (load_config_prefix key_prefix admin) once) said e at
              ((=ₜ_iff e.name name).1 own),
      )
