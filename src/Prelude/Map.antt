-- ===== src/Prelude/Map.antt =====
-- Go maps with string keys, as functions. `m[k] = v`, `delete(m, k)` and a loop that deletes the
-- entries that pass a test.
use mathlib.Core.Path.{◌≡◌}
use mathlib.Core.Bool.{Bool}
use mathlib.Core.Option.{Option, none, some}
use native.Mathlib.Omega.{arith}
use shield_agent.Prelude.Tests.{if◌then◌else◌}
use shield_agent.Prelude.Strings.{Text, ◌=ₜ◌, =ₜ_refl}

abbrev pub Map {ℓ} : Type ℓ → Type ℓ
Map V = Text → Option V

module _ {ℓ} {V : Type ℓ} where
  abbrev pub empty : Map V
  empty _ = none

  abbrev pub insert : Text → V → Map V → Map V
  insert k v m j = if k =ₜ j then some v else m j

  abbrev pub delete : Text → Map V → Map V
  delete k m j = if k =ₜ j then none else m j

  abbrev pub delete_if : (V → Bool) → Map V → Map V
  delete_if p m j = elim (m j) [ none ↦ none | some v ↦ if p v then none else some v ]

  pub insert_self : (k : Text) (v : V) (m : Map V) → insert k v m k ≡ some v
  insert_self k v m = ground (arith, =ₜ_refl k)
