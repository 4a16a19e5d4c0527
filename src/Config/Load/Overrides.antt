-- ===== src/Config/Load/Overrides.antt =====
-- Which middlewares are on after the overrides of the database.
use shield_agent.Prelude.{
  ◌≡◌, refl, ap, ◌∙◌, ◌&&◌, Bool, true, false, Option, none, some, List, [], ◌∷◌, Text, codes, ◌=ₜ◌,
  =ₜ_iff, has_prefix, arith, if◌then◌else◌,
}
use shield_agent.Proxy.Router.{trim_prefix}
use shield_agent.Config.{MiddlewareEntry}
use shield_agent.Config.Load.{key_prefix, set_enabled, apply_db_overrides}

-- A nil pointer means on.
abbrev pub is_on : Option Bool → Bool
is_on none = true
is_on (some b) = b

-- Whether the first entry with a name is on, the one that `SetMiddlewareEnabled` changes
abbrev pub first_status : {V : Type 0} → Text → List (MiddlewareEntry V) → Option Bool
first_status name [] = none
first_status name (e ∷ es) =
    let later = first_status name es in if e.name =ₜ name then some (is_on e.enabled) else later

-- What one override says of a name
abbrev pub said : Text → Text → Text → Option Bool
said name k v =
    if has_prefix k key_prefix && trim_prefix k key_prefix =ₜ name
    then some (v =ₜ codes "true")
    else none

abbrev pub or_status : Option Bool → Option Bool → Option Bool
or_status (some on) _ = some on
or_status none old = old

-- What the last override of a name says
abbrev pub override_of : Text → List (Text × Text) → Option Bool
override_of name [] = none
override_of name ((k, v) ∷ overrides) = or_status (override_of name overrides) (said name k v)

split :
    (b on : Bool) (old : Option Bool)
    → (if b then some on else old) ≡ or_status (if b then some on else none) old
split true on old = refl
split false on old = refl

pub or_status_assoc :
    (a b c : Option Bool) → or_status a (or_status b c) ≡ or_status (or_status a b) c
or_status_assoc (some on) b c = refl
or_status_assoc none b c = refl

module _ {V : Type 0} where
  pub first_status-set_enabled :
      (name other : Text) (on : Bool) (es : List (MiddlewareEntry V))
      → first_status other (set_enabled name on es)
        ≡ (if name =ₜ other then some on else first_status other es)
  unfolding set_enabled
  first_status-set_enabled name other on [] = ground arith
  first_status-set_enabled name other on (e ∷ es) = ground (
    arith,
    first_status-set_enabled name other on es,
    =ₜ_iff e.name name,
    =ₜ_iff e.name other,
    =ₜ_iff name other,
  )

  status_one :
      (ours : Bool) (name key : Text) (on : Bool) (es : List (MiddlewareEntry V))
      → first_status name (if ours then set_enabled key on es else es)
        ≡ or_status (if ours && key =ₜ name then some on else none) (first_status name es)
  status_one true name key on es =
      first_status-set_enabled key name on es ∙ split (key =ₜ name) on (first_status name es)
  status_one false name key on es = refl

  -- After the overrides the first entry with a name is on or off as the last override of the name says,
  -- and as it was where there is none.
  pub first_status-apply_db_overrides :
      (name : Text) (es : List (MiddlewareEntry V)) (overrides : List (Text × Text))
      → first_status name (apply_db_overrides es overrides)
        ≡ or_status (override_of name overrides) (first_status name es)
  unfolding apply_db_overrides
  first_status-apply_db_overrides name es [] = refl
  first_status-apply_db_overrides name es ((k, v) ∷ overrides) =
      let next : List (MiddlewareEntry V) =
        if has_prefix k key_prefix
        then set_enabled (trim_prefix k key_prefix) (v =ₜ codes "true") es
        else es in
      first_status-apply_db_overrides name next overrides
      ∙ ap (or_status (override_of name overrides)) (
          status_one (has_prefix k key_prefix) name (trim_prefix k key_prefix) (v =ₜ codes "true")
            es)
      ∙ or_status_assoc (override_of name overrides) (said name k v) (first_status name es)
