-- ===== src/Prelude/Strings.antt =====
-- Go strings as lists of bytes, and the functions of Go's package strings that the source calls.
-- `to_lower` and `equal_fold` fold the ASCII letters and leave every other byte as it is.
use Prim.Native.Nat.{ℕ, ◌+◌}
use Prim.Native.Char.{code}
use Prim.Native.String.{String}
use mathlib.Core.Path.{◌≡◌, refl}
use mathlib.Core.Logic.{◌↔◌}
use mathlib.Core.Bool.{Bool, true, false, ◌&&◌, ◌||◌}
use mathlib.Core.List.{List, [], ◌∷◌}
use native.Mathlib.Omega.{arith}
use shield_agent.Prelude.Tests.{leb, ◌==◌, if◌then◌else◌}

abbrev pub Text : Type 0
Text = List ℕ

-- The code points of a literal, which are its bytes where the text is ASCII.
abbrev pub codes : String → Text
codes String.[] = []
codes (String.◌∷◌ c s) = code c ∷ codes s

infix 50 ◌=ₜ◌
unfoldable pub ◌=ₜ◌ : Text → Text → Bool
[] =ₜ [] = true
[] =ₜ (_ ∷ _) = false
(_ ∷ _) =ₜ [] = false
(a ∷ s) =ₜ (b ∷ t) = a == b && s =ₜ t

pub =ₜ_iff : (s t : Text) → ((s =ₜ t) ≡ true) ↔ (s ≡ t)
unfolding ◌=ₜ◌
=ₜ_iff [] [] = (λ _. refl, λ _. refl)
=ₜ_iff [] (_ ∷ _) = (λ h. cc, λ h. cc)
=ₜ_iff (_ ∷ _) [] = (λ h. cc, λ h. cc)
=ₜ_iff (a ∷ s) (b ∷ t) = ground (arith, =ₜ_iff s t)

pub =ₜ_refl : (s : Text) → (s =ₜ s) ≡ true
=ₜ_refl s = (=ₜ_iff s s).1 refl

-- `strings.HasPrefix(s, p)`
unfoldable pub has_prefix : Text → Text → Bool
has_prefix s [] = true
has_prefix [] (_ ∷ _) = false
has_prefix (a ∷ s) (b ∷ p) = a == b && has_prefix s p

-- `strings.HasSuffix(s, p)`: some tail of `s` is `p`
unfoldable pub has_suffix : Text → Text → Bool
unfolding ◌=ₜ◌
has_suffix [] p = [] =ₜ p
has_suffix (a ∷ s) p = (a ∷ s) =ₜ p || has_suffix s p

unfoldable pub lower_byte : ℕ → ℕ
lower_byte c = if leb b'A' c && leb c b'Z' then c + 32 else c

-- `strings.ToLower(s)`
unfoldable pub to_lower : Text → Text
unfolding lower_byte
to_lower [] = []
to_lower (c ∷ s) = lower_byte c ∷ to_lower s

-- `strings.EqualFold(s, t)`
unfoldable pub equal_fold : Text → Text → Bool
unfolding to_lower ◌=ₜ◌
equal_fold s t = to_lower s =ₜ to_lower t

unfoldable pub is_empty : Text → Bool
is_empty [] = true
is_empty (_ ∷ _) = false

pub is_empty_iff : (t : Text) → (is_empty t ≡ true) ↔ (t ≡ [])
unfolding is_empty
is_empty_iff [] = (λ _. refl, λ _. refl)
is_empty_iff (_ ∷ _) = (λ h. cc, λ h. cc)

-- `strings.TrimRight(s, "/")`
unfoldable pub trim_right_slash : Text → Text
unfolding is_empty
trim_right_slash [] = []
trim_right_slash (c ∷ s) =
    let rest = trim_right_slash s in if c == b'/' && is_empty rest then [] else c ∷ rest

-- `strings.Contains(s, p)`: some tail of `s` begins with `p`
unfoldable pub contains : Text → Text → Bool
unfolding has_prefix
contains [] p = has_prefix [] p
contains (c ∷ s) p = has_prefix (c ∷ s) p || contains s p
