-- ===== src/Auth/Base58.antt =====
-- `base58Decode` of internal/auth/auth.go. The digits of `result` come least significant first.
pub mod Value
pub mod Unique
use shield_agent.Prelude.{
  ℕ, zero, suc, ◌+◌, ◌*◌, ◌/◌, ◌%◌, ◌==◌, Bool, Option, none, some, List, [], ◌∷◌, ◌++◌, Text,
  codes, if◌then◌else◌,
}
use shield_agent.Prelude.Result.{Result, ok, err}

abbrev pub alphabet : Text
alphabet = codes "123456789ABCDEFGHJKLMNPQRSTUVWXYZabcdefghijkmnopqrstuvwxyz"

abbrev pub next_index : Option ℕ → Option ℕ
next_index none = none
next_index (some i) = some (suc i)

-- `lookup[ch]`, `none` for -1
unfoldable pub lookup : Text → ℕ → Option ℕ
lookup [] ch = none
lookup (c ∷ cs) ch = let rest = lookup cs ch in if c == ch then some 0 else next_index rest

-- `for carry > 0`, at most `fuel` rounds
unfoldable pub spill : ℕ → ℕ → List ℕ
spill zero carry = []
spill (suc fuel) carry =
    let rest = spill fuel (carry / 256) in if carry == 0 then [] else carry % 256 ∷ rest

-- One digit of the text: `result * 58 + carry`.
unfoldable pub add_digit : List ℕ → ℕ → List ℕ
unfolding spill
add_digit [] carry = spill carry carry
add_digit (d ∷ ds) carry = (carry + 58 * d) % 256 ∷ add_digit ds ((carry + 58 * d) / 256)

-- The main loop; the error is the character.
unfoldable pub convert : Text → List ℕ → Result ℕ (List ℕ)
convert [] result = ok result
convert (ch ∷ s) result = elim (lookup alphabet ch) [
  | none ↦ err ch
  | some digit ↦ convert s (add_digit result digit)
]

unfoldable pub leading_zeros : Text → List ℕ
leading_zeros [] = []
leading_zeros (ch ∷ s) = let rest = leading_zeros s in if ch == b'1' then 0 ∷ rest else []

unfoldable pub reversed : List ℕ → List ℕ
reversed [] = []
reversed (d ∷ ds) = reversed ds ++ d ∷ []

unfoldable pub base58_decode : Text → Result ℕ (List ℕ)
unfolding convert leading_zeros reversed
base58_decode s = elim (convert s (0 ∷ [])) [
  | err ch ↦ err ch
  | ok result ↦ ok (leading_zeros s ++ reversed result)
]
