-- ===== src/Auth/Base58/Value.antt =====
-- The number that a base58 text and its bytes denote.
use shield_agent.Prelude.{
  ℕ, zero, suc, ◌+◌, ◌*◌, ◌/◌, ◌≤◌, ◌≡◌, inl, inr, refl, sym, ap, ◌∙◌, Option, none, some, List, [],
  ◌∷◌, ◌++◌, Text, arith, Option-cases,
}
use shield_agent.Prelude.Result.{Result, ok, Result-cases}
use shield_agent.Auth.Base58.{
  alphabet, lookup, spill, add_digit, convert, leading_zeros, reversed, base58_decode,
}

-- The number of bytes that come most significant first, after a start.
abbrev pub number_from : ℕ → List ℕ → ℕ
number_from start [] = start
number_from start (b ∷ bs) = number_from (256 * start + b) bs

abbrev pub digit_of : Option ℕ → ℕ
digit_of none = 0
digit_of (some d) = d

-- The number of a text in base 58, after a start.
abbrev pub base58_from : ℕ → Text → ℕ
base58_from start [] = start
base58_from start (ch ∷ s) = base58_from (58 * start + digit_of (lookup alphabet ch)) s

-- The number of digits that come least significant first.
abbrev value : List ℕ → ℕ
value [] = 0
value (d ∷ ds) = d + 256 * value ds

value-spill : (fuel carry : ℕ) → carry ≤ fuel → value (spill fuel carry) ≡ carry
unfolding spill
value-spill zero carry h = omega arith
value-spill (suc fuel) carry h = ground (arith, value-spill fuel (carry / 256))

value-add_digit : (ds : List ℕ) (carry : ℕ) → value (add_digit ds carry) ≡ 58 * value ds + carry
unfolding add_digit
value-add_digit [] carry = ground (arith, value-spill carry carry)
value-add_digit (d ∷ ds) carry = ground (arith, value-add_digit ds ((carry + 58 * d) / 256))

ok_lem : (ds out : List ℕ) → Path (Result ℕ (List ℕ)) (ok ds) (ok out) → ds ≡ out
ok_lem ds out e = cc

value-convert :
    (s : Text) (ds out : List ℕ) → convert s ds ≡ ok out → value out ≡ base58_from (value ds) s
unfolding convert
value-convert [] ds out e = ap value (sym (ok_lem ds out e))
value-convert (ch ∷ s) ds out e = elim (Option-cases (lookup alphabet ch)) [
  | inl unknown ↦ ground (arith)
  | inr (d, known) ↦
      value-convert s (add_digit ds d) out (rw (known, convert) at e)
      ∙ rw (value-add_digit ds d) (rw known refl)
]

number_from-append :
    (start : ℕ) (xs ys : List ℕ)
    → number_from start (xs ++ ys) ≡ number_from (number_from start xs) ys
number_from-append start [] ys = refl
number_from-append start (x ∷ xs) ys = number_from-append (256 * start + x) xs ys

number_from-reversed : (ds : List ℕ) → number_from 0 (reversed ds) ≡ value ds
unfolding reversed
number_from-reversed [] = refl
number_from-reversed (d ∷ ds) =
    number_from-append 0 (reversed ds) (d ∷ []) ∙ ground (arith, number_from-reversed ds)

number_from-leading_zeros : (s : Text) → number_from 0 (leading_zeros s) ≡ 0
unfolding leading_zeros
number_from-leading_zeros [] = refl
number_from-leading_zeros (ch ∷ s) = ground (arith, number_from-leading_zeros s)

-- A text that decodes denotes, in base 58, the number that its bytes denote.
pub base58_decode-value :
    (s : Text) (out : List ℕ) → base58_decode s ≡ ok out → number_from 0 out ≡ base58_from 0 s
unfolding base58_decode
base58_decode-value s out e = elim (Result-cases (convert s (0 ∷ []))) [
  | inl (ds, done) ↦
      ap (number_from 0)
        (sym (ok_lem (leading_zeros s ++ reversed ds) out (rw (done, base58_decode) at e)))
      ∙ number_from-append 0 (leading_zeros s) (reversed ds)
      ∙ ap (λ n. number_from n (reversed ds)) (number_from-leading_zeros s)
      ∙ number_from-reversed ds
      ∙ value-convert s (0 ∷ []) ds done
  | inr (ch, unknown) ↦ ground arith
]
