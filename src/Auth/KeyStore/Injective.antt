-- ===== src/Auth/KeyStore/Injective.antt =====
-- A key has one DID.
use mathlib.Core.Path.{subst}
use shield_agent.Prelude.{
  ℕ, ◌≡◌, ◌≢◌, refl, sym, ap, ◌∙◌, inl, inr, true, List, [], ◌∷◌, ◌++◌, Text, has_prefix, length,
  drop, arith, Bool-cases,
}
use shield_agent.Prelude.Result.{Result, ok, err, Result-cases}
use shield_agent.Auth.Base58.{base58_decode, convert, leading_zeros, reversed}
use shield_agent.Auth.Base58.Value.{number_from, base58_from, base58_decode-value}
use shield_agent.Auth.Base58.Unique.{Known, Leads, base58_from-injective, convert-Known}
use shield_agent.Auth.KeyStore.{did_prefix, resolve_did_key}
use shield_agent.Auth.KeyStore.Resolution.{key_of_lem}

has_prefix_split : (s p : Text) → has_prefix s p ≡ true → s ≡ p ++ drop (length p) s
unfolding has_prefix
has_prefix_split s [] h = refl
has_prefix_split [] (b ∷ p) h = cc
has_prefix_split (a ∷ s) (b ∷ p) h = ground (arith, has_prefix_split s p)

decode-Known : (s : Text) (raw : List ℕ) → base58_decode s ≡ ok raw → Known s
unfolding base58_decode
decode-Known s raw e = elim (Result-cases (convert s (0 ∷ []))) [
  | inl (ds, done) ↦ convert-Known s (0 ∷ []) ds done
  | inr (ch, unknown) ↦ elim (clash ch raw (rw (unknown, base58_decode) at e)) [ ]
]
  where
    clash : (ch : ℕ) (out : List ℕ) → Path (Result ℕ (List ℕ)) (err ch) (ok out) → ⊥
    clash ch out e = cc

heads : (x y : ℕ) (xs ys : List ℕ) → Path (Result ℕ (List ℕ)) (ok (x ∷ xs)) (ok (y ∷ ys)) → x ≡ y
heads x y xs ys e = cc

decode-nil : base58_decode [] ≡ ok (0 ∷ [])
unfolding base58_decode convert leading_zeros reversed
decode-nil = refl

leading_one : (s : Text) → leading_zeros (b'1' ∷ s) ≡ 0 ∷ leading_zeros s
unfolding leading_zeros
leading_one s = refl

decode-one :
    (s : Text) (raw : List ℕ)
    → base58_decode (b'1' ∷ s) ≡ ok raw
    → (rest : List ℕ) × (raw ≡ 0 ∷ rest)
unfolding base58_decode
decode-one s raw e = elim (Result-cases (convert (b'1' ∷ s) (0 ∷ []))) [
  | inl (ds, done) ↦ (
    leading_zeros s ++ reversed ds,
    sym (same (leading_zeros (b'1' ∷ s) ++ reversed ds) raw (rw (done, base58_decode) at e))
        ∙ ap (λ (l : List ℕ). l ++ reversed ds) (leading_one s),
  )
  | inr (ch, unknown) ↦ elim (clash ch raw (rw (unknown, base58_decode) at e)) [ ]
]
  where
    clash : (ch : ℕ) (out : List ℕ) → Path (Result ℕ (List ℕ)) (err ch) (ok out) → ⊥
    clash ch out e = cc

    same : (x y : List ℕ) → Path (Result ℕ (List ℕ)) (ok x) (ok y) → x ≡ y
    same x y e = cc

-- The empty text and a text that starts with the digit zero decode to a first byte of zero.
decode-Leads : (s : Text) (b : ℕ) (raw : List ℕ) → base58_decode s ≡ ok (b ∷ raw) → 0 ≢ b → Leads s
decode-Leads [] b raw e other = other (heads 0 b [] raw (sym decode-nil ∙ e))
decode-Leads (ch ∷ s) b raw e other = λ one.
    let (rest, zeros) =
      decode-one s (b ∷ raw) (subst (λ c. base58_decode (c ∷ s) ≡ ok (b ∷ raw)) one e) in
    other (first zeros)
  where
    first : {rest : List ℕ} → Path (List ℕ) (b ∷ raw) (0 ∷ rest) → 0 ≡ b
    first z = cc

record Decoded (did key : Text) : Type 0 where
  prefixed : has_prefix did did_prefix ≡ true
  known : Known (drop (length did_prefix) did)
  leads : Leads (drop (length did_prefix) did)
  number : base58_from 0 (drop (length did_prefix) did) ≡ number_from 0 (237 ∷ 1 ∷ key)

not_zero : Path ℕ 0 237 → ⊥
not_zero = λ e. omega arith

resolve_did_key-Decoded : (did key : Text) → resolve_did_key did ≡ ok key → Decoded did key
unfolding resolve_did_key
resolve_did_key-Decoded did key e = elim (Bool-cases (has_prefix did did_prefix)) [
  | inr other ↦ ground arith
  | inl here ↦ elim (Result-cases (base58_decode (drop (length did_prefix) did))) [
    | inr (ch, bad) ↦ ground arith
    | inl (raw, good) ↦
        let (sized, bytes) = key_of_lem raw key (rw good at (rw (here, resolve_did_key) at e)) in
        let decoded = subst (λ l. base58_decode (drop (length did_prefix) did) ≡ ok l) bytes good in
        record {
          prefixed = here;
          known = decode-Known (drop (length did_prefix) did) raw good;
          leads = decode-Leads (drop (length did_prefix) did) 237 (1 ∷ key) decoded not_zero;
          number =
              sym (base58_decode-value (drop (length did_prefix) did) raw good)
              ∙ ap (number_from 0) bytes;
        }
  ]
]

-- Two DIDs that resolve to one key are the same text.
pub resolve_did_key-injective :
    (did did' key : Text)
    → resolve_did_key did ≡ ok key
    → resolve_did_key did' ≡ ok key
    → did ≡ did'
resolve_did_key-injective did did' key e e' =
    let d = resolve_did_key-Decoded did key e in
    let d' = resolve_did_key-Decoded did' key e' in
    has_prefix_split did did_prefix d.prefixed
    ∙ ap (λ (t : Text). did_prefix ++ t)
        (base58_from-injective (drop (length did_prefix) did) (drop (length did_prefix) did')
          d.known d'.known d.leads d'.leads (d.number ∙ sym d'.number))
    ∙ sym (has_prefix_split did' did_prefix d'.prefixed)
