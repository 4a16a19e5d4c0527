-- ===== src/Auth/KeyStore/Resolution.antt =====
-- What the key stores answer.
use shield_agent.Prelude.{
  ℕ, ◌+◌, ◌≡◌, sym, ap, ◌∙◌, inl, inr, true, none, List, [], ◌∷◌, Text, =ₜ_refl, if◌then◌else◌,
  has_prefix, length, drop, ltb, arith, Bool-cases,
}
use shield_agent.Prelude.Map.{Map}
use shield_agent.Prelude.Result.{Result, ok, Result-cases}
use shield_agent.Auth.Base58.{base58_decode}
use shield_agent.Auth.Base58.Value.{number_from, base58_from, base58_decode-value}
use shield_agent.Auth.KeyStore.{
  KeyError, CacheEntry, cached_public_key, did_prefix, key_of, resolve_did_key,
}

pub key_of_lem :
    (raw key : List ℕ) → key_of raw ≡ ok key → (length key ≡ 32) × (raw ≡ 237 ∷ 1 ∷ key)
key_of_lem [] key e = cc
key_of_lem (_ ∷ []) key e = cc
key_of_lem (a ∷ b ∷ rest) key e = ground arith

-- A DID that resolves denotes, in base 58 after its prefix, the number whose bytes are the
-- multicodec prefix 0xed01 and the key, and the key has 32 bytes.
pub resolve_did_key-value :
    (did key : Text)
    → resolve_did_key did ≡ ok key
    → (has_prefix did did_prefix ≡ true)
      × (length key ≡ 32)
      × (base58_from 0 (drop (length did_prefix) did) ≡ number_from 0 (237 ∷ 1 ∷ key))
unfolding resolve_did_key
resolve_did_key-value did key e = elim (Bool-cases (has_prefix did did_prefix)) [
  | inr other ↦ ground arith
  | inl here ↦ elim (Result-cases (base58_decode (drop (length did_prefix) did))) [
    | inr (ch, bad) ↦ ground arith
    | inl (raw, good) ↦
        let (sized, bytes) = key_of_lem raw key (rw good at (rw (here, resolve_did_key) at e)) in
        (
          here,
          sized,
          sym (base58_decode-value (drop (length did_prefix) did) raw good)
              ∙ ap (number_from 0) bytes,
        )
  ]
]

-- An agent that is not in the cache is looked up in the inner store; a second lookup gives the
-- same answer until the time to live has passed, whatever the inner store would answer by then, and
-- asks the inner store again from then on.
pub cached_public_key_twice :
    (inner later : Text → Result KeyError Text) (ttl now after : ℕ) (cache : Map CacheEntry)
    (agent_id : Text)
    → cache agent_id ≡ none
    → (cached_public_key later ttl after
        (cached_public_key inner ttl now cache agent_id).cache
        agent_id).answer
      ≡ (if ltb after (now + ttl) then inner agent_id else later agent_id)
unfolding cached_public_key
cached_public_key_twice inner later ttl now after cache agent_id e =
    ground (arith, =ₜ_refl agent_id)
