-- ===== src/Auth/Middleware/Authenticity.antt =====
-- When a request counts as authentic, and what each mode does with the others.
use mathlib.Core.Path.{fun_ext, subst}
use shield_agent.Prelude.{
  ◌≡◌, refl, sym, ◌↔◌, true, false, Option, some, Text, codes, ◌=ₜ◌, =ₜ_iff, is_empty, arith,
}
use shield_agent.Prelude.Map.{Map, insert, delete}
use shield_agent.Prelude.Result.{ok}
use shield_agent.Jsonrpc.{Request}
use shield_agent.AuthResult.{AuthResult}
use shield_agent.Auth.Middleware.{
  Json, Crypto, AuthMiddleware, extract_auth, hash_payload, is_blocked_did, resolve,
  check_signature, check_claims, process_request, signature_key,
}

closed_false : (m : Text) → m ≡ codes "verified" → (m =ₜ codes "closed") ≡ false
unfolding ◌=ₜ◌
closed_false m e = subst (λ t. (t =ₜ codes "closed") ≡ false) (sym e) refl

delete-insert : (k v : Text) (m : Map Text) → delete k (insert k v m) ≡ delete k m
delete-insert k v m = fun_ext (λ i. ground arith)

module _ (j : Json) (c : Crypto) (a : AuthMiddleware) where
  -- The request names an agent that is not blocked and whose key accepts the signature of the
  -- request's payload.
  abbrev pub IsAuthentic : Request → Type 0
  IsAuthentic req =
      (is_empty (extract_auth j req).agent_id ≡ false)
      × (is_empty (extract_auth j req).sig_hex ≡ false)
      × (is_blocked_did a (extract_auth j req).agent_id ≡ false)
      × ((key : Text) × (bytes : Text) × (resolve a (extract_auth j req).agent_id ≡ ok key)
          × (c.hex_decode (extract_auth j req).sig_hex ≡ some bytes)
          × (c.verify key (hash_payload j c req) bytes ≡ true))

  -- In the mode closed a request is passed on exactly if it is authentic, and then unchanged: it
  -- names an agent that is not blocked and whose key accepts the signature of its payload. The key is
  -- the one that the name holds if it is a did:key, and else the one that the key store has for it.
  pub process_request-closed_iff :
      (req out : Request) (ar : Option AuthResult)
      → a.mode ≡ codes "closed"
      → ((process_request j c a req ar).answer ≡ ok out) ↔ ((out ≡ req) × IsAuthentic req)
  unfolding process_request check_claims check_signature
  process_request-closed_iff req out ar mode = ground (arith, =ₜ_iff a.mode (codes "closed"))

  -- In every mode the callback is told that a request is verified exactly if it is authentic: it
  -- names an agent that is not blocked and whose key accepts the signature of its payload.
  pub process_request-verified_iff :
      (req : Request) (ar : Option AuthResult)
      → ((process_request j c a req ar).on_auth ≡ codes "verified") ↔ IsAuthentic req
  unfolding process_request check_claims check_signature
  process_request-verified_iff req ar = ground arith

  -- In the mode verified a request is passed on unchanged exactly if it names an agent and a
  -- signature and the agent is not a blocked DID, whether or not the signature verifies.
  pub process_request-mode_verified_iff :
      (req : Request) (ar : Option AuthResult)
      → a.mode ≡ codes "verified"
      → ((process_request j c a req ar).answer ≡ ok req) ↔ (
          (is_empty (extract_auth j req).agent_id ≡ false)
          × (is_empty (extract_auth j req).sig_hex ≡ false)
          × (is_blocked_did a (extract_auth j req).agent_id ≡ false))
  unfolding process_request check_claims check_signature
  process_request-mode_verified_iff req ar mode =
      ground (arith, closed_false a.mode mode, =ₜ_iff a.mode (codes "verified"))

module _ (j : Json) (c : Crypto) where
  -- Two requests of one method, whose params read as objects that differ in the signature that the
  -- second has added, are hashed alike, if the object without the signature can be written.
  pub hash_payload-signature :
      (req signed : Request) (m : Map Text) (sig : Text)
      → signed.method ≡ req.method
      → is_empty req.params ≡ false
      → is_empty signed.params ≡ false
      → j.as_object req.params ≡ some m
      → j.as_object signed.params ≡ some (insert signature_key sig m)
      → (text : Text) → j.write_object (delete signature_key m) ≡ some text
      → hash_payload j c signed ≡ hash_payload j c req
  unfolding hash_payload
  hash_payload-signature req signed m sig same e f g h text w =
      ground (arith, delete-insert signature_key sig m)
