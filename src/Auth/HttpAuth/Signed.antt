-- ===== src/Auth/HttpAuth/Signed.antt =====
-- Which HTTP requests are passed on, and what a signature covers.
use mathlib.Core.List.{append_assoc}
use shield_agent.Prelude.{
  ◌≡◌, ◌≢◌, ap, ◌⊎◌, inl, inr, ◌↔◌, true, none, some, [], ◌∷◌, ◌++◌, Text, codes, All, append-cut,
  =ₜ_iff, is_empty, is_empty_iff, arith, Bool-cases, Option-cases,
}
use shield_agent.Prelude.Result.{ok, Result-cases}
use shield_agent.Auth.Middleware.{Crypto}
use shield_agent.Auth.HttpAuth.{
  Config, HttpCall, signed_text, hash_request, resolve_agent, judge, judge_body, agent_id_of,
  sig_hex_of,
}

-- The agent has a key, the body can be read, and the signature is one of the request under the key.
pub record IsSigned (c : Crypto) (cfg : Config) (r : HttpCall) : Type 0 where
  pub key : Text
  pub body : Text
  pub sig : Text
  pub known : resolve_agent cfg (agent_id_of cfg r) ≡ ok key
  pub read : r.body ≡ some body
  pub decoded : c.hex_decode (sig_hex_of cfg r) ≡ some sig
  pub valid : c.verify key (hash_request c r.method r.path body) sig ≡ true

-- A header of the two is missing or empty.
abbrev pub IsUnsigned : Config → HttpCall → Type 0
IsUnsigned cfg r = (agent_id_of cfg r ≡ []) ⊎ (sig_hex_of cfg r ≡ [])

module _ (c : Crypto) (cfg : Config) (r : HttpCall) where
  unsigned_passes : IsUnsigned cfg r → (judge c cfg r).refusal ≡ none
  unfolding judge
  unsigned_passes (inl e) = ground (arith, (is_empty_iff (agent_id_of cfg r)).1 e)
  unsigned_passes (inr e) = ground (arith, (is_empty_iff (sig_hex_of cfg r)).1 e)

  signed_passes : IsSigned c cfg r → (judge c cfg r).refusal ≡ none
  unfolding judge judge_body
  signed_passes s =
      let known = s.known in
      let read = s.read in let decoded = s.decoded in let valid = s.valid in ground arith

  passes :
      cfg.mode ≡ codes "closed"
      → (judge c cfg r).refusal ≡ none
      → IsUnsigned cfg r ⊎ IsSigned c cfg r
  unfolding judge judge_body
  passes closed h =
      let mode = (=ₜ_iff cfg.mode (codes "closed")).1 closed in
      elim (Bool-cases (is_empty (agent_id_of cfg r))) [
        | inl no_id ↦ inl (inl ((is_empty_iff (agent_id_of cfg r)).0 no_id))
        | inr id ↦ elim (Bool-cases (is_empty (sig_hex_of cfg r))) [
          | inl no_sig ↦ inl (inr ((is_empty_iff (sig_hex_of cfg r)).0 no_sig))
          | inr sig ↦ elim (Result-cases (resolve_agent cfg (agent_id_of cfg r))) [
            | inr (e, unknown) ↦ absurd (ground arith)
            | inl (key, known) ↦ elim (Option-cases r.body) [
              | inl unread ↦ absurd (ground arith)
              | inr (body, read) ↦ elim (Option-cases (c.hex_decode (sig_hex_of cfg r))) [
                | inl undecoded ↦ absurd (ground arith)
                | inr (code, decoded) ↦
                    elim (Bool-cases (c.verify key (hash_request c r.method r.path body) code)) [
                      | inr invalid ↦ absurd (ground arith)
                      | inl valid ↦ inr (record {
                        key = key;
                        body = body;
                        sig = code;
                        known = known;
                        read = read;
                        decoded = decoded;
                        valid = valid;
                      })
                    ]
              ]
            ]
          ]
        ]
      ]

  -- In the mode closed a request is passed on exactly if it is unsigned, or signed with a signature
  -- that verifies under the agent's key.
  pub judge-closed_iff :
      cfg.mode ≡ codes "closed"
      → ((judge c cfg r).refusal ≡ none) ↔ (IsUnsigned cfg r ⊎ IsSigned c cfg r)
  judge-closed_iff closed =
      (passes closed, λ h. elim h [ inl u ↦ unsigned_passes u | inr s ↦ signed_passes s ])

-- The signed text determines the method, the path and the body, where no method has a space and no
-- path has a line feed.
pub signed_text-injective :
    (method method' path path' body body' : Text)
    → All (λ b. b ≢ 32) method
    → All (λ b. b ≢ 32) method'
    → All (λ b. b ≢ 10) path
    → All (λ b. b ≢ 10) path'
    → signed_text method path body ≡ signed_text method' path' body'
    → (method ≡ method') × (path ≡ path') × (body ≡ body')
signed_text-injective method method' path path' body body' m m' p p' e =
    let (same, rest) =
      append-cut 32 method method' (path ++ 10 ∷ body) (path' ++ 10 ∷ body') m m' e in
    let (same_path, same_body) = append-cut 10 path path' body body' p p' rest in
    (same, same_path, same_body)

-- A path is decoded, so it may have a line feed, and then two requests have one hash: what follows
-- the line feed may stand in the path or in the body.
pub hash_request-shift :
    (c : Crypto) (method path rest body : Text)
    → hash_request c method (path ++ 10 ∷ rest) body
      ≡ hash_request c method path (rest ++ 10 ∷ body)
unfolding hash_request
hash_request-shift c method path rest body =
    ap c.sha256 (ap (λ (t : Text). method ++ 32 ∷ t) (append_assoc path (10 ∷ rest) (10 ∷ body)))
