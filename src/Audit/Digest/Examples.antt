-- ===== src/Audit/Digest/Examples.antt =====
-- The digest file with a JSON that is one byte.
use shield_agent.Prelude.{ℕ, ◌≡◌, ◌≢◌, refl, [], ◌∷◌, Text, codes, arith}
use shield_agent.Prelude.{Option, none, some, is_empty}
use shield_agent.Audit.Digest.{DigestEntry, read_digest_file}
use shield_agent.Audit.Digest.RoundTrip.{IsJson, write_all, read_digest_file-write_all}

abbrev entry : ℕ → DigestEntry
entry t = record { timestamp = t; tail = codes "ab"; row_count = 3; anchors = 1 }

-- The text of an entry is its timestamp only.
abbrev marshal : DigestEntry → Text
marshal e = e.timestamp ∷ []

abbrev unmarshal : Text → Option DigestEntry
unmarshal [] = none
unmarshal (t ∷ _) = some (entry t)

IsJson-entry : (t : ℕ) → t ≢ 10 → IsJson marshal unmarshal (entry t)
unfolding is_empty
IsJson-entry t h = record { one_line = (h, tt); not_empty = refl; reads = refl }

read_digest_file-write_all_example :
    read_digest_file marshal unmarshal (write_all marshal unmarshal [] (entry 20 ∷ entry 30 ∷ []))
    ≡ some (entry 20 ∷ entry 30 ∷ [])
read_digest_file-write_all_example =
    read_digest_file-write_all marshal unmarshal (entry 20 ∷ entry 30 ∷ []) (
      IsJson-entry 20 (λ e. absurd (omega arith)),
      (IsJson-entry 30 (λ e. absurd (omega arith)), tt),
    )
