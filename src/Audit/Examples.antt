-- ===== src/Audit/Examples.antt =====
-- The audit log at concrete rows, with a digest that is one byte.
use shield_agent.Prelude.{
  ℕ, ◌+◌, ◌≡◌, ◌≢◌, refl, ◌↔◌, ◌⊎◌, true, false, List, [], ◌∷◌, Text, codes, arith, length,
}
use shield_agent.Prelude.Int.{pos}
use shield_agent.Audit.Row.{Formats, EgressLog}
use shield_agent.Audit.Store.{Db, purge_egress}
use shield_agent.Audit.Chain.{canonical_row_hash, parts, join_tab, bool_str, new_hash_chain, verify}
use shield_agent.Audit.Chain.Linked.{Linked, accepted, verify_iff}
use shield_agent.Audit.Chain.Append.{
  start, append_all, verify-append_all, new_hash_chain-append_all,
}
use shield_agent.Audit.Chain.Commitment.{Collision, Tabless, lines, tail_of-commits}
use shield_agent.Audit.Chain.Purged.{IsSplit, verify-purge_egress}
use shield_agent.Audit.Chain.Repurged.{verify-purge_egress_twice}

abbrev digest : Text → Text
digest t = (200 + length t) ∷ []

abbrev pub formats : Formats
formats = record {
  Float = ℕ;
  format_time = λ t. t ∷ [];
  itoa = λ n. codes "0";
  format_float = λ x. codes "0";
  sha256_hex = digest;
}

abbrev pub Row : Type 0
Row = EgressLog formats

abbrev pub row_at : ℕ → Row
row_at t = record {
  id = 0;
  timestamp = t;
  correlation_id = [];
  provider = codes "openai";
  model = [];
  method = codes "POST";
  protocol = codes "https";
  destination = [];
  status_code = pos 200;
  request_size = pos 0;
  response_size = pos 0;
  latency_ms = 0;
  content_class = [];
  prompt_hash = [];
  pii_detected = false;
  pii_scrubbed = false;
  policy_action = [];
  policy_rule = [];
  ai_generated_tag = true;
  error_detail = [];
  prev_hash = [];
  row_hash = [];
}

-- A row as it is stored.
abbrev stored : ℕ → ℕ → Text → Row
stored id t prev = record (row_at t) {
  id = id;
  prev_hash = prev;
  row_hash = canonical_row_hash formats prev (row_at t);
}

abbrev row1 : Row
row1 = stored 1 10 []

abbrev row2 : Row
row2 = stored 2 20 row1.row_hash

abbrev row3 : Row
row3 = stored 3 30 row2.row_hash

abbrev db3 : Db formats
db3 = record { rows = row1 ∷ row2 ∷ row3 ∷ []; anchors = []; next_id = 4 }

db3-Linked : Linked formats (codes "") db3.rows
unfolding canonical_row_hash parts
db3-Linked = (refl, refl, (refl, refl, (refl, refl, tt)))

db3_verified : (verify formats db3).success ≡ true
db3_verified = (verify_iff formats db3 refl).1 db3-Linked

verify_iff_example : ((verify formats db3).success ≡ true) ↔ Linked formats (codes "") db3.rows
verify_iff_example = verify_iff formats db3 refl

abbrev incoming : List Row
incoming = row_at 10 ∷ row_at 20 ∷ []

verify-append_all_example :
    verify formats (append_all formats (start formats) incoming).db ≡ accepted formats 0 2
verify-append_all_example = verify-append_all formats incoming

new_hash_chain-append_all_example :
    new_hash_chain formats (append_all formats (start formats) incoming).db
    ≡ (append_all formats (start formats) incoming).chain
new_hash_chain-append_all_example = new_hash_chain-append_all formats incoming

digest-Tabless : (t : Text) → Tabless (digest t)
digest-Tabless t = ((λ e. omega arith), tt)

tail_of-commits_example :
    (lines formats (codes "") db3.rows ≡ lines formats (codes "") db3.rows) ⊎ Collision formats
tail_of-commits_example =
    tail_of-commits formats digest-Tabless db3.rows db3.rows db3-Linked db3-Linked refl refl

other_hash :
    canonical_row_hash formats (canonical_row_hash formats (codes "") (row_at 10)) (row_at 20)
    ≢ canonical_row_hash formats (codes "") (row_at 10)
unfolding canonical_row_hash parts join_tab bool_str
other_hash = λ e. ground arith

-- A cutoff of 15 purges the first of the three rows, one of 25 the second, one of 99 all.
IsSplit-15 : IsSplit formats db3 1 15 (row1 ∷ []) (row2 ∷ row3 ∷ []) row1
IsSplit-15 = record {
  rows = refl;
  unpurged = refl;
  verified = db3_verified;
  numbered = (refl, (refl, (refl, tt)));
  aged = (omega arith, tt);
  fresh = (omega arith, (omega arith, tt));
  last = refl;
}

IsSplit-99 : IsSplit formats db3 1 99 (row1 ∷ row2 ∷ row3 ∷ []) [] row3
IsSplit-99 = record {
  rows = refl;
  unpurged = refl;
  verified = db3_verified;
  numbered = (refl, (refl, (refl, tt)));
  aged = (omega arith, (omega arith, (omega arith, tt)));
  fresh = tt;
  last = refl;
}

verify-purge_egress_example :
    verify formats (purge_egress formats db3 (pos 30) 50 15).0 ≡ accepted formats 1 2
verify-purge_egress_example =
    verify-purge_egress formats db3 (pos 30) 50 1 15 (row1 ∷ []) row2 (row3 ∷ []) row1 refl
      IsSplit-15

verify-purge_egress_twice_example :
    (verify formats
      (purge_egress formats (purge_egress formats db3 (pos 30) 50 15).0 (pos 30) 60 25).0).success
    ≡ false
unfolding canonical_row_hash
verify-purge_egress_twice_example =
    verify-purge_egress_twice formats db3 (pos 30) 50 60 1 15 25 (row1 ∷ []) row2 [] row3 [] row1
      row2 refl IsSplit-15 (omega arith, tt) (omega arith, tt) refl (λ e. cc)
