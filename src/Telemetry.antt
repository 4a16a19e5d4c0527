-- ===== src/Telemetry.antt =====
-- The collector of internal/telemetry/collector.go. The ring is a function on its indices; `Float` is
-- the type of latencies, and `flips` says for which of the events of a batch `rand.Float64` is below
-- the probability of a flip. What `send` does with a batch is outside the model.
pub mod Buffer
pub mod Batches
mod Examples
use shield_agent.Prelude.{
  ℕ, zero, suc, ◌+◌, ◌-◌, ◌*◌, ◌%◌, ◌==◌, Bool, true, false, not, List, [], ◌∷◌, ◌++◌, Text,
  if◌then◌else◌, ltb, leb,
}
use shield_agent.Prelude.Int.{ℤ, positive, pos_part}

abbrev pub ring_size : ℕ
ring_size = 10_000

module _ (Float : Type 0) where
  pub record Event : Type 0 where
    pub agent_id_hash : Text
    pub timestamp : ℕ
    pub method : Text
    pub direction : Text
    pub success : Bool
    pub latency_ms : Float
    pub payload_size_bytes : ℕ
    pub auth_status : Text
    pub error_code : Text

  pub record Collector : Type 0 where
    pub enabled : Bool
    pub batch_interval : ℕ
    pub salt : Text
    pub ring : ℕ → Event
    pub head : ℕ
    pub count : ℕ

  -- `New`; `zero_event` is what `make` fills the ring with.
  unfoldable pub new_collector : Event → Bool → ℤ → Text → Collector
  new_collector zero_event enabled batch_interval_sec salt = record {
    enabled = enabled;
    batch_interval =
        (if positive batch_interval_sec then pos_part batch_interval_sec else 60) * 1_000_000_000;
    salt = salt;
    ring = λ _. zero_event;
    head = 0;
    count = 0;
  }

  abbrev pub set : (ℕ → Event) → ℕ → Event → ℕ → Event
  set ring i e j = if i == j then e else ring j

  abbrev pub hashed : (Text → Text) → Collector → Event → Event
  hashed sha256_hex c e = record e { agent_id_hash = sha256_hex (c.salt ++ e.agent_id_hash) }

  -- What `Record` does under the lock, for an event that is hashed.
  unfoldable pub put : Collector → Event → Collector
  put c e = record c {
    ring = set c.ring c.head e;
    head = (c.head + 1) % ring_size;
    count = if ltb c.count ring_size then c.count + 1 else c.count;
  }

  unfoldable pub should_flush : Collector → Bool
  should_flush c = leb ring_size c.count

  -- `events[i] = c.ring[(start+i)%ringSize]`, from an index on
  unfoldable pub events_from : (ℕ → Event) → ℕ → ℕ → ℕ → List Event
  events_from ring start i zero = []
  events_from ring start i (suc n) =
      ring ((start + i) % ring_size) ∷ events_from ring start (i + 1) n

  -- `head - count + ringSize` is not negative, since `count` is at most the size.
  unfoldable pub drain : Collector → List Event
  unfolding events_from
  drain c = events_from c.ring ((c.head + ring_size - c.count) % ring_size) 0 c.count

  -- What `flush` does under the lock: the batch and the emptied ring.
  unfoldable pub flush : Collector → Collector × List Event
  unfolding drain
  flush c = if c.count == 0 then (c, []) else (record c { head = 0; count = 0 }, drain c)

  unfoldable pub apply_dp : List Bool → List Event → List Event
  apply_dp flips [] = []
  apply_dp [] (e ∷ es) = e ∷ es
  apply_dp (flip ∷ flips) (e ∷ es) =
      (if flip then record e { success = not e.success } else e) ∷ apply_dp flips es

  abbrev pub if_full : Collector → Collector × List Event
  if_full c = if should_flush c then flush c else (c, [])

  -- `Record`, with no other call between the lock's release and the flush
  unfoldable pub record_event : (Text → Text) → Collector → Event → Collector × List Event
  unfolding put should_flush flush
  record_event sha256_hex c e =
      if c.enabled then if_full (put c (hashed sha256_hex c e)) else (c, [])
