-- ===== src/Telemetry/Batches.antt =====
-- The batches that the collector sends, compared with those of a bounded queue. `Record` and `Run`
-- take the lock for one section each, which other calls may come between.
use shield_agent.Prelude.{
  ◌+◌, ◌-◌, ◌%◌, ◌==◌, ◌≡◌, refl, ap, ◌∙◌, true, List, [], ◌∷◌, Text, arith, inl, inr, Bool-cases,
}
use mathlib.Core.Path.{ap₂}
use shield_agent.Prelude.Int.{ℤ}
use shield_agent.Telemetry.{
  Event, Collector, ring_size, put, drain, flush, new_collector, events_from,
}
use shield_agent.Telemetry.Buffer.{push, IsValid, put-IsValid, flush-IsValid, drain-put}

module _ (F : Type 0) where
  -- The locked section of `Record`, for an event that is hashed, and that of `flush`
  pub data Section : Type 0 where
    puts : Event F → Section
    flushes : Section

  unfoldable pub step : Collector F → Section → Collector F × List (Event F)
  step c (puts e) = (put F c e, [])
  step c flushes = flush F c

  unfoldable pub batches : Collector F → List Section → List (List (Event F))
  unfolding step
  batches c [] = []
  batches c (s ∷ ss) = (step c s).1 ∷ batches (step c s).0 ss

  unfoldable pub queue_step : List (Event F) → Section → List (Event F) × List (Event F)
  queue_step q (puts e) = (push F q e, [])
  queue_step q flushes = ([], q)

  unfoldable pub queue_batches : List (Event F) → List Section → List (List (Event F))
  unfolding queue_step
  queue_batches q [] = []
  queue_batches q (s ∷ ss) = (queue_step q s).1 ∷ queue_batches (queue_step q s).0 ss

  drain_zero : (c : Collector F) → c.count ≡ 0 → drain F c ≡ []
  unfolding drain events_from
  drain_zero c e = ap (λ n. events_from F c.ring ((c.head + ring_size - n) % ring_size) 0 n) e

  flush_refines : (c : Collector F) → ((flush F c).1 ≡ drain F c) × (drain F (flush F c).0 ≡ [])
  unfolding flush
  flush_refines c = elim (Bool-cases (c.count == 0)) [
    | inl nothing ↦ ground (arith, drain_zero c (ground arith))
    | inr some_left ↦ ground (arith, drain_zero (record c { head = 0; count = 0 }) refl)
  ]

  step-IsValid : (c : Collector F) (s : Section) → IsValid F c → IsValid F (step c s).0
  unfolding step
  step-IsValid c (puts e) v = put-IsValid F c e v
  step-IsValid c flushes v = flush-IsValid F c v

  step_refines :
      (c : Collector F) (s : Section)
      → IsValid F c
      → ((step c s).1 ≡ (queue_step (drain F c) s).1)
        × (drain F (step c s).0 ≡ (queue_step (drain F c) s).0)
  unfolding step queue_step
  step_refines c (puts e) v = (refl, drain-put F c e v)
  step_refines c flushes v = flush_refines c

  batches-drain :
      (ss : List Section) (c : Collector F)
      → IsValid F c
      → batches c ss ≡ queue_batches (drain F c) ss
  unfolding batches queue_batches
  batches-drain [] c v = refl
  batches-drain (s ∷ ss) c v =
      let (sent, left) = step_refines c s v in
      ap₂ (λ (b : List (Event F)) (bs : List (List (Event F))). b ∷ bs) sent
        (batches-drain ss (step c s).0 (step-IsValid c s v) ∙ ap (λ q. queue_batches q ss) left)

  -- However the calls of `Record` and `flush` interleave, a new collector sends the batches of a queue
  -- that holds at most as many events as the ring has places, and then forgets its oldest.
  pub batches_refines :
      (zero_event : Event F) (interval : ℤ) (salt : Text) (ss : List Section)
      → batches (new_collector F zero_event true interval salt) ss ≡ queue_batches [] ss
  unfolding new_collector
  batches_refines zero_event interval salt ss =
      batches-drain ss (new_collector F zero_event true interval salt)
        (record { head_in = omega arith; count_in = omega arith })
      ∙ ap (λ q. queue_batches q ss)
          (drain_zero (new_collector F zero_event true interval salt) refl)
