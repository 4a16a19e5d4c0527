-- ===== src/Audit/Writer/Order.antt =====
-- What went through the channel comes out of it, in order.
use mathlib.Core.List.{append_assoc}
use shield_agent.Prelude.{
  ◌≤◌, ◌≡◌, refl, sym, ap, ◌∙◌, List, [], ◌∷◌, ◌++◌, arith, length, length-append,
}
use shield_agent.Audit.Row.{Formats}
use shield_agent.Audit.Store.{Db}
use shield_agent.Audit.Writer.{
  Limits, WriteJob, Writer, new_log_writer, handle_job, queue_length, Step, call, send, refuse,
  cancel, take, close, exit, Reach, here, next,
}

module _ (fm : Formats) (l : Limits) where
  pub record Ordered (w : Writer fm) : Type 0 where
    pub fifo : w.sent ≡ w.handled ++ w.buffer
    pub room : queue_length fm w ≤ l.capacity

  shorter :
      (w : Writer fm) (job : WriteJob fm) (rest : List (WriteJob fm))
      → w.buffer ≡ job ∷ rest
      → length w.buffer ≤ l.capacity
      → length rest ≤ l.capacity
  shorter w job rest b h = omega (arith, ap length b)

  step-Ordered : {w u : Writer fm} → Step fm l w u → Ordered w → Ordered u
  unfolding handle_job queue_length
  step-Ordered {w} (call job e) o = record { fifo = o.fifo; room = o.room }
  step-Ordered {w} (send before after job e room) o = record {
    fifo =
        ap (λ (js : List (WriteJob fm)). js ++ job ∷ []) o.fifo
        ∙ append_assoc w.handled w.buffer (job ∷ []);
    room = omega (arith, length-append w.buffer (job ∷ []));
  }
  step-Ordered {w} (refuse before after job e d) o = record { fifo = o.fifo; room = o.room }
  step-Ordered {w} (cancel before after job e) o = record { fifo = o.fifo; room = o.room }
  step-Ordered {w} (take fails job rest e b) o = record {
    fifo =
        o.fifo
        ∙ ap (λ (js : List (WriteJob fm)). w.handled ++ js) b
        ∙ sym (append_assoc w.handled (job ∷ []) rest);
    room = shorter w job rest b o.room;
  }
  step-Ordered {w} close o = record { fifo = o.fifo; room = o.room }
  step-Ordered {w} (exit e d b) o = record { fifo = o.fifo; room = o.room }

  pub Reach-Ordered : {w u : Writer fm} → Reach fm l w u → Ordered w → Ordered u
  Reach-Ordered here o = o
  Reach-Ordered (next r s) o = step-Ordered s (Reach-Ordered r o)

  -- At any time the rows that were accepted are those that the writer has handled and, after them,
  -- those in the channel, in one order; and the channel never holds more than its capacity.
  pub new_log_writer-Ordered :
      (db : Db fm) (w : Writer fm) → Reach fm l (new_log_writer fm db) w → Ordered w
  unfolding queue_length
  new_log_writer-Ordered db w r = Reach-Ordered r (record { fifo = refl; room = omega arith })
