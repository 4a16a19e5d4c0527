-- ===== src/Audit/Writer/Shutdown.antt =====
-- What happens to the queued rows after `Close`.
use mathlib.Core.List.{append_assoc, append-nil}
use shield_agent.Prelude.{
  ℕ, ◌<◌, ◌≡◌, refl, sym, ap, ◌∙◌, Bool, true, false, List, [], ◌∷◌, ◌++◌, arith, length,
  length-append,
}
use shield_agent.Audit.Row.{Formats}
use shield_agent.Audit.Store.{Db}
use shield_agent.Audit.Writer.{
  Limits, WriteJob, Writer, new_log_writer, handle_job, Step, call, send, refuse, cancel, take,
  close, exit, Reach, here, next,
}
use shield_agent.Audit.Writer.Order.{new_log_writer-Ordered}

module _ (fm : Formats) (l : Limits) where
  pub Reach-append : {u v w : Writer fm} → Reach fm l u v → Reach fm l v w → Reach fm l u w
  Reach-append r here = r
  Reach-append r (next s t) = next (Reach-append r s) t

  -- The writer has left its loop with every queued row handled.
  pub record Drained (w t : Writer fm) : Type 0 where
    pub reached : Reach fm l w t
    pub exited : t.exited ≡ true
    pub emptied : t.buffer ≡ []
    pub all : t.handled ≡ w.handled ++ w.buffer

  drain :
      (fails : ℕ → Bool) (w : Writer fm) (jobs : List (WriteJob fm))
      → w.buffer ≡ jobs
      → w.done ≡ true
      → w.exited ≡ false
      → (t : Writer fm) × Drained w t
  unfolding handle_job
  drain fails w [] b d e = (
    record w { exited = true },
    record {
      reached = next here (exit e d b);
      exited = refl;
      emptied = b;
      all = sym (ap (λ (js : List (WriteJob fm)). w.handled ++ js) b ∙ append-nil w.handled);
    },
  )
  drain fails w (job ∷ rest) b d e =
      let (t, r) = drain fails (handle_job fm fails l w job rest) rest refl d e in
      (
        t,
        record {
          reached = Reach-append (next here (take fails job rest e b)) r.reached;
          exited = r.exited;
          emptied = r.emptied;
          all =
              r.all
              ∙ append_assoc w.handled (job ∷ []) rest
              ∙ ap (λ (js : List (WriteJob fm)). w.handled ++ js) (sym b);
        },
      )

  -- After `Close` the writer can always go on by itself, whichever inserts fail, until it has handled
  -- every row that is in the channel and has left its loop.
  pub close-Drained :
      (fails : ℕ → Bool) (w : Writer fm)
      → w.done ≡ true
      → w.exited ≡ false
      → (t : Writer fm) × Drained w t
  close-Drained fails w d e = drain fails w w.buffer refl d e

  -- Once the writer has left its loop it handles nothing, and what was sent stays sent.
  record Stopped (w u : Writer fm) : Type 0 where
    still : u.exited ≡ true
    same : u.handled ≡ w.handled
    more : (late : List (WriteJob fm)) × (u.sent ≡ w.sent ++ late)

  absurd_of : (b : Bool) → b ≡ true → b ≡ false → ⊥
  absurd_of b e f = ground arith

  step-Stopped : {w u v : Writer fm} → Step fm l u v → Stopped w u → Stopped w v
  unfolding handle_job
  step-Stopped (call job e) i = record { still = i.still; same = i.same; more = i.more }
  step-Stopped {w} (send before after job e room) i =
      let (late, sent) = i.more in
      record {
        still = i.still;
        same = i.same;
        more = (
          late ++ job ∷ [],
          ap (λ (js : List (WriteJob fm)). js ++ job ∷ []) sent
              ∙ append_assoc w.sent late (job ∷ []),
        );
      }
  step-Stopped (refuse before after job e d) i = record {
    still = i.still;
    same = i.same;
    more = i.more;
  }
  step-Stopped (cancel before after job e) i = record {
    still = i.still;
    same = i.same;
    more = i.more;
  }
  step-Stopped {w} {u} (take fails job rest e b) i = absurd (absurd_of u.exited i.still e)
  step-Stopped close i = record { still = i.still; same = i.same; more = i.more }
  step-Stopped (exit e d b) i = record { still = refl; same = i.same; more = i.more }

  Reach-Stopped : {w u : Writer fm} → w.exited ≡ true → Reach fm l w u → Stopped w u
  Reach-Stopped {w} e here = record { still = e; same = refl; more = ([], sym (append-nil w.sent)) }
  Reach-Stopped e (next r s) = step-Stopped s (Reach-Stopped e r)

  -- A caller that passed its first `select` before `Close` can still send its row after the writer
  -- has left its loop, and is told that the row is queued; no later step handles that row.
  pub send_stranded :
      (db : Db fm) (w u : Writer fm) (before after : List (WriteJob fm)) (job : WriteJob fm)
      → Reach fm l (new_log_writer fm db) w
      → w.exited ≡ true
      → w.callers ≡ before ++ job ∷ after
      → length w.buffer < l.capacity
      → Reach fm l
          (record w {
            callers = before ++ after;
            buffer = w.buffer ++ job ∷ [];
            sent = w.sent ++ job ∷ [];
          })
          u
      → length u.handled < length u.sent
  send_stranded db w u before after job r e c room later =
      let stopped = Reach-Stopped e later in
      let (late, sent) = stopped.more in
      omega (
        arith,
        ap length stopped.same,
        ap length sent,
        ap length (new_log_writer-Ordered fm l db w r).fifo,
        length-append w.handled w.buffer,
        length-append w.sent (job ∷ []),
        length-append (w.sent ++ job ∷ []) late,
      )

  -- Nobody is left to send a row.
  record Settled (w u : Writer fm) : Type 0 where
    still : u.exited ≡ true
    shut : u.done ≡ true
    alone : u.callers ≡ []
    same : u.handled ≡ w.handled
    kept : u.sent ≡ w.sent

  nil_split :
      (before after : List (WriteJob fm)) (job : WriteJob fm) → [] ≡ before ++ job ∷ after → ⊥
  nil_split [] after job e = cc
  nil_split (_ ∷ before) after job e = cc

  step-Settled : {w u v : Writer fm} → Step fm l u v → Settled w u → Settled w v
  step-Settled {w} {u} (call job e) i = absurd (absurd_of u.done i.shut e)
  step-Settled (send before after job e room) i =
      absurd (nil_split before after job (sym i.alone ∙ e))
  step-Settled (refuse before after job e d) i =
      absurd (nil_split before after job (sym i.alone ∙ e))
  step-Settled (cancel before after job e) i = absurd (nil_split before after job (sym i.alone ∙ e))
  step-Settled {w} {u} (take fails job rest e b) i = absurd (absurd_of u.exited i.still e)
  step-Settled close i = record {
    still = i.still;
    shut = refl;
    alone = i.alone;
    same = i.same;
    kept = i.kept;
  }
  step-Settled (exit e d b) i = record {
    still = refl;
    shut = i.shut;
    alone = i.alone;
    same = i.same;
    kept = i.kept;
  }

  Reach-Settled : {w u : Writer fm} → Settled w w → Reach fm l w u → Settled w u
  Reach-Settled i here = i
  Reach-Settled i (next r s) = step-Settled s (Reach-Settled i r)

  -- A row that is sent before the writer leaves its loop is handled: if no caller is left then, all
  -- rows that were ever accepted have been handled, at that time and ever after.
  pub exit_complete :
      (db : Db fm) (w u : Writer fm)
      → Reach fm l (new_log_writer fm db) w
      → w.exited ≡ true
      → w.done ≡ true
      → w.buffer ≡ []
      → w.callers ≡ []
      → Reach fm l w u
      → u.handled ≡ u.sent
  exit_complete db w u r e d b c later =
      let settled =
        Reach-Settled (record { still = e; shut = d; alone = c; same = refl; kept = refl }) later in
      settled.same
      ∙ sym (append-nil w.handled)
      ∙ sym (ap (λ (js : List (WriteJob fm)). w.handled ++ js) b)
      ∙ sym (new_log_writer-Ordered fm l db w r).fifo
      ∙ sym settled.kept
