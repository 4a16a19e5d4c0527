-- ===== src/Audit/Writer/Stored.antt =====
-- What the writer makes of the rows that went through the channel: which of them the database holds.
use mathlib.Core.Path.{subst}
use mathlib.Core.List.{append-nil}
use shield_agent.Prelude.{
  ℕ, ◌≤◌, ◌≡◌, refl, sym, ap, ◌∙◌, inl, inr, Bool, true, false, not, List, [], ◌∷◌, ◌++◌, arith,
  length, length-append, count_if, count_if-append,
}
use shield_agent.Audit.Row.{Formats, EgressLog}
use shield_agent.Audit.Store.{Db, insert_egress_log}
use shield_agent.Audit.Writer.{
  Limits, WriteJob, Writer, new_log_writer, handle_job, queue_length, Step, call, send, refuse,
  cancel, take, close, exit, Reach, here, next,
}
use shield_agent.Audit.Writer.Order.{new_log_writer-Ordered}
use shield_agent.Audit.Writer.Retries.{insert_with_retry_cases}
use shield_agent.Audit.Writer.Shutdown.{Reach-append, close-Drained}
use shield_agent.Audit.Writer.Verified.{insert_all}

module _ (fm : Formats) where
  -- The rows of the jobs whose insert worked
  abbrev pub worked_rows : List Bool → List (WriteJob fm) → List (EgressLog fm)
  worked_rows [] jobs = []
  worked_rows (_ ∷ worked) [] = []
  worked_rows (true ∷ worked) (job ∷ jobs) = job.log ∷ worked_rows worked jobs
  worked_rows (false ∷ worked) (job ∷ jobs) = worked_rows worked jobs

  abbrev row_if : Bool → WriteJob fm → List (EgressLog fm)
  row_if true job = job.log ∷ []
  row_if false job = []

  worked_rows-append :
      (worked : List Bool) (jobs : List (WriteJob fm)) (b : Bool) (job : WriteJob fm)
      → length worked ≡ length jobs
      → worked_rows (worked ++ b ∷ []) (jobs ++ job ∷ []) ≡ worked_rows worked jobs ++ row_if b job
  worked_rows-append [] [] true job h = refl
  worked_rows-append [] [] false job h = refl
  worked_rows-append [] (j ∷ jobs) b job h = absurd (omega (arith, h))
  worked_rows-append (w ∷ worked) [] b job h = absurd (omega (arith, h))
  worked_rows-append (true ∷ worked) (j ∷ jobs) b job h =
      ap (λ (rows : List (EgressLog fm)). j.log ∷ rows)
        (worked_rows-append worked jobs b job (omega (arith, h)))
  worked_rows-append (false ∷ worked) (j ∷ jobs) b job h =
      worked_rows-append worked jobs b job (omega (arith, h))

  insert_all-last :
      (db : Db fm) (rows : List (EgressLog fm)) (row : EgressLog fm)
      → insert_all fm db (rows ++ row ∷ []) ≡ (insert_egress_log fm (insert_all fm db rows) row).0
  unfolding insert_all
  insert_all-last db [] row = refl
  insert_all-last db (r ∷ rows) row = insert_all-last (insert_egress_log fm db r).0 rows row

  -- The database holds, after what was there, the rows of the jobs whose insert worked, once each and in
  -- the order of the jobs; the others are counted as errors.
  pub record Stored (db : Db fm) (jobs : List (WriteJob fm)) (w : Writer fm) : Type 0 where
    pub worked : List Bool
    pub each : length worked ≡ length jobs
    pub rows : w.db ≡ insert_all fm db (worked_rows worked jobs)
    pub errors : w.write_errors ≡ count_if not worked

  module _ (l : Limits) (db : Db fm) where
    handle_job-Stored :
        (fails : ℕ → Bool) (w : Writer fm) (job : WriteJob fm) (rest : List (WriteJob fm))
        → Stored db w.handled w
        → Stored db (w.handled ++ job ∷ []) (handle_job fm fails l w job rest)
    unfolding handle_job
    handle_job-Stored fails w job rest s = elim (insert_with_retry_cases fm fails w.db job.log l) [
      | inl (d, a, works) ↦ record {
        worked = s.worked ++ true ∷ [];
        each =
            omega (
              arith,
              s.each,
              length-append s.worked (true ∷ []),
              length-append w.handled (job ∷ []),
            );
        rows =
            d
            ∙ ap (λ (e : Db fm). (insert_egress_log fm e job.log).0) s.rows
            ∙ sym (insert_all-last db (worked_rows s.worked w.handled) job.log)
            ∙ ap (insert_all fm db) (sym (worked_rows-append s.worked w.handled true job s.each));
        errors = ground (arith, s.errors, count_if-append not s.worked (true ∷ []));
      }
      | inr (d, a, all) ↦ record {
        worked = s.worked ++ false ∷ [];
        each = omega (
          arith,
          s.each,
          length-append s.worked (false ∷ []),
          length-append w.handled (job ∷ []),
        );
        rows =
            d
            ∙ s.rows
            ∙ ap (insert_all fm db) (
                sym (
                  worked_rows-append s.worked w.handled false job s.each
                  ∙ append-nil (worked_rows s.worked w.handled)));
        errors = ground (arith, s.errors, count_if-append not s.worked (false ∷ []));
      }
    ]

    -- The fields of a state that a step does not change
    same_Stored :
        (w u : Writer fm)
        → u.db ≡ w.db
        → u.write_errors ≡ w.write_errors
        → Stored db w.handled w
        → Stored db w.handled u
    same_Stored w u d e s = record {
      worked = s.worked;
      each = s.each;
      rows = d ∙ s.rows;
      errors = e ∙ s.errors;
    }

    step-Stored : {w u : Writer fm} → Step fm l w u → Stored db w.handled w → Stored db u.handled u
    unfolding handle_job
    step-Stored {w} {u} (call job e) s = same_Stored w u refl refl s
    step-Stored {w} {u} (send before after job e room) s = same_Stored w u refl refl s
    step-Stored {w} {u} (refuse before after job e d) s = same_Stored w u refl refl s
    step-Stored {w} {u} (cancel before after job e) s = same_Stored w u refl refl s
    step-Stored {w} (take fails job rest e b) s = handle_job-Stored fails w job rest s
    step-Stored {w} {u} close s = same_Stored w u refl refl s
    step-Stored {w} {u} (exit e d b) s = same_Stored w u refl refl s

    Reach-Stored : {w : Writer fm} → Reach fm l (new_log_writer fm db) w → Stored db w.handled w
    unfolding insert_all
    Reach-Stored here = record { worked = []; each = refl; rows = refl; errors = refl }
    Reach-Stored (next r s) = step-Stored s (Reach-Stored r)

    -- At any time the database holds, once each and in the order in which they were accepted, the rows
    -- that the writer has taken from the channel and whose insert worked, and the others are counted as
    -- errors; what was accepted later is in the channel, in order and within its capacity.
    pub new_log_writer-Stored :
        (w : Writer fm)
        → Reach fm l (new_log_writer fm db) w
        → (taken : List (WriteJob fm)) × (w.sent ≡ taken ++ w.buffer)
          × (queue_length fm w ≤ l.capacity)
          × Stored db taken w
    new_log_writer-Stored w r =
        let o = new_log_writer-Ordered fm l db w r in (w.handled, o.fifo, o.room, Reach-Stored r)

    -- The writer has left its loop with everything stored that was accepted.
    pub record Finished (w t : Writer fm) : Type 0 where
      pub reached : Reach fm l w t
      pub exited : t.exited ≡ true
      pub stored : Stored db t.sent t

    finish :
        (fails : ℕ → Bool) (w : Writer fm)
        → Reach fm l (new_log_writer fm db) w
        → w.done ≡ true
        → w.exited ≡ false
        → (t : Writer fm) × Finished w t
    finish fails w r d e =
        let (t, drained) = close-Drained fm l fails w d e in
        let later = Reach-append fm l r drained.reached in
        let o = new_log_writer-Ordered fm l db t later in
        let all : t.handled ≡ t.sent = sym (
          o.fifo
          ∙ ap (λ (js : List (WriteJob fm)). t.handled ++ js) drained.emptied
          ∙ append-nil t.handled) in
        (
          t,
          record {
            reached = drained.reached;
            exited = drained.exited;
            stored = subst (λ (js : List (WriteJob fm)). Stored db js t) all (Reach-Stored later);
          },
        )
