-- ===== src/Audit/Writer/Verified.antt =====
-- The chain and the writer together.
use shield_agent.Prelude.{
  ℕ, ◌≡◌, refl, sym, ap, ◌∙◌, inl, inr, Bool, List, [], ◌∷◌, ◌++◌, codes, arith, length,
}
use shield_agent.Audit.Row.{Formats, EgressLog}
use shield_agent.Audit.Store.{Db, empty_db, insert_egress_log}
use shield_agent.Audit.Chain.{HashChain, compute_row, verify}
use shield_agent.Audit.Chain.Linked.{accepted}
use shield_agent.Audit.Chain.Append.{Audit, start, append, append_all, verify-append_all}
use shield_agent.Audit.Writer.{
  Limits, WriteJob, Writer, new_log_writer, handle_job, Step, call, send, refuse, cancel, take,
  close, exit, Reach, here, next,
}
use shield_agent.Audit.Writer.Retries.{insert_with_retry_cases}

module _ (fm : Formats) where
  abbrev Log : Type 0
  Log = EgressLog fm

  -- The rows that one request after the other gets from `ComputeRow`.
  unfoldable pub hash_all : HashChain → List Log → List Log
  unfolding compute_row
  hash_all h [] = []
  hash_all h (row ∷ rows) = (compute_row fm h row).1 ∷ hash_all (compute_row fm h row).0 rows

  unfoldable pub insert_all : Db fm → List Log → Db fm
  insert_all db [] = db
  insert_all db (log ∷ logs) = insert_all (insert_egress_log fm db log).0 logs

  abbrev pub logs : List (WriteJob fm) → List Log
  logs [] = []
  logs (job ∷ jobs) = job.log ∷ logs jobs

  insert_all-logs :
      (db : Db fm) (jobs : List (WriteJob fm)) (job : WriteJob fm)
      → insert_all db (logs (jobs ++ job ∷ []))
        ≡ (insert_egress_log fm (insert_all db (logs jobs)) job.log).0
  unfolding insert_all
  insert_all-logs db [] job = refl
  insert_all-logs db (j ∷ jobs) job = insert_all-logs (insert_egress_log fm db j.log).0 jobs job

  append_all-insert_all :
      (a : Audit fm) (rows : List Log)
      → (append_all fm a rows).db ≡ insert_all a.db (hash_all a.chain rows)
  unfolding append_all append hash_all insert_all
  append_all-insert_all a [] = refl
  append_all-insert_all a (row ∷ rows) = append_all-insert_all (append fm a row) rows

  module _ (l : Limits) (db : Db fm) where
    -- Without a failed write the database holds the handled rows.
    Stored : Writer fm → Type 0
    Stored w = w.write_errors ≡ 0 → w.db ≡ insert_all db (logs w.handled)

    handle_job-Stored :
        (fails : ℕ → Bool) (w : Writer fm) (job : WriteJob fm) (rest : List (WriteJob fm))
        → Stored w
        → Stored (handle_job fm fails l w job rest)
    unfolding handle_job Stored
    handle_job-Stored fails w job rest s none_failed =
        elim (insert_with_retry_cases fm fails w.db job.log l) [
          | inl (d, a, works) ↦
              d
              ∙ ap (λ (e : Db fm). (insert_egress_log fm e job.log).0) (s (ground arith))
              ∙ sym (insert_all-logs db w.handled job)
          | inr (d, a, all) ↦ absurd (ground arith)
        ]

    step-Stored : {w u : Writer fm} → Step fm l w u → Stored w → Stored u
    unfolding Stored
    step-Stored (call job e) s = s
    step-Stored (send before after job e room) s = s
    step-Stored (refuse before after job e d) s = s
    step-Stored (cancel before after job e) s = s
    step-Stored {w} (take fails job rest e b) s = handle_job-Stored fails w job rest s
    step-Stored close s = s
    step-Stored (exit e d b) s = s

    pub Reach-Stored :
        {w : Writer fm}
        → Reach fm l (new_log_writer fm db) w
        → w.write_errors ≡ 0
        → w.db ≡ insert_all db (logs w.handled)
    unfolding Stored insert_all
    Reach-Stored here e = refl
    Reach-Stored (next r s) e = step-Stored s (Reach-Stored r) e

  -- A log that starts empty verifies at any time, with every row that the writer has handled, if
  -- these are the rows that one chain computed, in that order, and no write has failed.
  pub verify-Reach :
      (l : Limits) (w : Writer fm) (rows : List Log)
      → Reach fm l (new_log_writer fm (empty_db fm)) w
      → w.write_errors ≡ 0
      → logs w.handled ≡ hash_all (record { prev_hash = codes "" }) rows
      → verify fm w.db ≡ accepted fm 0 (length rows)
  verify-Reach l w rows r none_failed hashed =
      ap (verify fm) (
        Reach-Stored l (empty_db fm) r none_failed
        ∙ ap (insert_all (empty_db fm)) hashed
        ∙ sym (append_all-insert_all (start fm) rows))
      ∙ verify-append_all fm rows
