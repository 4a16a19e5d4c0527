-- ===== src/Audit/Writer.antt =====
-- The log writer of internal/compliance/log_writer.go. Callers, the goroutine `writer` and `Close`
-- interleave, so they are a step relation on what they share. A caller that has passed the first
-- `select` of `Enqueue` or `EnqueueSync` is in `callers` until its second `select` takes a case; where
-- several cases are ready, any of them may be taken. `fails` says which attempts to insert fail.
pub mod Retries
pub mod Order
pub mod Shutdown
pub mod Verified
pub mod Stored
mod Examples
use shield_agent.Prelude.{
  ℕ, zero, suc, ◌+◌, ◌*◌, ◌<◌, ◌==◌, ◌≡◌, Bool, true, false, Option, none, some, List, [], ◌∷◌,
  ◌++◌, if◌then◌else◌, length,
}
use shield_agent.Prelude.Int.{ℤ, positive, pos_part}
use shield_agent.Prelude.Result.{Result, ok, err}
use shield_agent.Audit.Row.{Formats, EgressLog}
use shield_agent.Audit.Store.{Db, insert_egress_log}

pub data WriteError : Type 0 where
  insert_failed writer_closed cancelled : WriteError

pub record LogWriterOptions : Type 0 where
  pub buffer_size : ℤ
  pub retries : ℤ
  pub retry_backoff : ℤ

abbrev pub default_write_retries : ℕ
default_write_retries = 3

-- 50 ms
abbrev pub default_retry_backoff : ℕ
default_retry_backoff = 50_000_000

abbrev pub or_positive : ℤ → ℕ → ℕ
or_positive n default = if positive n then pos_part n else default

pub record Limits : Type 0 where
  pub capacity : ℕ
  pub retries : ℕ
  pub backoff : ℕ

-- The options that `NewLogWriter` fills in.
unfoldable pub new_limits : LogWriterOptions → Limits
new_limits o = record {
  capacity = or_positive o.buffer_size 256;
  retries = or_positive o.retries default_write_retries;
  backoff = or_positive o.retry_backoff default_retry_backoff;
}

module _ (fm : Formats) where
  -- `acked` stands for an `ackCh` that is not nil.
  pub record WriteJob : Type 0 where
    pub log : EgressLog fm
    pub acked : Bool

  pub record Attempts : Type 0 where
    pub db : Db fm
    pub answer : Result WriteError ℕ
    pub sleeps : List ℕ

  abbrev pub inserted : Db fm × ℕ → Attempts
  inserted (db, id) = record { db = db; answer = ok id; sleeps = [] }

  abbrev pub gave_up : Db fm → Attempts
  gave_up db = record { db = db; answer = err insert_failed; sleeps = [] }

  abbrev pub slept : ℕ → Attempts → Attempts
  slept d a = record a { sleeps = d ∷ a.sleeps }

  -- `insertWithRetry` from an attempt on, with the attempts that are left.
  unfoldable pub retry : (ℕ → Bool) → Db fm → EgressLog fm → ℕ → ℕ → ℕ → Attempts
  unfolding insert_egress_log
  retry fails db log attempt backoff zero = gave_up db
  retry fails db log attempt backoff (suc left) =
      let rest = retry fails db log (attempt + 1) (backoff * 2) left in
      if fails attempt
      then (if left == 0 then rest else slept backoff rest)
      else inserted (insert_egress_log fm db log)

  unfoldable pub insert_with_retry : (ℕ → Bool) → Limits → Db fm → EgressLog fm → Attempts
  unfolding retry
  insert_with_retry fails l db log = retry fails db log 0 l.backoff l.retries

  pub record Writer : Type 0 where
    pub db : Db fm
    pub buffer : List WriteJob
    pub callers : List WriteJob
    pub done : Bool
    pub exited : Bool
    pub acks : List (Result WriteError ℕ)
    pub write_errors : ℕ
    pub sent : List WriteJob
    pub handled : List WriteJob

  -- `sent` and `handled` record what went through the channel and what came out of it.
  abbrev pub new_log_writer : Db fm → Writer
  new_log_writer db = record {
    db = db;
    buffer = [];
    callers = [];
    done = false;
    exited = false;
    acks = [];
    write_errors = 0;
    sent = [];
    handled = [];
  }

  abbrev pub count_error : Result WriteError ℕ → ℕ → ℕ
  count_error (ok _) n = n
  count_error (err _) n = n + 1

  abbrev pub add_ack :
      Bool → Result WriteError ℕ → List (Result WriteError ℕ) → List (Result WriteError ℕ)
  add_ack true answer acks = acks ++ answer ∷ []
  add_ack false answer acks = acks

  unfoldable pub handle_job : (ℕ → Bool) → Limits → Writer → WriteJob → List WriteJob → Writer
  unfolding insert_with_retry
  handle_job fails l w job rest =
      let a = insert_with_retry fails l w.db job.log in
      record w {
        db = a.db;
        buffer = rest;
        acks = add_ack job.acked a.answer w.acks;
        write_errors = count_error a.answer w.write_errors;
        handled = w.handled ++ job ∷ [];
      }

  -- The number of queued rows, `QueueLength`
  unfoldable pub queue_length : Writer → ℕ
  queue_length w = length w.buffer

  -- The caller that takes its turn stands between `before` and `after`.
  pub data Step (l : Limits) (w : Writer) : Writer → Type 0 where
    -- The first `select` of `Enqueue` and `EnqueueSync`
    call :
        (job : WriteJob) → w.done ≡ false → Step l w (record w { callers = w.callers ++ job ∷ [] })
    -- The three cases of the second `select`
    send :
        (before after : List WriteJob) (job : WriteJob)
        → w.callers ≡ before ++ job ∷ after
        → length w.buffer < l.capacity
        → Step l w (record w {
          callers = before ++ after;
          buffer = w.buffer ++ job ∷ [];
          sent = w.sent ++ job ∷ [];
        })
    refuse :
        (before after : List WriteJob) (job : WriteJob)
        → w.callers ≡ before ++ job ∷ after
        → w.done ≡ true
        → Step l w (record w { callers = before ++ after })
    cancel :
        (before after : List WriteJob) (job : WriteJob)
        → w.callers ≡ before ++ job ∷ after
        → Step l w (record w { callers = before ++ after })
    -- `writer` takes a job, in its loop or in the one that drains the channel.
    take :
        (fails : ℕ → Bool) (job : WriteJob) (rest : List WriteJob)
        → w.exited ≡ false
        → w.buffer ≡ job ∷ rest
        → Step l w (handle_job fails l w job rest)
    -- `Close`; a second call changes nothing.
    close : Step l w (record w { done = true })
    -- `writer` sees `done` and an empty channel.
    exit : w.exited ≡ false → w.done ≡ true → w.buffer ≡ [] → Step l w (record w { exited = true })

  pub data Reach (l : Limits) (w : Writer) : Writer → Type 0 where
    here : Reach l w w
    next : {u v : Writer} → Reach l w u → Step l u v → Reach l w v
