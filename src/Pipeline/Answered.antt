-- ===== src/Pipeline/Answered.antt =====
-- What the pipelines write.
use mathlib.Core.List.{append_assoc, append-nil}
use shield_agent.Prelude.{
  ℕ, suc, ◌+◌, ◌<◌, ◌↔◌, false, if◌then◌else◌, All, ◌≡◌, refl, ◌∙◌, ap, Bool, true, Option, inl,
  inr, List, [], ◌∷◌, ◌++◌, Text, length, arith, length-append,
}
use shield_agent.Prelude.Result.{Result, ok, err, Result-cases}
use shield_agent.Jsonrpc.{Request, Response}
use shield_agent.Chain.{Middleware}
use shield_agent.Prelude.Scanner.{scan_fails, scan_fails_iff}
use shield_agent.Pipeline.{
  Message, JsonReader, Written, End, eof, read_failed, max_line, messages, answer_in, pipeline_in,
}

abbrev pub oks : List (Result Text Text) → List Text
oks [] = []
oks (ok t ∷ rs) = t ∷ oks rs
oks (err _ ∷ rs) = oks rs

abbrev pub errs : List (Result Text Text) → List Text
errs [] = []
errs (ok _ ∷ rs) = errs rs
errs (err t ∷ rs) = t ∷ errs rs

length-oks-errs : (rs : List (Result Text Text)) → length (oks rs) + length (errs rs) ≡ length rs
length-oks-errs [] = omega arith
length-oks-errs (ok t ∷ rs) = omega (arith, length-oks-errs rs)
length-oks-errs (err t ∷ rs) = omega (arith, length-oks-errs rs)

module _ {S E : Type 0} (message : E → Text) (marshal : Response → Text) (accepts : ℕ → Bool)
    (marshal_request : Request → Option Text) (items : List (Middleware S E)) where
  abbrev answer : S → Message → S × Result Text Text
  answer = answer_in message marshal marshal_request items

  -- The answers to the messages, one for each, in order.
  unfoldable pub answers : S → List Message → List (Result Text Text)
  answers s [] = []
  answers s (m ∷ ms) = (answer s m).1 ∷ answers (answer s m).0 ms

  unfoldable pub last_state : S → List Message → S
  last_state s [] = s
  last_state s (m ∷ ms) = last_state (answer s m).0 ms

  abbrev finish : End → S → Message → List Message → List Text → List Text → (S × Written) × End
  finish ending s m ms child upstream =
      ((last_state (answer s m).0 ms, record { child = child; upstream = upstream }), ending)

  pipeline_in-refused :
      (s : S) (w : Written) (ending : End) (m : Message) (ms : List Message) (payload : Text)
      → (answer s m).1 ≡ err payload
      → pipeline_in message marshal accepts marshal_request items s w ending (m ∷ ms)
        ≡ pipeline_in message marshal accepts marshal_request items
            (answer s m).0
            (record w { upstream = w.upstream ++ payload ∷ [] })
            ending
            ms
  unfolding pipeline_in
  pipeline_in-refused s w ending m ms payload refused = ground arith

  length-answers : (s : S) (ms : List Message) → length (answers s ms) ≡ length ms
  unfolding answers
  length-answers s [] = refl
  length-answers s (m ∷ ms) = ap suc (length-answers (answer s m).0 ms)

  -- What the loop leaves behind when it has answered all messages
  abbrev pub answered : S → Written → List Message → S × Written
  answered s w ms = (
    last_state s ms,
    record { child = w.child ++ oks (answers s ms); upstream = w.upstream ++ errs (answers s ms) },
  )

  pipeline_in-answers :
      (s : S) (w : Written) (ending : End) (ms : List Message)
      → ((n : ℕ) → accepts n ≡ true)
      → pipeline_in message marshal accepts marshal_request items s w ending ms
        ≡ (answered s w ms, ending)
  unfolding pipeline_in answers last_state
  pipeline_in-answers s w ending [] open' = rw (append-nil w.child, append-nil w.upstream)
  pipeline_in-answers s w ending (m ∷ ms) open' = elim (Result-cases (answer s m).1) [
    | inl (line, passed) ↦
        rw (passed, pipeline_in, open' (length w.child))
          (pipeline_in-answers (answer s m).0 (record w { child = w.child ++ line ∷ [] }) ending ms
              open'
            ∙ ap
                (λ (c : List Text).
                  finish ending s m ms c (w.upstream ++ errs (answers (answer s m).0 ms)))
                (append_assoc w.child (line ∷ []) (oks (answers (answer s m).0 ms))))
    | inr (payload, refused) ↦
        pipeline_in-refused s w ending m ms payload refused
        ∙ (rw refused (
            pipeline_in-answers (answer s m).0 (record w { upstream = w.upstream ++ payload ∷ [] })
              ending ms open'
            ∙ ap
                (λ (u : List Text).
                  finish ending s m ms (w.child ++ oks (answers (answer s m).0 ms)) u)
                (append_assoc w.upstream (payload ∷ []) (errs (answers (answer s m).0 ms)))))
  ]

  -- Every message is answered once: what the child and the caller have received together grows by
  -- the number of messages.
  pub length-pipeline_in :
      (s : S) (w : Written) (ending : End) (ms : List Message)
      → ((n : ℕ) → accepts n ≡ true)
      → length (pipeline_in message marshal accepts marshal_request items s w ending ms).0.1.child
          + length
              (pipeline_in message marshal accepts marshal_request items s w ending ms).0.1.upstream
        ≡ length w.child + length w.upstream + length ms
  length-pipeline_in s w ending ms open' = rw (pipeline_in-answers s w ending ms open') (
      omega (
        arith,
        length-append w.child (oks (answers s ms)),
        length-append w.upstream (errs (answers s ms)),
        length-oks-errs (answers s ms),
        length-answers s ms,
      ))

  ends : (failed : Bool) → ((if failed then read_failed else eof) ≡ eof) ↔ (failed ≡ false)
  ends true = (λ h. absurd (ground arith), λ h. absurd (ground arith))
  ends false = (λ h. refl, λ h. refl)

  -- If the child takes every line, it gets the answers to the messages of the input that the chain let
  -- through and the caller gets the payloads of the others, each in order. The loop ends as the parser
  -- does: at the end of the input exactly if no read failed and each line has less than 1 MiB.
  pub pipeline_in-messages :
      (j : JsonReader) (trim_space : Text → Text) (s : S) (w : Written) (broken : Bool)
      (lines : List Text)
      → ((n : ℕ) → accepts n ≡ true)
      → let (ms, ending) = messages j trim_space broken lines in
        (pipeline_in message marshal accepts marshal_request items s w ending ms
          ≡ (answered s w ms, ending))
        × ((ending ≡ eof)
            ↔ ((broken ≡ false) × All (λ (line : Text). length line < max_line) lines))
  unfolding messages
  pipeline_in-messages j trim_space s w broken lines open' =
      let (ms, ending) = messages j trim_space broken lines in
      let fails = scan_fails_iff max_line broken lines in
      let last = ends (scan_fails max_line broken lines) in
      (pipeline_in-answers s w ending ms open', (λ h. fails.0 (last.0 h), λ h. last.1 (fails.1 h)))
