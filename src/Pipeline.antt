-- ===== src/Pipeline.antt =====
-- The stdio pipelines of internal/process/pipeline.go, over the messages that the parser of
-- internal/jsonrpc/parser.go finds. What is written is a list of lines for each writer; a writer is
-- asked by the number of lines that it has taken whether it takes one more. `marshal` is
-- `json.Marshal`, `none` where it fails. Sending to the observer never blocks and has no effect here.
pub mod Answered
mod Examples
use shield_agent.Prelude.{
  ℕ, suc, ◌+◌, Bool, true, false, Option, none, some, List, [], ◌∷◌, ◌++◌, Text, if◌then◌else◌,
  length, is_empty,
}
use shield_agent.Prelude.Scanner.{scan_lines, scan_fails}
use shield_agent.Prelude.Result.{Result, ok, err}
use shield_agent.Jsonrpc.{Request, Response}
use shield_agent.Chain.{Middleware, process_request, process_response}

pub record Message : Type 0 where
  pub raw : Text
  pub request : Option Request
  pub resp : Option Response
  pub is_json : Bool

-- What `json.Unmarshal` makes of a line: whether it is an object, whether it has a method, and the
-- two readings.
pub record JsonReader : Type 0 where
  pub is_object : Text → Bool
  pub has_method : Text → Bool
  pub as_request : Text → Option Request
  pub as_response : Text → Option Response

unfoldable pub parse_raw : JsonReader → Text → Message
parse_raw j raw =
    if j.is_object raw
    then (if j.has_method raw
        then record { raw = raw; request = j.as_request raw; resp = none; is_json = true }
        else record { raw = raw; request = none; resp = j.as_response raw; is_json = true })
    else record { raw = raw; request = none; resp = none; is_json = false }

-- `nextNewline` skips the lines that `strings.TrimSpace` leaves empty.
unfoldable pub parse_lines : JsonReader → (Text → Text) → List Text → List Message
unfolding parse_raw
parse_lines j trim_space [] = []
parse_lines j trim_space (line ∷ lines) =
    let rest = parse_lines j trim_space lines in
    if is_empty (trim_space line) then rest else parse_raw j line ∷ rest

-- How a pipeline ends: at the end of its input, with an error of the parser, or of a write
pub data End : Type 0 where
  eof read_failed write_failed : End

-- The size of the buffer that `NewParser` sets, 1 MiB
abbrev pub max_line : ℕ
max_line = 1_048_576

-- What `Next` gives, one call after the other: the messages, and then io.EOF or the scanner's error.
unfoldable pub messages : JsonReader → (Text → Text) → Bool → List Text → List Message × End
unfolding parse_lines scan_lines scan_fails
messages j trim_space broken lines = (
  parse_lines j trim_space (scan_lines max_line lines),
  if scan_fails max_line broken lines then read_failed else eof,
)

pub record Written : Type 0 where
  pub child : List Text
  pub upstream : List Text

abbrev pub line_of : Text → Text
line_of t = t ++ 10 ∷ []

abbrev pub or_raw : Option Text → Text → Text
or_raw none raw = raw
or_raw (some t) raw = t

abbrev pub to_child : Written → Text → Written
to_child w t = record w { child = w.child ++ t ∷ [] }

-- A request is a line of JSON that reads as one.
abbrev pub request_of : Message → Option Request
request_of m = if m.is_json then m.request else none

abbrev pub response_of : Message → Option Response
response_of m = if m.is_json then m.resp else none

module _ {S E : Type 0} (message : E → Text) (marshal : Response → Text)
    (marshal_request : Request → Option Text) (items : List (Middleware S E)) where
  -- One message: the new state, and the line for the child or the payload for the caller.
  unfoldable pub answer_in : S → Message → S × Result Text Text
  unfolding process_request
  answer_in s m = elim (request_of m) [
    | none ↦ (s, ok (line_of m.raw))
    | some req ↦
        let (s', answer) = process_request message marshal items s req in
        elim answer [
          | ok modified ↦ (s', ok (line_of (or_raw (marshal_request modified) m.raw)))
          | err (payload, e) ↦ (s', err payload)
        ]
  ]

module _ {S E : Type 0} (message : E → Text) (marshal : Response → Text) (accepts : ℕ → Bool)
    (marshal_request : Request → Option Text) (items : List (Middleware S E)) where
  -- `ending` is what the parser gives after the messages. A failed write to the child ends the loop; one to the caller is ignored.
  unfoldable pub pipeline_in : S → Written → End → List Message → (S × Written) × End
  pipeline_in s w ending [] = ((s, w), ending)
  pipeline_in s w ending (m ∷ ms) =
      let (s', answer) = answer_in message marshal marshal_request items s m in
      elim answer [
        | err payload ↦
            pipeline_in s' (record w { upstream = w.upstream ++ payload ∷ [] }) ending ms
        | ok line ↦ elim (accepts (length w.child)) [
          | true ↦ pipeline_in s' (to_child w line) ending ms
          | false ↦ ((s', w), write_failed)
        ]
      ]

module _ {S E : Type 0} (accepts : ℕ → Bool) (marshal_response : Response → Option Text)
    (items : List (Middleware S E)) where
  -- A response that a middleware refuses is dropped.
  unfoldable pub answer_out : S → Message → S × Option Text
  unfolding process_response
  answer_out s m = elim (response_of m) [
    | none ↦ (s, some (line_of m.raw))
    | some resp ↦
        let (s', answer) = process_response items s resp in
        elim answer [
          | ok modified ↦ (s', some (line_of (or_raw (marshal_response modified) m.raw)))
          | err e ↦ (s', none)
        ]
  ]

  unfoldable pub pipeline_out : S → List Text → End → List Message → (S × List Text) × End
  pipeline_out s out ending [] = ((s, out), ending)
  pipeline_out s out ending (m ∷ ms) =
      let (s', answer) = answer_out s m in
      elim answer [
        | none ↦ pipeline_out s' out ending ms
        | some line ↦ elim (accepts (length out)) [
          | true ↦ pipeline_out s' (out ++ line ∷ []) ending ms
          | false ↦ ((s', out), write_failed)
        ]
      ]
