-- ===== src/Proxy/Sse/Relayed.antt =====
-- What a client reads of the events that the SSE proxy relays. `upstream_lines` are the lines of an
-- upstream that sends each event with one `data` line; `read_stream` is a client that splits the
-- stream in lines and reads each block of them as `parseSSEEvent` does.
use mathlib.Core.List.{append_assoc, append-nil}
use shield_agent.Prelude.{
  ℕ, ◌==◌, ◌≡◌, ◌≢◌, refl, ap, sym, ◌∙◌, Bool, true, false, inl, inr, Option, none, some, List, [],
  ◌∷◌, ◌++◌, map, Text, is_empty, is_empty_iff, All, All-append, arith, if◌then◌else◌, Option-cases,
}
use shield_agent.Prelude.Scanner.{max_scan_token_size, IsScanned, scan_lines-IsScanned}
use shield_agent.Proxy.Messages.{Json, Items, apply_response}
use shield_agent.Proxy.Sse.{
  Session, SseEvent, event_field, data_field, parse_sse_event, event_text, is_endpoint, on_event,
  relay_scanned, relay_lines, sent,
}

abbrev pub type_lines : Text → List Text
type_lines [] = []
type_lines (c ∷ typ) = (event_field ++ c ∷ typ) ∷ []

-- The lines of an event, and then those that follow
abbrev pub block : SseEvent → List Text → List Text
block ev rest = type_lines ev.typ ++ ((data_field ++ ev.content) ∷ [] ∷ rest)

abbrev pub upstream_lines : List SseEvent → List Text
upstream_lines [] = []
upstream_lines (ev ∷ evs) = block ev (upstream_lines evs)

-- From a line that is begun on
unfoldable pub split_lines : Text → Text → List Text
unfolding is_empty
split_lines cur [] = if is_empty cur then [] else cur ∷ []
split_lines cur (c ∷ s) = elim (c == 10) [
  | true ↦ cur ∷ split_lines [] s
  | false ↦ split_lines (cur ++ c ∷ []) s
]

-- From the lines of an event that is begun on
unfoldable pub read_blocks : List Text → List Text → List SseEvent
unfolding is_empty parse_sse_event
read_blocks lines [] = []
read_blocks lines (line ∷ rest) = elim (is_empty line) [
  | true ↦ parse_sse_event lines ∷ read_blocks [] rest
  | false ↦ read_blocks (lines ++ line ∷ []) rest
]

unfoldable pub read_stream : Text → List SseEvent
unfolding read_blocks split_lines
read_stream stream = read_blocks [] (split_lines [] stream)

abbrev pub joined : List Text → Text
joined [] = []
joined (t ∷ ts) = t ++ joined ts

abbrev pub IsLine : Text → Type 0
IsLine = All (λ c. c ≢ 10)

split_lines-line :
    (cur t rest : Text)
    → IsLine t
    → split_lines cur (t ++ 10 ∷ rest) ≡ (cur ++ t) ∷ split_lines [] rest
unfolding split_lines
split_lines-line cur [] rest _ = simp (append-nil)
split_lines-line cur (c ∷ t) rest h =
    ground (arith, h.0, split_lines-line (cur ++ c ∷ []) t rest h.1, append_assoc cur (c ∷ []) t)

-- A line of data and the empty line after it
split_lines-data :
    (content rest : Text)
    → IsLine content
    → split_lines [] ((data_field ++ (content ++ 10 ∷ 10 ∷ [])) ++ rest)
      ≡ (data_field ++ content) ∷ [] ∷ split_lines [] rest
split_lines-data content rest h =
    ap (λ (t : Text). split_lines [] (data_field ++ t)) (append_assoc content (10 ∷ 10 ∷ []) rest)
    ∙ split_lines-line [] (data_field ++ content) (10 ∷ rest)
        (All-append (λ (c : ℕ). c ≢ 10) data_field content (omega arith) h)
    ∙ ap (λ (ls : List Text). (data_field ++ content) ∷ ls) (split_lines-line [] [] rest tt)

line_first : (t more rest : Text) → ((t ++ 10 ∷ []) ++ more) ++ rest ≡ t ++ 10 ∷ (more ++ rest)
line_first t more rest =
    append_assoc (t ++ 10 ∷ []) more rest ∙ append_assoc t (10 ∷ []) (more ++ rest)

split_lines-event_text :
    (typ content rest : Text)
    → IsLine typ
    → IsLine content
    → split_lines [] (event_text typ content ++ rest)
      ≡ block (record { typ = typ; content = content }) (split_lines [] rest)
unfolding event_text is_empty
split_lines-event_text [] content rest ht hc = split_lines-data content rest hc
split_lines-event_text (c ∷ typ) content rest ht hc =
    let more = data_field ++ (content ++ 10 ∷ 10 ∷ []) in
    ap (λ (t : Text). split_lines [] (event_field ++ c ∷ t)) (line_first typ more rest)
    ∙ split_lines-line [] (event_field ++ c ∷ typ) (more ++ rest)
        (All-append (λ (c : ℕ). c ≢ 10) event_field (c ∷ typ) (omega arith) ht)
    ∙ ap (λ (ls : List Text). (event_field ++ c ∷ typ) ∷ ls) (split_lines-data content rest hc)

read_blocks-block :
    (typ content : Text) (rest : List Text)
    → read_blocks [] (block (record { typ = typ; content = content }) rest)
      ≡ record { typ = typ; content = content } ∷ read_blocks [] rest
unfolding read_blocks
read_blocks-block [] content rest = refl
read_blocks-block (c ∷ typ) content rest = refl

abbrev pub text_of : SseEvent → Text
text_of ev = event_text ev.typ ev.content

-- Every send works.
abbrev pub always : ℕ → Bool
always _ = true

-- Neither the type nor the data has a line feed.
abbrev pub IsPlain : SseEvent → Type 0
IsPlain ev = IsLine ev.typ × IsLine ev.content

read_stream-text_of :
    (evs : List SseEvent) → All IsPlain evs → read_stream (joined (map text_of evs)) ≡ evs
unfolding read_stream
read_stream-text_of [] h = unfold read_blocks split_lines in refl
read_stream-text_of (ev ∷ evs) h =
    ap (read_blocks [])
      (split_lines-event_text ev.typ ev.content (joined (map text_of evs)) h.0.0 h.0.1)
    ∙ read_blocks-block ev.typ ev.content (split_lines [] (joined (map text_of evs)))
    ∙ ap (λ (es : List SseEvent). ev ∷ es) (read_stream-text_of evs h.1)

module _ {S E : Type 0} (message : E → Text) (j : Json) (items : Items S E)
    (upstream local_id : Text) where
  -- What the chain makes of the events, one after the other: the events without the refused ones.
  abbrev pub answers : S → List SseEvent → S × List SseEvent
  answers s [] = (s, [])
  answers s (ev ∷ evs) =
      let (s', answer) = apply_response message j items s ev.content in
      let (s'', later) = answers s' evs in
      (s'', elim answer [ none ↦ later | some content ↦ record ev { content = content } ∷ later ])

  -- An event with data that does not name the upstream's address
  abbrev pub IsMessage : SseEvent → Type 0
  IsMessage ev = (is_endpoint ev ≡ false) × (ev.content ≢ [])

  abbrev pub sent_all : Session → List SseEvent → Session
  sent_all sess evs = record sess { events = sess.events ++ map text_of evs }

  abbrev relayed : S → Session → List Text → S × Session
  relayed s sess lines = relay_scanned message j items upstream local_id always s sess [] lines

  abbrev after : S × Session × Option Text → List Text → S × Session
  after (s, sess, out) rest = elim out [
    | none ↦ relayed s sess rest
    | some event ↦ relayed s (sent sess event) rest
  ]

  relay_scanned-block :
      (s : S) (sess : Session) (typ content : Text) (rest : List Text)
      → relayed s sess (block (record { typ = typ; content = content }) rest)
        ≡ after
            (on_event message j items upstream local_id s sess
              (record { typ = typ; content = content }))
            rest
  unfolding relay_scanned
  relay_scanned-block s sess [] content rest = refl
  relay_scanned-block s sess (c ∷ typ) content rest = refl

  abbrev written : Text → Option Text → Option Text
  written typ none = none
  written typ (some out) = some (event_text typ out)

  on_event-message :
      (s : S) (sess : Session) (ev : SseEvent)
      → IsMessage ev
      → on_event message j items upstream local_id s sess ev ≡ (
        (apply_response message j items s ev.content).0,
        sess,
        written ev.typ (apply_response message j items s ev.content).1,
      )
  unfolding on_event
  on_event-message s sess ev h = ground (arith, h.0, h.1, is_empty_iff ev.content)

  relay_scanned-answers :
      (s : S) (sess : Session) (evs : List SseEvent)
      → All IsMessage evs
      → relayed s sess (upstream_lines evs) ≡ ((answers s evs).0, sent_all sess (answers s evs).1)
  relay_scanned-answers s sess [] h =
      unfold relay_scanned in
      ap (λ (es : List Text). (s, record sess { events = es })) (sym (append-nil sess.events))
  relay_scanned-answers s sess (ev ∷ evs) h =
      let answer = apply_response message j items s ev.content in
      relay_scanned-block s sess ev.typ ev.content (upstream_lines evs)
      ∙ ap (λ x. after x (upstream_lines evs)) (on_event-message s sess ev h.0)
      ∙ elim (Option-cases answer.1) [
        | inl e ↦ ground (arith, e, relay_scanned-answers answer.0 sess evs h.1)
        | inr (out, e) ↦ ground (
          arith,
          e,
          relay_scanned-answers answer.0 (sent sess (event_text ev.typ out)) evs h.1,
          append_assoc sess.events (event_text ev.typ out ∷ [])
              (map text_of (answers answer.0 evs).1),
        )
      ]

  -- An upstream sends messages, each with its data in one line, over a session on which nothing was
  -- sent: a client that reads the relayed stream finds what the chain made of them, in their order and
  -- without the refused ones, if no type and no answer of the chain has a line feed, each line of the
  -- upstream has less than 64 KiB and no carriage return at its end, and the client stays connected.
  pub read_stream-relay_lines :
      (s : S) (url : Text) (evs : List SseEvent)
      → All IsMessage evs
      → All (IsScanned max_scan_token_size) (upstream_lines evs)
      → All IsPlain (answers s evs).1
      → read_stream (
          joined
            (relay_lines message j items upstream local_id always s
              (record { upstream_msg_url = url; events = [] })
              (upstream_lines evs)).1.events)
        ≡ (answers s evs).1
  unfolding relay_lines
  read_stream-relay_lines s url evs h short plain =
      let sess : Session = record { upstream_msg_url = url; events = [] } in
      ap (λ (x : S × Session). read_stream (joined x.1.events))
        (ap (relayed s sess) (scan_lines-IsScanned max_scan_token_size (upstream_lines evs) short)
          ∙ relay_scanned-answers s sess evs h)
      ∙ read_stream-text_of (answers s evs).1 plain
