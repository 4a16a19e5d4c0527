-- ===== src/Proxy/Http.antt =====
-- What the handlers of internal/transport/proxy read and do, with cors.go. A handler gives what it
-- does, in order; the range over a map of headers is a list of its values with their names.
use shield_agent.Prelude.{ℕ, ◌*◌, Bool, Option, none, some, List, [], ◌∷◌, Text, take}

-- `header` is `r.Header.Get`, `headers` the fields in the order of the range; `session_id` is the
-- query's parameter.
pub record HttpRequest : Type 0 where
  pub method : Text
  pub path : Text
  pub raw_query : Text
  pub session_id : Text
  pub remote_addr : Text
  pub header : Text → Text
  pub headers : List (Text × Text)
  pub body : Option Text

pub record UpstreamRequest : Type 0 where
  pub method : Text
  pub url : Text
  pub headers : List (Text × Text)
  pub body : Option Text

-- What `client.Do` answers; `lines` are the pieces of the body between its line feeds.
pub record UpstreamResponse : Type 0 where
  pub status_code : ℕ
  pub content_type : Text
  pub headers : List (Text × Text)
  pub body : Option Text
  pub lines : List Text

pub data Effect : Type 0 where
  http_error : ℕ → Text → Effect
  set_header : Text → Text → Effect
  add_header : Text → Text → Effect
  write_header : ℕ → Effect
  write : Text → Effect
  forward : UpstreamRequest → Effect

-- Whether `http.NewRequestWithContext` succeeds, and `client.Do`, `none` where it fails
pub record Network : Type 0 where
  pub is_valid : UpstreamRequest → Bool
  pub answer : UpstreamRequest → Option UpstreamResponse

-- The bytes that `io.ReadAll` of the `io.LimitReader` gives, for ten megabytes
abbrev pub body_limit : ℕ
body_limit = 10 * 1024 * 1024

unfoldable pub limited : Text → Text
limited body = take body_limit body

unfoldable pub read_limited : Option Text → Option Text
unfolding limited
read_limited none = none
read_limited (some body) = some (limited body)

abbrev pub relayed_headers : List (Text × Text) → List Effect
relayed_headers [] = []
relayed_headers ((name, value) ∷ headers) = add_header name value ∷ relayed_headers headers
