-- ===== src/H2/Stream.antt =====
-- http/h2/stream.rs: one stream matched to a provider, and how its response body is read.
use honeybeepf_llm.Prelude.{
  ℕ, ◌+◌, ◌*◌, Bool, true, false, ◌||◌, Option, none, some, [], ◌∷◌, ◌++◌, Bytes, length, ltb, leb,
  if◌then◌else◌,
}
use honeybeepf_llm.Hpack.Types.{codes}
use honeybeepf_llm.ByteUtils.Search.{starts_with, contains_pattern}
use honeybeepf_llm.Text.{from_utf8_lossy, trim_start}
use honeybeepf_llm.Json.{Json, and_then, is_some_and}
use honeybeepf_llm.Sse.{SseCursor, default, feed, usage, partial_len, parse_sse_body}

-- processor.rs
abbrev pub max_response_buffer_size : ℕ
max_response_buffer_size = 16 * 1024 * 1024

pub data Body (V : Type 0) : Type 0 where
  streaming : SseCursor V → Body V
  -- `coding`, `sse`, `buf` and `too_large`.
  buffered : Bytes → Bool → Bytes → Bool → Body V

abbrev pub plain_json : {V : Type 0} → Body V
plain_json = buffered [] false [] false

abbrev pub dropped : {V : Type 0} → Body V
dropped = buffered [] false [] true

-- Instants are numbers; a call of `Instant::now()` is the argument `now`.
pub record H2Stream (V : Type 0) : Type 0 where
  pub start : ℕ
  pub last : ℕ
  pub body : Body V
  pub got_data : Bool
  pub speculative : Bool

unfoldable pub open_stream : {V : Type 0} → ℕ → H2Stream V
open_stream start = record {
  start = start;
  last = start;
  body = plain_json;
  got_data = false;
  speculative = false;
}

unfoldable pub open_speculative : {V : Type 0} → ℕ → H2Stream V
unfolding open_stream
open_speculative start = record (open_stream start) { speculative = true }

abbrev pub is_too_large : {V : Type 0} → Body V → Bool
is_too_large (streaming cursor) = false
is_too_large (buffered coding sse buf too_large) = too_large

unfoldable pub over_limit : {V : Type 0} → H2Stream V → Bool
over_limit s = is_too_large s.body

abbrev pub body_held : {V : Type 0} → Body V → ℕ
body_held (streaming cursor) = 0
body_held (buffered coding sse buf too_large) = length buf

unfoldable pub held : {V : Type 0} → H2Stream V → ℕ
held s = body_held s.body

abbrev pub is_empty : Bytes → Bool
is_empty [] = true
is_empty (b ∷ bs) = false

abbrev pub body_for : {V : Type 0} → Bytes → Bool → Body V
body_for coding sse =
    if is_empty coding
    then (if sse then streaming default else plain_json)
    else buffered coding sse [] false

-- A block after DATA is trailers.
abbrev pub body_after : {V : Type 0} → Bool → Body V → Bytes → Bool → Body V
body_after true body coding sse = body
body_after false body coding sse = body_for coding sse

unfoldable pub response_headers : {V : Type 0} → ℕ → Option Bytes → Bytes → H2Stream V → H2Stream V
response_headers now content_type coding s =
    let sse = is_some_and content_type (λ c. contains_pattern c (codes "text/event-stream")) in
    record s { last = now; body = body_after s.got_data s.body coding sse }

-- The `isize` that `data` returns: bytes held anew, or given back.
pub data Change : Type 0 where
  grown shrunk : ℕ → Change

module _ (J : Json) where
  -- What DATA makes of the body, with the change in bytes held.
  unfoldable pub body_data : Body J.Value → Bytes → ℕ → Body J.Value × Change
  body_data (streaming cursor) bytes room =
      let cursor' = feed J cursor bytes in
      if leb (partial_len cursor') max_response_buffer_size
      then (streaming cursor', Change.grown 0)
      else (dropped, Change.grown 0)
  body_data (buffered coding sse buf true) bytes room =
      (buffered coding sse buf true, Change.grown 0)
  body_data (buffered coding sse buf false) bytes room =
      if ltb room (length bytes) || ltb max_response_buffer_size (length buf + length bytes)
      then (buffered coding sse [] true, Change.shrunk (length buf))
      else (buffered coding sse (buf ++ bytes) false, Change.grown (length bytes))

  abbrev pub with_body : ℕ → H2Stream J.Value → Body J.Value × Change → H2Stream J.Value × Change
  with_body now s (body, change) = (record s { last = now; got_data = true; body = body }, change)

  unfoldable pub take_data : ℕ → Bytes → ℕ → H2Stream J.Value → H2Stream J.Value × Change
  unfolding body_data
  take_data now bytes room s = with_body now s (body_data s.body bytes room)

  -- What body.rs and encoding.rs make of a body: the usage of a JSON text and of a JSON value, and the
  -- bytes under a content coding.
  pub record Readers (U : Type 0) : Type 0 where
    pub parse_response_json : Bytes → Option U
    pub parse_response_json_value : J.Value → Option U
    pub decode : Bytes → Bytes → Option Bytes

  abbrev pub parse_plain : {U : Type 0} → Readers U → Bytes → Option U
  parse_plain readers body =
      let json = trim_start (from_utf8_lossy body) in
      if starts_with json (codes "{") then readers.parse_response_json json else none

  abbrev pub parse_body : {U : Type 0} → Readers U → Bool → Bytes → Option U
  parse_body readers true body = parse_sse_body J readers.parse_response_json_value body
  parse_body readers false body = parse_plain readers body

  abbrev pub decoded : {U : Type 0} → Readers U → Bytes → Bytes → Option Bytes
  decoded readers coding buf = if is_empty coding then some buf else readers.decode coding buf

  abbrev pub body_usage : {U : Type 0} → Readers U → Body J.Value → Option U
  body_usage readers (streaming cursor) = usage J readers.parse_response_json_value cursor
  body_usage readers (buffered coding sse buf true) = none
  body_usage readers (buffered coding sse buf false) =
      and_then (decoded readers coding buf) (parse_body readers sse)

  unfoldable pub finish : {U : Type 0} → Readers U → H2Stream J.Value → Option U
  unfolding usage parse_sse_body from_utf8_lossy trim_start
  finish readers s = body_usage readers s.body
