-- ===== src/EventStream/Cursor.antt =====
-- http/eventstream.rs: the cursor over the messages of a body.
use honeybeepf_llm.Prelude.{
  ℕ, zero, suc, ◌+◌, Bool, true, false, ◌||◌, Option, none, some, [], ◌∷◌, ◌++◌, Bytes, length,
  drop, bytes_eq, if◌then◌else◌,
}
use honeybeepf_llm.Hpack.Types.{codes}
use honeybeepf_llm.ByteUtils.Search.{contains_pattern}
use honeybeepf_llm.Json.{Json, insert, remove, and_then, is_some_and, get, has}
use honeybeepf_llm.Sse.{merge_usage_event}
use honeybeepf_llm.EventStream.Message.{
  Frame, partial_frame, broken_frame, message, next_message, header,
}
use honeybeepf_llm.EventStream.Base64.{decode_base64}

abbrev pub invocation_metrics : Bytes
invocation_metrics = codes "amazon-bedrock-invocationMetrics"

pub data Progress : Type 0 where
  open_stream ended failed broken : Progress

abbrev pub is_open : Progress → Bool
is_open open_stream = true
is_open ended = false
is_open failed = false
is_open broken = false

pub record EventStreamCursor (V : Type 0) : Type 0 where
  pub partial : Bytes
  pub decoded : Bytes
  pub progress : Progress
  pub acc : Option V

abbrev pub default : {V : Type 0} → EventStreamCursor V
default = record { partial = []; decoded = []; progress = open_stream; acc = none }

-- What third parties compute: flate2's checksum, serde_json's readers of a value and of a `Chunk`.
pub record Codecs (J : Json) : Type 0 where
  pub crc32 : Bytes → ℕ
  pub from_slice : Bytes → Option J.Value
  pub chunk_bytes : Bytes → Option Bytes

module _ (J : Json) (codecs : Codecs J) where
  abbrev pub without_metrics : J.Value → J.Value
  without_metrics event = elim (J.as_object event) [
    | none ↦ event
    | some members ↦ J.object (remove invocation_metrics members)
  ]

  abbrev pub event_has_usage : J.Value → Bool
  event_has_usage event =
      has J (codes "usage") event
      || is_some_and (get J (codes "message") event) (has J (codes "usage"))

  abbrev pub merge_event : J.Value → Option J.Value → Option J.Value
  merge_event event acc = if event_has_usage event then merge_usage_event J acc event else acc

  abbrev pub put_metrics : J.Value → J.Value → J.Value
  put_metrics metrics acc = elim (J.as_object acc) [
    | none ↦ acc
    | some members ↦ J.object (insert invocation_metrics metrics members)
  ]

  abbrev pub acc_or_empty : Option J.Value → J.Value
  acc_or_empty none = J.object []
  acc_or_empty (some acc) = acc

  abbrev pub add_metrics : Option J.Value → EventStreamCursor J.Value → EventStreamCursor J.Value
  add_metrics none c = c
  add_metrics (some metrics) c = record c {
    acc = some (put_metrics metrics (acc_or_empty c.acc));
    progress = ended;
  }

  abbrev pub read_event : EventStreamCursor J.Value → Option J.Value → EventStreamCursor J.Value
  read_event c none = c
  read_event c (some event) =
      add_metrics (get J invocation_metrics event)
        (record c { acc = merge_event (without_metrics event) c.acc })

  abbrev pub names_usage : Bytes → Bool
  names_usage text =
      contains_pattern text (codes "usage") || contains_pattern text invocation_metrics

  abbrev pub read_decoded : EventStreamCursor J.Value → Bytes × Bool → EventStreamCursor J.Value
  read_decoded c (text, false) = record c { decoded = text }
  read_decoded c (text, true) =
      if names_usage text
      then read_event (record c { decoded = text }) (codecs.from_slice text)
      else record c { decoded = text }

  abbrev pub read_chunk_bytes : EventStreamCursor J.Value → Option Bytes → EventStreamCursor J.Value
  read_chunk_bytes c none = c
  read_chunk_bytes c (some text) = read_decoded c (decode_base64 text)

  unfoldable pub read_chunk : EventStreamCursor J.Value → Bytes → EventStreamCursor J.Value
  unfolding decode_base64
  read_chunk c payload = read_chunk_bytes c (codecs.chunk_bytes payload)

  abbrev pub merge_parsed : Option J.Value → Option J.Value → Option J.Value
  merge_parsed acc none = acc
  merge_parsed acc (some event) = merge_usage_event J acc event

  abbrev pub header_is : Bytes → Bytes → Bytes → Bool
  header_is headers name value = is_some_and (header headers name) (λ v. bytes_eq v value)

  unfoldable pub read_message :
      EventStreamCursor J.Value → Bytes → Bytes → EventStreamCursor J.Value
  unfolding read_chunk header
  read_message c headers payload =
      if header_is headers (codes ":message-type") (codes "exception")
        || header_is headers (codes ":message-type") (codes "error")
      then record c { progress = failed }
      else if header_is headers (codes ":event-type") (codes "chunk")
      then read_chunk c payload
      else if header_is headers (codes ":event-type") (codes "metadata")
      then record c { acc = merge_parsed c.acc (codecs.from_slice payload); progress = ended }
      else c

  abbrev pub after_frame :
      Frame
      → EventStreamCursor J.Value
      → Bytes
      → (EventStreamCursor J.Value → Bytes → EventStreamCursor J.Value × Bytes)
      → EventStreamCursor J.Value × Bytes
  after_frame partial_frame c buf go_on = (c, buf)
  after_frame broken_frame c buf go_on = (record c { progress = broken }, buf)
  after_frame (message n headers payload) c buf go_on =
      go_on (read_message c headers payload) (drop n buf)

  -- The loop over whole messages: the cursor, and the bytes past those used.
  unfoldable pub read_rounds :
      ℕ → EventStreamCursor J.Value → Bytes → EventStreamCursor J.Value × Bytes
  unfolding next_message read_message
  read_rounds zero c buf = (c, buf)
  read_rounds (suc rounds) c buf =
      if is_open c.progress
      then after_frame (next_message codecs.crc32 buf) c buf (read_rounds rounds)
      else (c, buf)

  unfoldable pub read_messages :
      EventStreamCursor J.Value → Bytes → EventStreamCursor J.Value × Bytes
  unfolding read_rounds
  read_messages c buf = read_rounds (length buf + 1) c buf

  -- `partial` takes the bytes not used behind what it holds; it is taken for a join.
  abbrev pub kept : EventStreamCursor J.Value × Bytes → EventStreamCursor J.Value
  kept (c, rest) = record c { partial = c.partial ++ rest }

  abbrev pub read_joined : Bytes → EventStreamCursor J.Value → Bytes → EventStreamCursor J.Value
  read_joined [] c bytes = kept (read_messages c bytes)
  read_joined (b ∷ bs) c bytes =
      kept (read_messages (record c { partial = [] }) ((b ∷ bs) ++ bytes))

  abbrev pub closed : EventStreamCursor J.Value → EventStreamCursor J.Value
  closed c = if is_open c.progress then c else record c { partial = []; decoded = [] }

  unfoldable pub feed : EventStreamCursor J.Value → Bytes → EventStreamCursor J.Value
  unfolding read_messages
  feed c bytes = if is_open c.progress then closed (read_joined c.partial c bytes) else c

  abbrev pub usage_at :
      {U : Type 0} → (J.Value → Option U) → U → Progress → Option J.Value → Option U
  usage_at parse_response_json_value no_usage ended acc = and_then acc parse_response_json_value
  usage_at parse_response_json_value no_usage failed acc = some no_usage
  usage_at parse_response_json_value no_usage open_stream acc = none
  usage_at parse_response_json_value no_usage broken acc = none

  -- `no_usage` is `UsageInfo::default()`.
  unfoldable pub usage :
      {U : Type 0} → (J.Value → Option U) → U → EventStreamCursor J.Value → Option U
  usage parse_response_json_value no_usage c =
      usage_at parse_response_json_value no_usage c.progress c.acc

  unfoldable pub parse_event_stream_body :
      {U : Type 0} → (J.Value → Option U) → U → Bytes → Option U
  unfolding feed usage
  parse_event_stream_body parse_response_json_value no_usage body =
      usage parse_response_json_value no_usage (feed default body)
