-- ===== src/Processor/Event.antt =====
-- processor.rs: a fragment put into the buffers, the request detected, and the response parsed.
use honeybeepf_llm.Prelude.{
  ℕ, ◌+◌, Bool, true, false, not, ◌&&◌, ◌||◌, Option, none, some, [], ◌∷◌, ◌++◌, Bytes, length, ltb,
  if◌then◌else◌, is_some,
}
use honeybeepf_llm.Prelude.Maps.{Map}
use honeybeepf_llm.Pricing.Types.{UsageInfo}
use honeybeepf_llm.Hpack.Types.{codes}
use honeybeepf_llm.ByteUtils.Search.{starts_with}
use honeybeepf_llm.Background.Calls.{PendingCall, contains}
use honeybeepf_llm.H2.Stream.{max_response_buffer_size}
use honeybeepf_llm.H2.Types.{H2Gap, UnparsedReason}
use honeybeepf_llm.Processor.Types.{
  max_request_buffer_size, detection_buffer_threshold, LlmDirection, is_read, BackgroundState,
  ProtocolParser, Http, Outcome, Node, Call, PastLimit, json_ends, sse, ProcessorState, detecting,
  processing_request, processing_response, finished, StreamProcessor,
}
use honeybeepf_llm.Processor.Settle.{Settled, settle, Result, drop_response}

-- `Result<bool, UnparsedReason>`
pub data Buffered : Type 0 where
  kept ignored : Buffered
  overflow : UnparsedReason → Buffered

abbrev pub is_empty : Bytes → Bool
is_empty [] = true
is_empty (_ ∷ _) = false

module _ (H : Http) where
  unfoldable pub past_start : Bytes → Option (PastLimit H)
  past_start buffer = elim (H.ends_start buffer) [
    | some ends ↦ some (json_ends ends)
    | none ↦ elim (H.stream_start buffer) [ none ↦ none | some stream ↦ some (sse stream) ]
  ]

  unfoldable pub past_feed : PastLimit H → Bytes → PastLimit H × Bool
  past_feed (json_ends ends) bytes =
      let (ends', fed) = H.ends_feed ends bytes in (json_ends ends', fed)
  past_feed (sse stream) bytes =
      let (stream', fed) = H.stream_feed stream bytes in (sse stream', fed)

  unfoldable pub past_take_usage : PastLimit H → Option UsageInfo × PastLimit H
  past_take_usage (json_ends ends) =
      let (usage, ends') = H.ends_take ends in (usage, json_ends ends')
  past_take_usage (sse stream) = (H.stream_usage stream, sse stream)

  unfoldable pub reset : StreamProcessor H → StreamProcessor H
  reset p = record p {
    state = detecting;
    write_buf = [];
    read_buf = [];
    read_progress = H.default_progress;
    past_limit = none;
    next_request = none;
    continuation = none;
    h2_gap_client = H2Gap.no_gap;
    h2_gap_server = H2Gap.no_gap;
  }

  abbrev pub reset_finished : ProcessorState H → StreamProcessor H → StreamProcessor H
  reset_finished finished p = reset p
  reset_finished _ p = p

  abbrev pub appended_write : Bytes → StreamProcessor H → StreamProcessor H × Buffered
  appended_write bytes p =
      if ltb max_request_buffer_size (length p.write_buf + length bytes)
      then (p, overflow UnparsedReason.request_too_large)
      else (record p { write_buf = p.write_buf ++ bytes }, kept)

  unfoldable pub buffer_write : Bytes → StreamProcessor H → StreamProcessor H × Buffered
  unfolding reset
  buffer_write bytes p = appended_write bytes (reset_finished p.state p)

  -- `then_some(true).ok_or(…)`
  abbrev pub followed : StreamProcessor H → PastLimit H × Bool → StreamProcessor H × Buffered
  followed p (limit, true) = (record p { past_limit = some limit }, kept)
  followed p (limit, false) =
      (record p { past_limit = some limit }, overflow UnparsedReason.response_too_large)

  abbrev pub follow :
      Option (PastLimit H) → Bytes → StreamProcessor H → StreamProcessor H × Buffered
  follow none bytes p = (record p { read_buf = p.read_buf ++ bytes }, kept)
  follow (some limit) bytes p = followed p (past_feed limit bytes)

  -- Past the limit now: followed from here on, if it can be.
  abbrev pub follow_from :
      Option (PastLimit H) → Bytes → StreamProcessor H → StreamProcessor H × Buffered
  follow_from none bytes p = (p, overflow UnparsedReason.response_too_large)
  follow_from (some limit) bytes p =
      followed (record p { read_buf = []; read_progress = H.default_progress })
        (past_feed limit bytes)

  abbrev pub buffer_response : Bytes → StreamProcessor H → StreamProcessor H × Buffered
  buffer_response bytes p =
      if not (is_some p.past_limit)
        && ltb max_response_buffer_size (length p.read_buf + length bytes)
      then follow_from (past_start p.read_buf) bytes p
      else follow p.past_limit bytes p

  -- The server answers a request that is no LLM call.
  abbrev pub answered : Bytes → StreamProcessor H → StreamProcessor H
  answered bytes p =
      if not (is_empty p.write_buf)
        && (starts_with bytes (codes "HTTP/1.") || H.is_request_head p.write_buf)
      then record p { write_buf = [] }
      else p

  abbrev pub buffer_read_by :
      ProcessorState H → Bytes → StreamProcessor H → StreamProcessor H × Buffered
  buffer_read_by finished bytes p = (p, ignored)
  buffer_read_by detecting bytes p = (answered bytes p, ignored)
  buffer_read_by _ bytes p = buffer_response bytes p

  unfoldable pub buffer_read : Bytes → StreamProcessor H → StreamProcessor H × Buffered
  unfolding past_start past_feed
  buffer_read bytes p = buffer_read_by p.state bytes p

  -- `retrieved_response_id(…).filter(…)`
  abbrev pub known_id : Map (PendingCall H.Pod) → Option Bytes → Option Bytes
  known_id calls none = none
  known_id calls (some id) = if contains id calls then some id else none

  abbrev pub detect_rest :
      Option Bytes → ℕ → StreamProcessor H → StreamProcessor H × ProcessorState H
  detect_rest (some path) now p = (p, processing_request now H.http2)
  detect_rest none now p =
      (p, if ltb detection_buffer_threshold (length p.write_buf) then finished else detecting)

  abbrev pub detect_poll :
      Option Bytes → ℕ → StreamProcessor H → StreamProcessor H × ProcessorState H
  detect_poll (some id) now p =
      (record p { continuation = some id }, processing_request now H.http11)
  detect_poll none now p = detect_rest (H.http2.detect_request p.write_buf) now p

  abbrev pub detect_by :
      Option Bytes
      → Map (PendingCall H.Pod)
      → ℕ
      → StreamProcessor H
      → StreamProcessor H × ProcessorState H
  detect_by (some path) calls now p = (p, processing_request now H.http11)
  detect_by none calls now p =
      detect_poll (known_id calls (H.retrieved_response_id p.write_buf)) now p

  -- The continuation it leaves, and the next state.
  unfoldable pub detect :
      Map (PendingCall H.Pod) → ℕ → StreamProcessor H → StreamProcessor H × ProcessorState H
  detect calls now p = detect_by (H.http11.detect_request p.write_buf) calls now p

  abbrev pub parse_by :
      Option (PastLimit H)
      → ProtocolParser H.Progress
      → StreamProcessor H
      → Option UsageInfo × StreamProcessor H
  parse_by (some limit) parser p =
      let (usage, limit') = past_take_usage limit in (usage, record p { past_limit = some limit' })
  parse_by none parser p =
      let (usage, progress) = parser.parse_response_from p.read_buf p.read_progress in
      (usage, record p { read_progress = progress })

  abbrev pub noted_state : StreamProcessor H → Option BackgroundState × StreamProcessor H
  noted_state p =
      let (state, progress) = H.take_background p.read_progress in
      (state, record p { read_progress = progress })

  abbrev pub awaiting : ℕ → ProtocolParser H.Progress → Settled H → Result H
  awaiting start parser (some outcome, p, node) = (p, node, outcome)
  awaiting start parser (none, p, node) =
      (record p { state = processing_response start parser }, node, Outcome.pending)

  abbrev pub parse_and_settle :
      ℕ → ProtocolParser H.Progress → Call H.Pod → StreamProcessor H → Node H.Pod → Result H
  parse_and_settle start parser call p node =
      let (usage, p1) = parse_by p.past_limit parser p in
      let (state, p2) = noted_state p1 in
      awaiting start parser (settle H usage state start call p2 node)

  -- The state is `finished` while the call is settled.
  abbrev pub respond :
      ℕ → ProtocolParser H.Progress → Bool → Call H.Pod → StreamProcessor H → Node H.Pod → Result H
  respond start parser complete call p node =
      if complete
      then parse_and_settle start parser call (record p { state = finished }) node
      else (record p { state = processing_response start parser }, node, Outcome.pending)

  abbrev pub advance :
      ProcessorState H
      → LlmDirection
      → Bool
      → Call H.Pod
      → StreamProcessor H
      → Node H.Pod
      → Result H
  advance detecting direction complete call p node =
      let (p', state) = detect node.calls call.now p in
      (record p' { state = state }, node, Outcome.pending)
  advance (processing_request start parser) direction complete call p node =
      if is_read direction
      then respond start parser complete call p node
      else (p, node, Outcome.pending)
  advance (processing_response start parser) direction complete call p node =
      respond start parser complete call p node
  advance _ direction complete call p node = (p, node, Outcome.pending)

  abbrev pub after_drop : Result H → Result H
  after_drop (p, node, outcome) = (reset p, node, outcome)

  abbrev pub after_buffering :
      LlmDirection → Bool → Call H.Pod → Node H.Pod → StreamProcessor H × Buffered → Result H
  after_buffering direction complete call node (p, kept) =
      advance p.state direction complete call p node
  after_buffering direction complete call node (p, ignored) = (p, node, Outcome.pending)
  after_buffering direction complete call node (p, overflow reason) =
      after_drop (drop_response H reason call p node)

  abbrev pub buffer : LlmDirection → Bytes → StreamProcessor H → StreamProcessor H × Buffered
  buffer LlmDirection.write_side bytes p = buffer_write bytes p
  buffer LlmDirection.read_side bytes p = buffer_read bytes p
  buffer _ bytes p = (p, ignored)

  unfoldable pub handle_event :
      LlmDirection → Bytes → Bool → Call H.Pod → StreamProcessor H → Node H.Pod → Result H
  unfolding buffer_write buffer_read detect past_take_usage settle drop_response reset
  handle_event direction bytes complete call p node =
      after_buffering direction complete call node
        (buffer direction bytes (record p { last_activity = call.now }))
