-- ===== src/Processor/Ahead.antt =====
-- processor.rs: what a fragment says of the HTTP/1.1 response in progress, and the request written ahead
-- of it.
use honeybeepf_llm.Prelude.{
  ℕ, Bool, true, false, not, ◌&&◌, ◌||◌, Option, none, some, [], Bytes, length, drop, if◌then◌else◌,
  is_some, min,
}
use honeybeepf_llm.Prelude.Maps.{Map}
use honeybeepf_llm.Hpack.Types.{codes}
use honeybeepf_llm.ByteUtils.Search.{starts_with}
use honeybeepf_llm.Background.Calls.{PendingCall}
use honeybeepf_llm.H2.Types.{UnparsedReason}
use honeybeepf_llm.Processor.Types.{
  LlmDirection, is_read, Http, Outcome, Node, Call, ProcessorState, detecting, processing_request,
  processing_response, http2, StreamProcessor,
}
use honeybeepf_llm.Processor.Gaps.{skip_empty_lines}
use honeybeepf_llm.Processor.Settle.{count_unparsed, Result}
use honeybeepf_llm.Processor.Event.{detect}

abbrev pub status : Bytes
status = codes "HTTP/1."

module _ (H : Http) where
  abbrev pub is_detecting : ProcessorState H → Bool
  is_detecting detecting = true
  is_detecting _ = false

  abbrev pub is_http2 : ProcessorState H → Bool
  is_http2 (http2 _) = true
  is_http2 _ = false

  abbrev pub response_whole : ProcessorState H → StreamProcessor H → Bool
  response_whole (processing_response start parser) p =
      is_some p.past_limit
      || (not parser.writes_during_response && H.is_complete_response p.read_buf)
  response_whole _ p = false

  unfoldable pub awaits_http11_response : StreamProcessor H → Bool
  awaits_http11_response p = response_whole p.state p

  abbrev pub mid_response : ProcessorState H → StreamProcessor H → Bool
  mid_response (processing_response start parser) p =
      not parser.writes_during_response && not (is_some p.past_limit)
  mid_response _ p = false

  unfoldable pub mid_http11_response : StreamProcessor H → Bool
  mid_http11_response p = mid_response p.state p

  unfoldable pub lost_http11_tail : LlmDirection → Bytes → StreamProcessor H → Bool
  unfolding mid_http11_response skip_empty_lines
  lost_http11_tail direction bytes p =
      is_read direction
      && is_some p.next_request
      && mid_http11_response p
      && H.starts_with_response_head (skip_empty_lines bytes)

  -- `STATUS.starts_with(&head[..head.len().min(STATUS.len())])`
  abbrev pub may_be_status : Bytes → Bool
  may_be_status head = starts_with head status || starts_with status head

  abbrev pub lost_head : ProcessorState H → LlmDirection → Bytes → StreamProcessor H → Bool
  lost_head (processing_request start parser) LlmDirection.read_side bytes p =
      not parser.writes_during_response && not (may_be_status (skip_empty_lines bytes))
  lost_head (processing_request start parser) LlmDirection.write_side bytes p =
      not parser.writes_during_response && H.is_request_head bytes
  lost_head (processing_response start parser) LlmDirection.write_side bytes p =
      not parser.writes_during_response
      && not (starts_with (skip_empty_lines p.read_buf) status)
      && H.is_request_head bytes
  lost_head _ _ bytes p = false

  unfoldable pub lost_http11_head : LlmDirection → Bytes → StreamProcessor H → Bool
  unfolding skip_empty_lines
  lost_http11_head direction bytes p = lost_head p.state direction bytes p

  abbrev pub count_skipped : Option (ℕ × ℕ) → Call H.Pod → StreamProcessor H → Node H.Pod → Result H
  count_skipped none call p node = (p, node, Outcome.pending)
  count_skipped (some _) call p node = (
    p,
    count_unparsed call.pid UnparsedReason.capture_lost call.pod_info node,
    Outcome.unparsed UnparsedReason.capture_lost,
  )

  unfoldable pub note_next_request : Bytes → Call H.Pod → StreamProcessor H → Node H.Pod → Result H
  unfolding mid_http11_response count_unparsed
  note_next_request bytes call p node =
      if mid_http11_response p && H.is_request_head bytes
      then count_skipped p.next_request call
          (record p { next_request = some (length p.write_buf, call.now) }) node
      else (p, node, Outcome.pending)

  abbrev pub started_at : ℕ → ProcessorState H → ProcessorState H
  started_at start (processing_request _ parser) = processing_request start parser
  started_at start other = other

  abbrev pub resumed : ℕ → StreamProcessor H × ProcessorState H → StreamProcessor H
  resumed start (p, state) = record p { state = started_at start state }

  abbrev pub resume_at :
      Option (ℕ × ℕ) → Map (PendingCall H.Pod) → ℕ → StreamProcessor H → StreamProcessor H
  resume_at none calls now p = p
  resume_at (some (at, start)) calls now p = resumed start (
      detect H calls now (record p {
        next_request = none;
        write_buf = drop (min at (length p.write_buf)) p.write_buf;
        read_buf = [];
        read_progress = H.default_progress;
      }))

  unfoldable pub resume_next_request :
      Map (PendingCall H.Pod) → ℕ → StreamProcessor H → StreamProcessor H
  unfolding detect
  resume_next_request calls now p = resume_at p.next_request calls now p
