-- ===== src/Processor/Fragment.antt =====
-- processor.rs: a captured fragment handled, on HTTP/2 and on HTTP/1.1, and the end of a connection.
use honeybeepf_llm.Prelude.{
  ℕ, zero, suc, ◌+◌, ◌-◌, ◌^◌, ◌%◌, Bool, not, ◌&&◌, ◌||◌, Option, none, some, List, [], ◌∷◌, ◌++◌,
  Bytes, length, leb, ◌==◌, if◌then◌else◌, min,
}
use honeybeepf_llm.Pricing.Types.{UsageInfo}
use honeybeepf_llm.Frame.Scan.{looks_like_http2}
use honeybeepf_llm.H2.Types.{H2Event, H2Gap, UnparsedReason}
use honeybeepf_llm.H2.Frames.{starts_preface}
use honeybeepf_llm.H2.Conn.{new, new_midjoin, Fed, feed, drop_conn}
use honeybeepf_llm.Processor.Types.{
  LlmDirection, is_read, is_write, capture_limit, Http, Outcome, Note, Node, Call, ProcessorState,
  http2, finished, StreamProcessor,
}
use honeybeepf_llm.Processor.Gaps.{starts_ascii_upper, take_h2_gap, h2_loss}
use honeybeepf_llm.Processor.Settle.{noted, count_unparsed, record_usage, Result, drop_response}
use honeybeepf_llm.Processor.Event.{is_empty, handle_event}
use honeybeepf_llm.Processor.Ahead.{
  is_detecting, is_http2, awaits_http11_response, lost_http11_tail, lost_http11_head,
  note_next_request, resume_next_request,
}

-- The arguments of `handle_fragment` that tell the fragment.
pub record Fragment : Type 0 where
  pub direction : LlmDirection
  pub bytes : Bytes
  pub offset : ℕ
  pub len : ℕ
  pub truncated : Bool

-- `offset.saturating_add(data.len() as u32)`
abbrev pub end_of : Fragment → ℕ
end_of f = min (f.offset + length f.bytes % 2 ^ 32) (2 ^ 32 - 1)

abbrev pub is_complete : Fragment → Bool
is_complete f = leb (min f.len (capture_limit f.direction)) (end_of f)

module _ (H : Http) where
  abbrev pub on_h2_event :
      Call H.Pod → H2Event UsageInfo → Node H.Pod × Outcome → Node H.Pod × Outcome
  on_h2_event call (H2Event.detected path) (node, outcome) = (node, outcome)
  on_h2_event call (H2Event.recorded usage start midjoin) (node, outcome) =
      let node' = record_usage usage start call.pid call.pod_info node in
      (if midjoin then noted (Note.h2_midjoin call.pod_info) node' else node', Outcome.recorded)
  on_h2_event call (H2Event.unparsed reason) (node, outcome) =
      (count_unparsed call.pid reason call.pod_info node, Outcome.unparsed reason)
  on_h2_event call H2Event.resynced (node, outcome) =
      (noted (Note.h2_resynced call.pod_info) node, outcome)

  unfoldable pub on_h2_events :
      Call H.Pod → List (H2Event UsageInfo) → Node H.Pod × Outcome → Node H.Pod × Outcome
  unfolding record_usage count_unparsed
  on_h2_events call [] to = to
  on_h2_events call (event ∷ events) to = on_h2_events call events (on_h2_event call event to)

  abbrev pub fed_to :
      Call H.Pod
      → StreamProcessor H
      → Node H.Pod
      → Option (Fed H.json H.services)
      → Option (Result H)
  fed_to call p node none = none
  fed_to call p node (some fed) =
      let (node', outcome) =
        on_h2_events call fed.events (record node { midjoin_bytes = fed.node }, Outcome.pending) in
      some (record p { state = http2 fed.conn; last_activity = call.now }, node', outcome)

  abbrev pub feed_to :
      ProcessorState H
      → LlmDirection
      → Bytes
      → H2Gap
      → Call H.Pod
      → StreamProcessor H
      → Node H.Pod
      → Option (Result H)
  feed_to (http2 conn) direction bytes gap call p node =
      fed_to call p node
        (feed H.json H.services (is_write direction) bytes gap call.clock conn node.midjoin_bytes)
  feed_to _ direction bytes gap call p node =
      some (record p { last_activity = call.now }, node, Outcome.pending)

  -- `none` is no value of the program: the rounds of a frame reader ran out.
  unfoldable pub feed_http2 :
      LlmDirection → Bytes → H2Gap → Call H.Pod → StreamProcessor H → Node H.Pod → Option (Result H)
  unfolding feed on_h2_events
  feed_http2 direction bytes gap call p node = feed_to p.state direction bytes gap call p node

  abbrev pub enters_http2 : Fragment → StreamProcessor H → Bool
  enters_http2 f p =
      is_http2 H p.state
      || (is_detecting H p.state
          && is_write f.direction
          && (f.offset == 0)
          && is_empty p.write_buf
          && starts_preface f.bytes)

  abbrev pub entered : StreamProcessor H → StreamProcessor H
  entered p = if is_detecting H p.state then record p { state = http2 new } else p

  abbrev pub tracked : Fragment → StreamProcessor H → StreamProcessor H
  tracked f p = record p {
    frag_next = if is_complete f then 0 else end_of f;
    frag_dir = f.direction;
  }

  abbrev pub handle_http2 :
      Fragment → Call H.Pod → StreamProcessor H → Node H.Pod → Option (Result H)
  handle_http2 f call p node =
      let (gap, p') =
        h2_loss H f.direction f.offset f.len (length f.bytes) f.truncated (entered p) in
      feed_http2 f.direction f.bytes gap call (tracked f p') node

  -- Whether `detect_h2_midjoin` returns an outcome.
  abbrev pub joins_midway : Fragment → StreamProcessor H → Bool
  joins_midway f p =
      is_detecting H p.state
      && is_write f.direction
      && not (starts_ascii_upper p.write_buf f.bytes)
      && looks_like_http2 (p.write_buf ++ f.bytes)

  unfoldable pub detect_h2_midjoin :
      Fragment → Call H.Pod → StreamProcessor H → Node H.Pod → Option (Result H)
  unfolding feed_http2 take_h2_gap
  detect_h2_midjoin f call p node =
      let (gap, p') = take_h2_gap H f.direction (
        tracked f (record p {
          write_buf = [];
          state = http2 new_midjoin;
          h2_gap_client = H2Gap.resync;
          h2_gap_server = H2Gap.resync;
        })) in
      feed_http2 f.direction (p.write_buf ++ f.bytes) gap call p' node

  abbrev pub out_of_order : Fragment → StreamProcessor H → Bool
  out_of_order f p = not (f.offset == p.frag_next)

  -- `lost_tail || lost_here`
  abbrev pub has_gap : Fragment → StreamProcessor H → Bool
  has_gap f p =
      (out_of_order f p && (f.offset == 0) && is_read p.frag_dir)
      || (((out_of_order f p && not (f.offset == 0)) || f.truncated) && is_read f.direction)

  abbrev pub resyncs : Bool → Fragment → StreamProcessor H → Bool
  resyncs gap f p = (f.offset == 0) && not gap && lost_http11_tail H f.direction f.bytes p

  abbrev pub drop_reason : Bool → Bool → Fragment → StreamProcessor H → Option UnparsedReason
  drop_reason gap resync f p =
      if gap
      then some UnparsedReason.capture_lost
      else if is_write f.direction && awaits_http11_response H p
      then some UnparsedReason.next_request
      else if resync || ((f.offset == 0) && lost_http11_head H f.direction f.bytes p)
      then some UnparsedReason.capture_lost
      else none

  abbrev pub drop_for :
      Option UnparsedReason → Call H.Pod → StreamProcessor H → Node H.Pod → Result H
  drop_for none call p node = (p, node, Outcome.pending)
  drop_for (some reason) call p node = drop_response H reason call p node

  -- The first outcome where the second is none of `unparsed`.
  abbrev pub unless_unparsed : Outcome → Outcome → Outcome
  unless_unparsed first (Outcome.unparsed reason) = Outcome.unparsed reason
  unless_unparsed first _ = first

  abbrev pub outcome_of : Outcome → Result H → Result H
  outcome_of first (p, node, outcome) = (p, node, unless_unparsed first outcome)

  abbrev pub look_ahead : Bool → Fragment → Call H.Pod → Result H → Result H
  look_ahead resync f call (p, node, dropped) =
      if resync
      then (resume_next_request H node.calls call.now p, node, dropped)
      else if (f.offset == 0) && is_write f.direction
      then outcome_of dropped (note_next_request H f.bytes call p node)
      else (p, node, dropped)

  -- The outcome of what was dropped comes before that of the event.
  abbrev pub and_handle : Bool → Fragment → Call H.Pod → Result H → Result H
  and_handle skips f call (p, node, dropped) =
      if skips
      then (p, node, dropped)
      else let (p', node', fed) = handle_event H f.direction f.bytes (is_complete f) call p node in
        (p', node', unless_unparsed fed dropped)

  abbrev pub handle_http11 : Fragment → Call H.Pod → StreamProcessor H → Node H.Pod → Result H
  handle_http11 f call p node =
      let gap = has_gap f p in
      let p' = tracked f p in
      let resync = resyncs gap f p' in
      and_handle (out_of_order f p && not (f.offset == 0)) f call
        (look_ahead resync f call (drop_for (drop_reason gap resync f p') call p' node))

  unfoldable pub handle_fragment :
      Fragment → Call H.Pod → StreamProcessor H → Node H.Pod → Option (Result H)
  unfolding capture_limit starts_ascii_upper looks_like_http2 h2_loss feed_http2 detect_h2_midjoin
      awaits_http11_response lost_http11_tail lost_http11_head drop_response note_next_request
      resume_next_request handle_event starts_preface new new_midjoin
  handle_fragment f call p node =
      if enters_http2 f p
      then handle_http2 f call p node
      else if joins_midway f p
      then detect_h2_midjoin f call p node
      else some (handle_http11 f call p node)

  unfoldable pub count_closed : ℕ → Call H.Pod → Node H.Pod → Node H.Pod
  unfolding count_unparsed
  count_closed zero call node = node
  count_closed (suc n) call node =
      count_closed n call
        (count_unparsed call.pid UnparsedReason.connection_closed call.pod_info node)

  abbrev pub closed_outcome : ℕ → Outcome
  closed_outcome zero = Outcome.pending
  closed_outcome (suc _) = Outcome.unparsed UnparsedReason.connection_closed

  abbrev pub close_by : ProcessorState H → Call H.Pod → StreamProcessor H → Node H.Pod → Result H
  close_by (http2 conn) call p node =
      let open_streams = length conn.streams in
      (
        record p { state = finished },
        count_closed open_streams call
            (record node { midjoin_bytes = drop_conn conn node.midjoin_bytes }),
        closed_outcome open_streams,
      )
  close_by _ call p node = drop_response H UnparsedReason.connection_closed call p node

  unfoldable pub close : Call H.Pod → StreamProcessor H → Node H.Pod → Result H
  unfolding drop_response count_closed drop_conn
  close call p node = close_by p.state call p node
