-- ===== src/Events/Loop.antt =====
-- llm/mod.rs and conn_filter.rs: one event routed to its stream, the filter of foreign hosts, and the
-- clean-up of idle streams and calls.
use honeybeepf_llm.Prelude.{
  ℕ, ◌-◌, ◌^◌, ◌/◌, Bool, true, false, not, ◌&&◌, ◌||◌, Option, none, some, List, [], ◌∷◌, Bytes,
  ltb, ◌==◌, if◌then◌else◌,
}
use honeybeepf_llm.Prelude.Maps
use honeybeepf_llm.Prelude.Maps.{Map}
use honeybeepf_llm.SslClass.Entry.{ClassEntry}
use honeybeepf_llm.SslClass.Entry
use honeybeepf_llm.Background.Calls.{PendingCall, expire}
use honeybeepf_llm.H2.Conn.{drop_conn}
use honeybeepf_llm.Processor.Types.{
  LlmDirection, is_write, Http, Outcome, Node, Call, ProcessorState, http2, StreamProcessor,
  new_processor, is_llm,
}
use honeybeepf_llm.Processor.Settle.{Result, give_up}
use honeybeepf_llm.Processor.Event.{is_empty}
use honeybeepf_llm.Processor.Fragment.{Fragment, handle_fragment, close}

-- `LlmDirection::from`
abbrev pub direction_of : ℕ → LlmDirection
direction_of rw =
    if rw == 0
    then LlmDirection.read_side
    else if rw == 1
    then LlmDirection.write_side
    else if rw == 2
    then LlmDirection.handshake
    else LlmDirection.unknown

-- The fields of `LlmEventHeader` that userspace reads.
pub record EventHeader : Type 0 where
  pub pid : ℕ
  pub timestamp : ℕ
  pub ssl_ptr : ℕ
  pub rw : ℕ
  pub len : ℕ
  pub offset : ℕ
  pub is_handshake : ℕ
  pub truncated : ℕ
  pub closed : ℕ

-- `StreamKey`
abbrev pub key_of : EventHeader → Bytes
key_of header = header.pid ∷ header.ssl_ptr ∷ []

abbrev pub fragment_of : EventHeader → Bytes → Fragment
fragment_of header bytes = record {
  direction = direction_of header.rw;
  bytes = bytes;
  offset = header.offset;
  len = header.len;
  truncated = not (header.truncated == 0);
}

-- 300 seconds.
abbrev pub connection_retention_secs : ℕ
connection_retention_secs = 300

module _ (H : Http) where
  abbrev pub Streams : Type 0
  Streams = Map (StreamProcessor H)

  abbrev pub Routed : Type 0
  Routed = Streams × Node H.Pod × Outcome

  abbrev pub with_streams : Streams → Result H → Routed
  with_streams streams (p, node, outcome) = (streams, node, outcome)

  -- The stream was removed; one with an LLM call is closed.
  abbrev pub close_removed : Option (StreamProcessor H) → Call H.Pod → Streams → Node H.Pod → Routed
  close_removed none call streams node = (streams, node, Outcome.pending)
  close_removed (some p) call streams node =
      if is_llm H p
      then with_streams streams (close H call p node)
      else (streams, node, Outcome.pending)

  abbrev pub or_default : ℕ → Option (StreamProcessor H) → StreamProcessor H
  or_default now none = new_processor H now
  or_default now (some p) = p

  abbrev pub put_back : Bytes → Streams → Option (Result H) → Option Routed
  put_back key streams none = none
  put_back key streams (some (p, node, outcome)) = some (Maps.insert key p streams, node, outcome)

  -- A call is of the header's process.
  abbrev pub of_process : EventHeader → Call H.Pod → Call H.Pod
  of_process header call = record call { pid = header.pid }

  unfoldable pub route_event :
      EventHeader → Bytes → Call H.Pod → Streams → Node H.Pod → Option Routed
  unfolding is_llm close new_processor handle_fragment
  route_event header bytes call streams node =
      if not (header.closed == 0)
      then some (
          close_removed (Maps.lookup (key_of header) streams) (of_process header call)
            (Maps.remove (key_of header) streams) node)
      else if is_empty bytes
      then some (streams, node, Outcome.pending)
      else put_back (key_of header) streams (
          handle_fragment H (fragment_of header bytes) (of_process header call)
            (or_default call.now (Maps.lookup (key_of header) streams)) node)

  -- What the process keeps: the streams, what they share, and the kernel's SSL_CLASS map.
  pub record System : Type 0 where
    pub streams : Streams
    pub node : Node H.Pod
    pub classes : Map ClassEntry

  abbrev pub in_progress : Option (StreamProcessor H) → Bool
  in_progress none = false
  in_progress (some p) = is_llm H p

  abbrev pub skipped_entry : Option ClassEntry → ℕ → Option ClassEntry
  skipped_entry none event_ns = none
  skipped_entry (some entry) event_ns = Entry.skip_connection entry event_ns

  abbrev pub write_back : Bytes → Option ClassEntry → Map ClassEntry → Map ClassEntry
  write_back key none classes = classes
  write_back key (some entry) classes = Maps.insert key entry classes

  unfoldable pub skip_connection : EventHeader → Map ClassEntry → Map ClassEntry
  unfolding Entry.skip_connection
  skip_connection header classes =
      write_back (key_of header)
        (skipped_entry (Maps.lookup (key_of header) classes) header.timestamp) classes

  abbrev pub routed : Map ClassEntry → Option Routed → Option System
  routed classes none = none
  routed classes (some (streams, node, outcome)) =
      some (record { streams = streams; node = node; classes = classes })

  -- `has_foreign_host` of `Http11Parser`.
  module _ (has_foreign_host : Bytes → Bool) where
    unfoldable pub opens_foreign_request : EventHeader → Bytes → Bool
    opens_foreign_request header bytes =
        is_write (direction_of header.rw) && (header.offset == 0) && has_foreign_host bytes

    -- Whether it is consumed, and what is left.
    unfoldable pub skip_if_foreign : EventHeader → Bytes → System → Bool × System
    unfolding opens_foreign_request is_llm skip_connection
    skip_if_foreign header bytes s =
        if not (opens_foreign_request header bytes)
          || in_progress (Maps.lookup (key_of header) s.streams)
        then (false, s)
        else (
          true,
          record s {
            streams = Maps.remove (key_of header) s.streams;
            classes = skip_connection header s.classes;
          },
        )

    abbrev pub route_unless : Bool × System → EventHeader → Bytes → Call H.Pod → Option System
    route_unless (true, s) header bytes call = some s
    route_unless (false, s) header bytes call =
        routed s.classes (route_event header bytes call s.streams s.node)

    -- The handler of SSL_EVENTS.
    unfoldable pub on_event : EventHeader → Bytes → Call H.Pod → System → Option System
    unfolding skip_if_foreign route_event
    on_event header bytes call s =
        if header.is_handshake == 1
        then some s
        else route_unless (skip_if_foreign header bytes s) header bytes call

  -- An HTTP/2 connection gives its share back.
  abbrev pub drop_state : ProcessorState H → ℕ → ℕ
  drop_state (http2 conn) node = drop_conn conn node
  drop_state _ node = node

  abbrev pub is_retained : ℕ → StreamProcessor H → Bool
  is_retained now p = ltb ((now - p.last_activity) / 10 ^ 9) connection_retention_secs

  -- `retain`: the streams kept, and the node's count after the drops.
  unfoldable pub retain : ℕ → Streams → ℕ → Streams × ℕ
  unfolding drop_conn
  retain now [] node = ([], node)
  retain now ((k, p) ∷ streams) node =
      let keeps = is_retained now p in
      let (kept, node') = retain now streams (if keeps then node else drop_state p.state node) in
      (if keeps then (k, p) ∷ kept else kept, node')

  unfoldable pub give_up_all : List (PendingCall H.Pod) → Node H.Pod → Node H.Pod
  unfolding give_up
  give_up_all [] node = node
  give_up_all (call ∷ calls) node = give_up_all calls (give_up call node)

  abbrev pub expired_with :
      Streams × ℕ → List (PendingCall H.Pod) × Map (PendingCall H.Pod) → System → System
  expired_with (streams, bytes) (gone, kept) s = record s {
    streams = streams;
    node = give_up_all gone (record s.node { calls = kept; midjoin_bytes = bytes });
  }

  -- A round of the clean-up task at the instant `now`.
  unfoldable pub clean_up : ℕ → System → System
  unfolding retain expire give_up_all
  clean_up now s =
      expired_with (retain now s.streams s.node.midjoin_bytes) (expire now s.node.calls) s

  -- What the process does: a record of SSL_EVENTS arrives, or the clean-up task has a round.
  pub data Input : Type 0 where
    arrives : EventHeader → Bytes → Call H.Pod → Input
    cleans : ℕ → Input

  module _ (has_foreign_host : Bytes → Bool) where
    abbrev pub step : Input → System → Option System
    step (arrives header bytes call) s = on_event has_foreign_host header bytes call s
    step (cleans now) s = some (clean_up now s)

    -- The inputs in the order in which they take the locks.
    unfoldable pub run : List Input → System → Option System
    unfolding on_event clean_up
    run [] s = some s
    run (input ∷ inputs) s = elim (step input s) [ none ↦ none | some s' ↦ run inputs s' ]
