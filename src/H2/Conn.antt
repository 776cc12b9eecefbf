-- ===== src/H2/Conn.antt =====
-- http/h2/conn.rs: a connection fed one direction's bytes, and its share of the node's budget.
use honeybeepf_llm.Prelude.{
  ℕ, ◌+◌, ◌-◌, ◌^◌, ◌%◌, Bool, true, false, not, ◌&&◌, Option, none, some, List, [], ◌∷◌, Bytes,
  ◌||◌, length, ◌++◌, ltb, leb, if◌then◌else◌, min,
}
use honeybeepf_llm.Hpack.Types.{Decoder}
use honeybeepf_llm.Hpack.Table
use honeybeepf_llm.Frame.Read.{read}
use honeybeepf_llm.Frame.Types.{Frame, FrameReader}
use honeybeepf_llm.Frame.Heads
use honeybeepf_llm.Json.{Json}
use honeybeepf_llm.H2.Stream.{H2Stream, held}
use honeybeepf_llm.H2.StreamMap.{StreamMap}
use honeybeepf_llm.H2.Types.{
  conn_buffer_cap, midjoin_conn_cap, midjoin_node_cap, stream_idle, UnparsedReason, H2Gap, H2Event,
  Dir, Services,
}
use honeybeepf_llm.H2.Frames.{usize_max, Feeding, on_frame}

pub record H2Conn (V : Type 0) : Type 0 where
  pub client : Dir
  pub server : Dir
  pub streams : StreamMap (H2Stream V)
  pub buffered : ℕ
  pub midjoin : Bool

unfoldable pub new : {V : Type 0} → H2Conn V
unfolding Heads.client Heads.server Table.new
new = record {
  client = record { reader = Heads.client; decoder = Table.new };
  server = record { reader = Heads.server; decoder = Table.new };
  streams = [];
  buffered = 0;
  midjoin = false;
}

unfoldable pub new_midjoin : {V : Type 0} → H2Conn V
unfolding new Heads.server
new_midjoin = record new {
  client = record { reader = Heads.server; decoder = Table.new };
  midjoin = true;
}

-- Counters of the node are 64-bit: `fetch_add` and `fetch_sub` wrap around.
unfoldable pub fetch_add : ℕ → ℕ → ℕ
fetch_add node n = (node + n) % 2 ^ 64

unfoldable pub fetch_sub : ℕ → ℕ → ℕ
fetch_sub node n = (node + 2 ^ 64 - n) % 2 ^ 64

unfoldable pub reconcile_node_bytes : ℕ → ℕ → ℕ → ℕ
unfolding fetch_add fetch_sub
reconcile_node_bytes before after node =
    if ltb before after
    then fetch_add node (after - before)
    else if ltb after before
    then fetch_sub node (before - after)
    else node

-- A gap's effect on the direction's reader and decoder, and whether the reader anchors anew.
abbrev pub skipped : Dir → FrameReader × Bool → Dir × Bool
skipped d (reader, fits) = (record d { reader = reader }, not fits)

unfoldable pub bridge : H2Gap → Dir → Dir × Bool
unfolding Heads.skip_gap
bridge H2Gap.no_gap d = (d, false)
bridge (H2Gap.skip n) d = skipped d (Heads.skip_gap d.reader n)
bridge H2Gap.resync d = (d, true)

abbrev pub reanchored : Dir × Bool → Dir
reanchored (d, true) = record { reader = Heads.resync d.reader; decoder = Table.forget d.decoder }
reanchored (d, false) = d

unfoldable pub buffer_cap : Bool → ℕ → ℕ → ℕ
buffer_cap midjoin before node =
    if midjoin
    then min midjoin_conn_cap (min (before + (midjoin_node_cap - node)) usize_max)
    else conn_buffer_cap

abbrev pub side : {V : Type 0} → Bool → H2Conn V → Dir
side true conn = conn.client
side false conn = conn.server

abbrev pub with_side : {V : Type 0} → Bool → Dir → H2Conn V → H2Conn V
with_side true d conn = record conn { client = d }
with_side false d conn = record conn { server = d }

-- `Drop for H2Conn`
unfoldable pub drop_conn : {V : Type 0} → H2Conn V → ℕ → ℕ
unfolding fetch_sub
drop_conn conn node =
    if conn.midjoin && ltb 0 conn.buffered then fetch_sub node conn.buffered else node

module _ (J : Json) {U : Type 0} (services : Services J U) where
  -- The frames in order; `clock` gives the instant at each.
  unfoldable pub on_frames :
      Bool → (ℕ → ℕ) → ℕ → Bool → ℕ → List Frame → Feeding J services → Feeding J services
  unfolding on_frame
  on_frames request clock turn midjoin cap [] f = f
  on_frames request clock turn midjoin cap (frame ∷ frames) f =
      on_frames request clock (turn + 1) midjoin cap frames
        (on_frame J services request (clock turn) midjoin cap frame f)

  -- `s.started()` and long idle: given up.
  unfoldable pub is_idle : ℕ → H2Stream J.Value → Bool
  is_idle now s = s.got_data && leb stream_idle (now - s.last)

  -- `retain` in the order of the ids, with what is kept so far in front.
  unfoldable pub sweep :
      ℕ
      → StreamMap (H2Stream J.Value)
      → ℕ
      → List (H2Event U)
      → StreamMap (H2Stream J.Value) × ℕ × List (H2Event U)
  unfolding is_idle
  sweep now [] buffered events = ([], buffered, events)
  sweep now ((id, s) ∷ m) buffered events =
      let idle = is_idle now s in
      let (kept, buffered', events') = sweep now m (if idle then buffered - held s else buffered) (
        if idle
        then events ++ H2Event.unparsed UnparsedReason.connection_closed ∷ []
        else events) in
      (if idle then kept else (id, s) ∷ kept, buffered', events')

  abbrev pub swept :
      Feeding J services → StreamMap (H2Stream J.Value) × ℕ × List (H2Event U) → Feeding J services
  swept f (streams, buffered, events) = record f {
    streams = streams;
    buffered = buffered;
    events = events;
  }

  unfoldable pub sweep_idle : ℕ → Feeding J services → Feeding J services
  unfolding sweep held
  sweep_idle now f = swept f (sweep now f.streams f.buffered f.events)

  -- What a feed leaves: the connection, the node's count of speculative bytes, and the events.
  pub record Fed : Type 0 where
    pub conn : H2Conn J.Value
    pub node : ℕ
    pub events : List (H2Event U)

  abbrev pub first_events : Bool → List (H2Event U)
  first_events true = H2Event.resynced ∷ []
  first_events false = []

  abbrev pub is_empty_map : StreamMap (H2Stream J.Value) → Bool
  is_empty_map [] = true
  is_empty_map (entry ∷ m) = false

  abbrev pub sweep_some : ℕ → Feeding J services → Feeding J services
  sweep_some now f = if is_empty_map f.streams then f else sweep_idle now f

  abbrev pub fed_from : Bool → Bool → H2Conn J.Value → FrameReader → ℕ → Feeding J services → Fed
  fed_from request midjoin conn reader node f = record {
    conn =
        with_side request (record { reader = reader; decoder = f.decoder })
          (record conn { streams = f.streams; buffered = f.buffered; midjoin = midjoin });
    node = if midjoin then reconcile_node_bytes conn.buffered f.buffered node else node;
    events = f.events;
  }

  abbrev pub start_feeding : Bool → Decoder → H2Conn J.Value → Feeding J services
  start_feeding reanchors decoder conn = record {
    decoder = decoder;
    streams = conn.streams;
    buffered = conn.buffered;
    events = first_events reanchors;
  }

  -- The streams after a read's frames and the sweep.
  abbrev pub read_out :
      Bool → Bool → Bool → (ℕ → ℕ) → H2Conn J.Value → ℕ → Decoder → List Frame → Feeding J services
  read_out request reanchors midjoin clock conn node decoder frames =
      sweep_some (clock (length frames)) (
        on_frames request clock 0 midjoin (buffer_cap midjoin conn.buffered node) frames
          (start_feeding reanchors decoder conn))

  -- `none` is no value of the program: the reader's rounds ran out.
  abbrev pub feed_read :
      Bool
      → Bool
      → Bool
      → (ℕ → ℕ)
      → H2Conn J.Value
      → ℕ
      → Decoder
      → Option (FrameReader × List Frame)
      → Option Fed
  feed_read request reanchors midjoin clock conn node decoder none = none
  feed_read request reanchors midjoin clock conn node decoder (some (reader, frames)) = some (
      fed_from request midjoin conn reader node
        (read_out request reanchors midjoin clock conn node decoder frames))

  abbrev pub feed_bridged : Bool → Bytes → (ℕ → ℕ) → H2Conn J.Value → ℕ → Dir × Bool → Option Fed
  feed_bridged request bytes clock conn node (d, reanchors) =
      let d' = reanchored (d, reanchors) in
      feed_read request reanchors (conn.midjoin || (reanchors && request)) clock conn node
        d'.decoder (read d'.reader bytes)

  -- `request` is `direction == LlmDirection::Write`.
  unfoldable pub feed : Bool → Bytes → H2Gap → (ℕ → ℕ) → H2Conn J.Value → ℕ → Option Fed
  unfolding bridge read on_frames sweep_idle buffer_cap reconcile_node_bytes
  feed request bytes gap clock conn node =
      feed_bridged request bytes clock conn node (bridge gap (side request conn))
