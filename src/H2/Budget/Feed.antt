-- ===== src/H2/Budget/Feed.antt =====
-- A whole feed keeps a connection's accounts, and returns.
use honeybeepf_llm.Prelude.{
  ℕ, ◌+◌, ◌-◌, ◌≤◌, ◌≡◌, Bool, true, false, Bool-cases, inl, inr, ◌||◌, ◌&&◌, Option, none, some,
  List, [], ◌∷◌, ◌++◌, Bytes, length, arith,
}
use honeybeepf_llm.Hpack.Types.{Decoder}
use honeybeepf_llm.Frame.Types.{Frame, FrameReader}
use honeybeepf_llm.Frame.Read.{read}
use honeybeepf_llm.Frame.Invariant.{IsValid, resync-IsValid, skip_gap-IsValid}
use honeybeepf_llm.Frame.Returns.{Returns, read-Returns}
use honeybeepf_llm.Json.{Json}
use honeybeepf_llm.H2.Stream.{H2Stream, held}
use honeybeepf_llm.H2.StreamMap.{StreamMap, total, Every}
use honeybeepf_llm.H2.Types.{conn_buffer_cap, UnparsedReason, H2Event, H2Gap, Dir, Services}
use honeybeepf_llm.H2.Frames.{Feeding, on_frame}
use honeybeepf_llm.H2.Conn.{
  H2Conn, on_frames, is_idle, sweep, sweep_idle, buffer_cap, bridge, reanchored, side, Fed, feed,
  feed_read, start_feeding, fed_from, sweep_some, is_empty_map,
}
use honeybeepf_llm.H2.Budget.Streams.{StreamOk}
use honeybeepf_llm.H2.Budget.Frames.{Accounts, IsAccounted, on_frame-IsAccounted}

module _ (J : Json) {U : Type 0} (services : Services J U) where
  on_frames-IsAccounted :
      (request : Bool) (clock : ℕ → ℕ) (turn : ℕ) (midjoin : Bool) (cap : ℕ) (frames : List Frame)
      (f : Feeding J services)
      → cap ≤ conn_buffer_cap
      → IsAccounted J services f
      → IsAccounted J services (on_frames J services request clock turn midjoin cap frames f)
  unfolding on_frames
  on_frames-IsAccounted request clock turn midjoin cap [] f le a = a
  on_frames-IsAccounted request clock turn midjoin cap (frame ∷ frames) f le a =
      on_frames-IsAccounted request clock (turn + 1) midjoin cap frames
        (on_frame J services request (clock turn) midjoin cap frame f) le
        (on_frame-IsAccounted J services request (clock turn) midjoin cap frame f le a)

  -- What the sweep keeps of a map: less bytes by what the swept streams held.
  sweep_lem :
      (now : ℕ) (m : StreamMap (H2Stream J.Value)) (n rest : ℕ) (events : List (H2Event U))
      → n ≡ total held m + rest
      → Every StreamOk m
      → ((sweep J services now m n events).1
          ≡ total held (sweep J services now m n events).0 + rest)
        × (length (sweep J services now m n events).0 ≤ length m)
        × Every StreamOk (sweep J services now m n events).0
  unfolding sweep
  sweep_lem now [] n rest events e h = (e, omega arith, tt)
  sweep_lem now ((id, s) ∷ m) n rest events e h = elim (Bool-cases (is_idle J services now s)) [
    | inl idle ↦
        let later =
          sweep_lem now m (n - held s) rest
            (events ++ H2Event.unparsed UnparsedReason.connection_closed ∷ []) (omega arith) h.1 in
        rw idle (later.0, omega (arith, later.1), later.2)
    | inr busy ↦
        let later = sweep_lem now m n (held s + rest) events (omega arith) h.1 in
        rw busy (omega (arith, later.0), omega (arith, later.1), (h.0, later.2))
  ]

  sweep_le :
      (now : ℕ) (m : StreamMap (H2Stream J.Value)) (n : ℕ) (events : List (H2Event U))
      → (sweep J services now m n events).1 ≤ n
  unfolding sweep
  sweep_le now [] n events = omega arith
  sweep_le now ((id, s) ∷ m) n events = elim (Bool-cases (is_idle J services now s)) [
    | inl idle ↦ rw idle (
        omega (
          arith,
          sweep_le now m (n - held s)
              (events ++ H2Event.unparsed UnparsedReason.connection_closed ∷ []),
        ))
    | inr busy ↦ rw busy (sweep_le now m n events)
  ]

  sweep_idle-IsAccounted :
      (now : ℕ) (f : Feeding J services)
      → IsAccounted J services f
      → IsAccounted J services (sweep_idle J services now f)
  unfolding sweep_idle
  sweep_idle-IsAccounted now f a =
      let kept =
        sweep_lem now f.streams f.buffered 0 f.events (omega (arith, a.counted)) a.each_ok in
      let swept_streams = sweep_le now f.streams f.buffered f.events in
      record {
        counted = omega (arith, kept.0);
        within_cap = omega (arith, swept_streams, a.within_cap);
        few = omega (arith, kept.1, a.few);
        each_ok = kept.2;
      }

  sweep_some-IsAccounted :
      (now : ℕ) (f : Feeding J services)
      → IsAccounted J services f
      → IsAccounted J services (sweep_some J services now f)
  sweep_some-IsAccounted now f a = elim (Bool-cases (is_empty_map J services f.streams)) [
    | inl h ↦ rw h a
    | inr h ↦ rw h (sweep_idle-IsAccounted now f a)
  ]

  buffer_cap_le :
      (midjoin : Bool) (before node : ℕ) → buffer_cap midjoin before node ≤ conn_buffer_cap
  unfolding buffer_cap
  buffer_cap_le true before node = omega arith
  buffer_cap_le false before node = omega arith

  -- Both readers are valid, and the connection's accounts hold.
  pub record ConnOk (conn : H2Conn J.Value) : Type 0 where
    pub client_ok : IsValid conn.client.reader
    pub server_ok : IsValid conn.server.reader
    pub accounts : Accounts J.Value conn.streams conn.buffered

  abbrev pub FeedReturns : Option (Fed J services) → Type 0
  FeedReturns none = ⊥
  FeedReturns (some fed) = ConnOk fed.conn

  fed_from-ConnOk :
      (request midjoin : Bool) (conn : H2Conn J.Value) (reader : FrameReader) (node : ℕ)
      (f : Feeding J services)
      → ConnOk conn
      → IsValid reader
      → IsAccounted J services f
      → ConnOk (Fed.conn (fed_from J services request midjoin conn reader node f))
  fed_from-ConnOk true midjoin conn reader node f ok valid a = record {
    client_ok = valid;
    server_ok = ok.server_ok;
    accounts = a;
  }
  fed_from-ConnOk false midjoin conn reader node f ok valid a = record {
    client_ok = ok.client_ok;
    server_ok = valid;
    accounts = a;
  }

  feed_read-Returns :
      (request reanchors midjoin : Bool) (clock : ℕ → ℕ) (conn : H2Conn J.Value) (node : ℕ)
      (decoder : Decoder) (o : Option (FrameReader × List Frame))
      → ConnOk conn
      → Returns o
      → FeedReturns (feed_read J services request reanchors midjoin clock conn node decoder o)
  feed_read-Returns request reanchors midjoin clock conn node decoder none ok v = v
  feed_read-Returns request reanchors midjoin clock conn node decoder (some (reader, frames)) ok v =
      let cap = buffer_cap midjoin conn.buffered node in
      let f =
        on_frames J services request clock 0 midjoin cap frames
          (start_feeding J services reanchors decoder conn) in
      fed_from-ConnOk request midjoin conn reader node
        (sweep_some J services (clock (length frames)) f) ok v
        (sweep_some-IsAccounted (clock (length frames)) f (
          on_frames-IsAccounted request clock 0 midjoin cap frames
            (start_feeding J services reanchors decoder conn)
            (buffer_cap_le midjoin conn.buffered node) ok.accounts))

  side-IsValid :
      (request : Bool) (conn : H2Conn J.Value)
      → ConnOk conn
      → IsValid (Dir.reader (side request conn))
  side-IsValid true conn ok = ok.client_ok
  side-IsValid false conn ok = ok.server_ok

  reanchored-IsValid :
      (d : Dir) (again : Bool) → IsValid d.reader → IsValid (Dir.reader (reanchored (d, again)))
  reanchored-IsValid d true v = resync-IsValid d.reader v
  reanchored-IsValid d false v = v

  bridge-IsValid :
      (gap : H2Gap) (d : Dir) → IsValid d.reader → IsValid (Dir.reader ((bridge gap d).0))
  unfolding bridge
  bridge-IsValid H2Gap.no_gap d v = v
  bridge-IsValid (H2Gap.skip n) d v = skip_gap-IsValid d.reader n v
  bridge-IsValid H2Gap.resync d v = v

  -- Feeding a connection returns, whatever the bytes, the gap, the clock and the node's count, and
  -- keeps it sound if it was: both readers stay valid, the buffered count is the sum of what the
  -- streams hold and at most 32 MiB, at most 128 streams are tracked, and each holds at most 16
  -- MiB, and nothing before its first DATA.
  pub feed-Returns :
      (request : Bool) (bytes : Bytes) (gap : H2Gap) (clock : ℕ → ℕ) (conn : H2Conn J.Value)
      (node : ℕ)
      → ConnOk conn
      → FeedReturns (feed J services request bytes gap clock conn node)
  unfolding feed
  feed-Returns request bytes gap clock conn node ok =
      let (d, again) = bridge gap (side request conn) in
      let d' = reanchored (d, again) in
      feed_read-Returns request again (conn.midjoin || (again && request)) clock conn node
        d'.decoder (read d'.reader bytes) ok
        (read-Returns d'.reader bytes (
          reanchored-IsValid d again
            (bridge-IsValid gap (side request conn) (side-IsValid request conn ok))))
