-- ===== src/H2/Frames.antt =====
-- http/h2/conn.rs: what each frame of a connection does to its streams.
use honeybeepf_llm.Prelude.{
  ℕ, ◌+◌, ◌-◌, ◌^◌, Bool, true, false, not, ◌&&◌, ◌||◌, Option, none, some, List, [], ◌∷◌, ◌++◌,
  Bytes, length, ltb, ◌==◌, if◌then◌else◌, min,
}
use honeybeepf_llm.Hpack.Types.{codes, Decoder}
use honeybeepf_llm.Hpack.Table
use honeybeepf_llm.Hpack.Decode.{decode}
use honeybeepf_llm.Frame.Types.{
  Frame, preface_bytes, headers, headers_too_large, data_bytes, stream_end, reset, goaway,
}
use honeybeepf_llm.ByteUtils.Search.{starts_with, is_ascii_whitespace}
use honeybeepf_llm.Json.{Json}
use honeybeepf_llm.H2.Stream.{
  H2Stream, open_stream, open_speculative, over_limit, held, response_headers, Change, take_data,
  finish,
}
use honeybeepf_llm.H2.StreamMap.{StreamMap, lookup, contains_key, insert, remove, replace, ids_from}
use honeybeepf_llm.H2.Types.{max_streams, UnparsedReason, H2Event, Services}
use honeybeepf_llm.H2.Blocks.{decode_block, match_request, Response, collect_response}

-- On 64 bits.
abbrev pub usize_max : ℕ
usize_max = 2 ^ 64 - 1

unfoldable pub saturating_add_signed : ℕ → Change → ℕ
saturating_add_signed n (Change.grown k) = min (n + k) usize_max
saturating_add_signed n (Change.shrunk k) = n - k

unfoldable pub looks_recordable : Bytes → Bool
looks_recordable [] = false
looks_recordable (b ∷ bs) =
    let later = looks_recordable bs in
    if is_ascii_whitespace b
    then later
    else b == 123 || starts_with (b ∷ bs) (codes "data:") || starts_with (b ∷ bs) (codes "event:")

unfoldable pub starts_preface : Bytes → Bool
starts_preface bytes = starts_with bytes preface_bytes

module _ (J : Json) {U : Type 0} (services : Services J U) where
  -- What `on_frame` changes: the direction's decoder, the streams and their bytes, and the events.
  pub record Feeding : Type 0 where
    pub decoder : Decoder
    pub streams : StreamMap (H2Stream J.Value)
    pub buffered : ℕ
    pub events : List (H2Event U)

  abbrev pub emit : H2Event U → Feeding → Feeding
  emit event f = record f { events = f.events ++ event ∷ [] }

  abbrev pub drop_found : ℕ → Feeding → Option (H2Stream J.Value) → Feeding
  drop_found id f none = f
  drop_found id f (some s) =
      emit (H2Event.unparsed UnparsedReason.connection_closed)
        (record f { streams = remove id f.streams; buffered = f.buffered - held s })

  unfoldable pub drop_stream : ℕ → Feeding → Feeding
  drop_stream id f = drop_found id f (lookup id f.streams)

  unfoldable pub drop_streams : List ℕ → Feeding → Feeding
  unfolding drop_stream
  drop_streams [] f = f
  drop_streams (id ∷ ids) f = drop_streams ids (drop_stream id f)

  abbrev pub open_matched : ℕ → ℕ → Feeding → Option Bytes × Decoder → Feeding
  open_matched now id f (none, decoder) = record f { decoder = decoder }
  open_matched now id f (some path, decoder) =
      if not (contains_key id f.streams) && ltb (length f.streams) max_streams
      then emit (H2Event.detected path)
          (record f { decoder = decoder; streams = insert id (open_stream now) f.streams })
      else record f { decoder = decoder }

  unfoldable pub request_headers : ℕ → ℕ → Bytes → Feeding → Feeding
  unfolding match_request
  request_headers now id block f =
      open_matched now id f (match_request services.serves f.decoder block)

  abbrev pub answer : ℕ → ℕ → H2Stream J.Value → Feeding → Response × Decoder → Feeding
  answer now id s f (a, decoder) = record f {
    decoder = decoder;
    streams = replace id (response_headers now a.content_type a.coding s) f.streams;
  }

  abbrev pub headers_found : ℕ → ℕ → Bytes → Feeding → Option (H2Stream J.Value) → Feeding
  headers_found now id block f none = record f {
    decoder = (decode_block f.decoder block).1.decoder;
  }
  headers_found now id block f (some s) = answer now id s f (collect_response f.decoder block)

  unfoldable pub response_block : ℕ → ℕ → Bytes → Feeding → Feeding
  unfolding collect_response decode
  response_block now id block f = headers_found now id block f (lookup id f.streams)

  abbrev pub too_large_found : ℕ → Feeding → Option (H2Stream J.Value) → Feeding
  too_large_found id f none = f
  too_large_found id f (some s) = record f {
    buffered = f.buffered - held s;
    streams = remove id f.streams;
  }

  unfoldable pub block_too_large : ℕ → Feeding → Feeding
  block_too_large id f =
      too_large_found id (record f { decoder = Table.forget f.decoder }) (lookup id f.streams)

  -- A stream that is tracked on its response alone.
  unfoldable pub speculate : ℕ → Bool → ℕ → Bytes → Feeding → Feeding
  unfolding looks_recordable
  speculate now midjoin id bytes f =
      if midjoin
        && not (contains_key id f.streams)
        && ltb (length f.streams) max_streams
        && looks_recordable bytes
      then record f { streams = insert id (open_speculative now) f.streams }
      else f

  abbrev pub with_stream : ℕ → Feeding → H2Stream J.Value × Change → Feeding
  with_stream id f (s, change) = record f {
    streams = replace id s f.streams;
    buffered = saturating_add_signed f.buffered change;
  }

  abbrev pub data_found : ℕ → ℕ → ℕ → Bytes → Feeding → Option (H2Stream J.Value) → Feeding
  data_found now cap id bytes f none = f
  data_found now cap id bytes f (some s) =
      with_stream id f (take_data J now bytes (cap - f.buffered) s)

  unfoldable pub response_data : ℕ → ℕ → ℕ → Bytes → Feeding → Feeding
  unfolding take_data saturating_add_signed
  response_data now cap id bytes f = data_found now cap id bytes f (lookup id f.streams)

  abbrev pub ended_event : H2Stream J.Value → Option U → Feeding → Feeding
  ended_event s (some usage) f = emit (H2Event.recorded usage s.start s.speculative) f
  ended_event s none f =
      if over_limit s
      then emit (H2Event.unparsed UnparsedReason.response_too_large) f
      else if s.speculative
      then emit (H2Event.unparsed UnparsedReason.headers_lost) f
      else f

  abbrev pub end_found : ℕ → Feeding → Option (H2Stream J.Value) → Feeding
  end_found id f none = f
  end_found id f (some s) =
      ended_event s (finish J services.readers s)
        (record f { buffered = f.buffered - held s; streams = remove id f.streams })

  unfoldable pub response_end : ℕ → Feeding → Feeding
  unfolding finish over_limit held
  response_end id f = end_found id f (lookup id f.streams)

  -- A frame of the client's direction, then one of the server's.
  unfoldable pub request_frame : ℕ → Frame → Feeding → Feeding
  unfolding request_headers block_too_large
  request_frame now (headers id block) f = request_headers now id block f
  request_frame now (headers_too_large id) f = block_too_large id f
  request_frame now (data_bytes id bytes) f = f
  request_frame now (stream_end id) f = f
  request_frame now (reset id) f = f
  request_frame now (goaway last) f = f

  unfoldable pub response_frame : ℕ → Bool → ℕ → Frame → Feeding → Feeding
  unfolding response_block block_too_large speculate response_data response_end drop_stream
      drop_streams
  response_frame now midjoin cap (headers id block) f = response_block now id block f
  response_frame now midjoin cap (headers_too_large id) f = block_too_large id f
  response_frame now midjoin cap (data_bytes id bytes) f =
      response_data now cap id bytes (speculate now midjoin id bytes f)
  response_frame now midjoin cap (stream_end id) f = response_end id f
  response_frame now midjoin cap (reset id) f = drop_stream id f
  response_frame now midjoin cap (goaway last) f = drop_streams (ids_from (last + 1) f.streams) f

  unfoldable pub on_frame : Bool → ℕ → Bool → ℕ → Frame → Feeding → Feeding
  unfolding request_frame response_frame
  on_frame true now midjoin cap frame f = request_frame now frame f
  on_frame false now midjoin cap frame f = response_frame now midjoin cap frame f
