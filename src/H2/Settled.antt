-- ===== src/H2/Settled.antt =====
-- Without a midway join, each call that is detected is settled once at most: recorded, unparsed, or
-- still open.
use mathlib.Core.Path.{subst}
use honeybeepf_llm.Prelude.{
  sym, ℕ, suc, ◌+◌, ◌-◌, ◌≤◌, ◌≡◌, refl, Bool, true, false, not, Bool-cases, inl, inr, ◌||◌, ◌&&◌,
  Option, none, some, List, [], ◌∷◌, ◌++◌, Bytes, length, ltb, arith,
}
use honeybeepf_llm.Hpack.Types.{Decoder}
use honeybeepf_llm.Hpack.Table
use honeybeepf_llm.Frame.Types.{
  Frame, FrameReader, headers, headers_too_large, data_bytes, stream_end, reset, goaway,
}
use honeybeepf_llm.Frame.Read.{read}
use honeybeepf_llm.Json.{Json}
use honeybeepf_llm.H2.Stream.{
  H2Stream, held, open_stream, response_headers, take_data, finish, over_limit,
}
use honeybeepf_llm.H2.StreamMap.{
  StreamMap, lookup, contains_key, remove, ids_from, total-insert, total-remove, total-replace,
}
use honeybeepf_llm.H2.Types.{
  max_streams, UnparsedReason, H2Event, H2Gap, Services, detected, recorded, unparsed, resynced,
}
use honeybeepf_llm.H2.Blocks.{match_request, collect_response}
use honeybeepf_llm.H2.Frames.{
  Feeding, drop_found, drop_stream, drop_streams, open_matched, request_headers, headers_found,
  response_block, too_large_found, block_too_large, speculate, data_found, response_data,
  ended_event, end_found, response_end, request_frame, response_frame, on_frame,
}
use honeybeepf_llm.H2.Conn.{
  H2Conn, on_frames, is_idle, sweep, sweep_idle, sweep_some, is_empty_map, read_out, buffer_cap,
  bridge, side, Fed, feed, feed_read, start_feeding,
}
use honeybeepf_llm.H2.Budget.Frames.{missing, and_true}
use honeybeepf_llm.H2.Budget.Feed.{ConnOk, FeedReturns, feed-Returns}

module _ {U : Type 0} where
  abbrev settles : H2Event U → ℕ
  settles (detected path) = 0
  settles (recorded usage start midjoin) = 1
  settles (unparsed reason) = 1
  settles resynced = 0

  abbrev detects : H2Event U → ℕ
  detects (detected path) = 1
  detects (recorded usage start midjoin) = 0
  detects (unparsed reason) = 0
  detects resynced = 0

  -- The events that settle a call, and those that detect one.
  abbrev pub settled : List (H2Event U) → ℕ
  settled [] = 0
  settled (e ∷ es) = settles e + settled es

  abbrev pub detections : List (H2Event U) → ℕ
  detections [] = 0
  detections (e ∷ es) = detects e + detections es

  settled-append :
      (es : List (H2Event U)) (e : H2Event U) → settled (es ++ e ∷ []) ≡ settled es + settles e
  settled-append [] e = omega arith
  settled-append (d ∷ es) e = omega (arith, settled-append es e)

  detections-append :
      (es : List (H2Event U)) (e : H2Event U)
      → detections (es ++ e ∷ []) ≡ detections es + detects e
  detections-append [] e = omega arith
  detections-append (d ∷ es) e = omega (arith, detections-append es e)

module _ (J : Json) {U : Type 0} (services : Services J U) where
  -- Calls settled and calls open are no more than calls detected, and `k` open before.
  abbrev Balanced : ℕ → List (H2Event U) → ℕ → Type 0
  Balanced k events open_streams = settled events + open_streams ≤ detections events + k

  abbrev IsBalanced : ℕ → Feeding J services → Type 0
  IsBalanced k f = Balanced k f.events (length f.streams)

  length-remove :
      (id : ℕ) (s : H2Stream J.Value) (m : StreamMap (H2Stream J.Value))
      → lookup id m ≡ some s
      → suc (length (remove id m)) ≡ length m
  length-remove id s m e = (total-remove held id s m e).1

  settle :
      (k : ℕ) (events : List (H2Event U)) (n n' : ℕ) (e : H2Event U)
      → Balanced k events n
      → suc n' ≡ n
      → settles e ≤ 1
      → Balanced k (events ++ e ∷ []) n'
  settle k events n n' e b fewer one =
      omega (arith, settled-append events e, detections-append events e)

  drop_found-IsBalanced :
      (k id : ℕ) (f : Feeding J services) (o : Option (H2Stream J.Value))
      → lookup id f.streams ≡ o
      → IsBalanced k f
      → IsBalanced k (drop_found J services id f o)
  drop_found-IsBalanced k id f none e b = b
  drop_found-IsBalanced k id f (some s) e b =
      settle k f.events (length f.streams) (length (remove id f.streams))
        (unparsed UnparsedReason.connection_closed) b (length-remove id s f.streams e) (omega arith)

  drop_streams-IsBalanced :
      (k : ℕ) (ids : List ℕ) (f : Feeding J services)
      → IsBalanced k f
      → IsBalanced k (drop_streams J services ids f)
  unfolding drop_streams drop_stream
  drop_streams-IsBalanced k [] f b = b
  drop_streams-IsBalanced k (id ∷ ids) f b =
      drop_streams-IsBalanced k ids (drop_stream J services id f)
        (drop_found-IsBalanced k id f (lookup id f.streams) refl b)

  open_matched-IsBalanced :
      (k now id : ℕ) (f : Feeding J services) (m : Option Bytes × Decoder)
      → IsBalanced k f
      → IsBalanced k (open_matched J services now id f m)
  open_matched-IsBalanced k now id f (none, decoder) b = b
  open_matched-IsBalanced k now id f (some path, decoder) b =
      elim (Bool-cases (not (contains_key id f.streams) && ltb (length f.streams) max_streams)) [
        | inl h ↦ rw h (
            omega (
              arith,
              settled-append f.events (detected path),
              detections-append f.events (detected path),
              (total-insert held id (open_stream now) f.streams
                  (missing id f.streams (and_true h).0)).1,
            ))
        | inr h ↦ rw h b
      ]

  headers_found-IsBalanced :
      (k now id : ℕ) (block : Bytes) (f : Feeding J services) (o : Option (H2Stream J.Value))
      → lookup id f.streams ≡ o
      → IsBalanced k f
      → IsBalanced k (headers_found J services now id block f o)
  headers_found-IsBalanced k now id block f none e b = b
  headers_found-IsBalanced k now id block f (some s) e b =
      let (r, decoder) = collect_response f.decoder block in
      omega (
        arith,
        (total-replace held id s (response_headers now r.content_type r.coding s) f.streams e).1,
      )

  too_large_found-IsBalanced :
      (k id : ℕ) (f : Feeding J services) (o : Option (H2Stream J.Value))
      → lookup id f.streams ≡ o
      → IsBalanced k f
      → IsBalanced k (too_large_found J services id f o)
  too_large_found-IsBalanced k id f none e b = b
  too_large_found-IsBalanced k id f (some s) e b = omega (arith, length-remove id s f.streams e)

  data_found-IsBalanced :
      (k now cap id : ℕ) (bytes : Bytes) (f : Feeding J services) (o : Option (H2Stream J.Value))
      → lookup id f.streams ≡ o
      → IsBalanced k f
      → IsBalanced k (data_found J services now cap id bytes f o)
  data_found-IsBalanced k now cap id bytes f none e b = b
  data_found-IsBalanced k now cap id bytes f (some s) e b = omega (
    arith,
    (total-replace held id s ((take_data J now bytes (cap - f.buffered) s).0) f.streams e).1,
  )

  ended_event-IsBalanced :
      (k n : ℕ) (s : H2Stream J.Value) (o : Option U) (f : Feeding J services)
      → Balanced k f.events n
      → suc (length f.streams) ≡ n
      → IsBalanced k (ended_event J services s o f)
  ended_event-IsBalanced k n s (some u) f b fewer =
      settle k f.events n (length f.streams) (recorded u s.start s.speculative) b fewer
        (omega arith)
  ended_event-IsBalanced k n s none f b fewer = elim (Bool-cases (over_limit s)) [
    | inl h ↦ rw h (
        settle k f.events n (length f.streams) (unparsed UnparsedReason.response_too_large) b fewer
          (omega arith))
    | inr h ↦ rw h (elim (Bool-cases s.speculative) [
      | inl g ↦ rw g (
          settle k f.events n (length f.streams) (unparsed UnparsedReason.headers_lost) b fewer
            (omega arith))
      | inr g ↦ rw g (omega arith)
    ])
  ]

  end_found-IsBalanced :
      (k id : ℕ) (f : Feeding J services) (o : Option (H2Stream J.Value))
      → lookup id f.streams ≡ o
      → IsBalanced k f
      → IsBalanced k (end_found J services id f o)
  end_found-IsBalanced k id f none e b = b
  end_found-IsBalanced k id f (some s) e b =
      ended_event-IsBalanced k (length f.streams) s (finish J services.readers s)
        (record f { buffered = f.buffered - held s; streams = remove id f.streams }) b
        (length-remove id s f.streams e)

  on_frame-IsBalanced :
      (k : ℕ) (request : Bool) (now cap : ℕ) (frame : Frame) (f : Feeding J services)
      → IsBalanced k f
      → IsBalanced k (on_frame J services request now false cap frame f)
  unfolding on_frame request_frame request_headers response_frame response_block response_data
      response_end block_too_large speculate drop_stream
  on_frame-IsBalanced k true now cap (headers id block) f b =
      open_matched-IsBalanced k now id f (match_request services.serves f.decoder block) b
  on_frame-IsBalanced k true now cap (headers_too_large id) f b =
      too_large_found-IsBalanced k id (record f { decoder = Table.forget f.decoder })
        (lookup id f.streams) refl b
  on_frame-IsBalanced k true now cap (data_bytes id bytes) f b = b
  on_frame-IsBalanced k true now cap (stream_end id) f b = b
  on_frame-IsBalanced k true now cap (reset id) f b = b
  on_frame-IsBalanced k true now cap (goaway last) f b = b
  on_frame-IsBalanced k false now cap (headers id block) f b =
      headers_found-IsBalanced k now id block f (lookup id f.streams) refl b
  on_frame-IsBalanced k false now cap (headers_too_large id) f b =
      too_large_found-IsBalanced k id (record f { decoder = Table.forget f.decoder })
        (lookup id f.streams) refl b
  on_frame-IsBalanced k false now cap (data_bytes id bytes) f b =
      data_found-IsBalanced k now cap id bytes f (lookup id f.streams) refl b
  on_frame-IsBalanced k false now cap (stream_end id) f b =
      end_found-IsBalanced k id f (lookup id f.streams) refl b
  on_frame-IsBalanced k false now cap (reset id) f b =
      drop_found-IsBalanced k id f (lookup id f.streams) refl b
  on_frame-IsBalanced k false now cap (goaway last) f b =
      drop_streams-IsBalanced k (ids_from (last + 1) f.streams) f b

  on_frames-IsBalanced :
      (k : ℕ) (request : Bool) (clock : ℕ → ℕ) (turn cap : ℕ) (frames : List Frame)
      (f : Feeding J services)
      → IsBalanced k f
      → IsBalanced k (on_frames J services request clock turn false cap frames f)
  unfolding on_frames
  on_frames-IsBalanced k request clock turn cap [] f b = b
  on_frames-IsBalanced k request clock turn cap (frame ∷ frames) f b =
      on_frames-IsBalanced k request clock (turn + 1) cap frames
        (on_frame J services request (clock turn) false cap frame f)
        (on_frame-IsBalanced k request (clock turn) cap frame f b)

  -- Each stream that the sweep drops is settled; `kept` streams stand in front.
  sweep-Balanced :
      (k now kept : ℕ) (m : StreamMap (H2Stream J.Value)) (n : ℕ) (events : List (H2Event U))
      → Balanced k events (kept + length m)
      → Balanced k
          (sweep J services now m n events).2
          (kept + length (sweep J services now m n events).0)
  unfolding sweep
  sweep-Balanced k now kept [] n events b = b
  sweep-Balanced k now kept ((id, s) ∷ m) n events b =
      elim (Bool-cases (is_idle J services now s)) [
        | inl idle ↦ rw idle (
            sweep-Balanced k now kept m (n - held s)
              (events ++ unparsed UnparsedReason.connection_closed ∷ [])
              (settle k events (kept + suc (length m)) (kept + length m)
                (unparsed UnparsedReason.connection_closed) b (omega arith) (omega arith)))
        | inr busy ↦
            let later = sweep-Balanced k now (kept + 1) m n events (omega arith) in
            rw busy (omega arith)
      ]

  sweep_some-IsBalanced :
      (k now : ℕ) (f : Feeding J services)
      → IsBalanced k f
      → IsBalanced k (sweep_some J services now f)
  unfolding sweep_idle
  sweep_some-IsBalanced k now f b = elim (Bool-cases (is_empty_map J services f.streams)) [
    | inl h ↦ rw h b
    | inr h ↦
        rw h (omega (arith, sweep-Balanced k now 0 f.streams f.buffered f.events (omega arith)))
  ]

  -- The calls of a feed: none is settled twice, and none that was not detected is settled.
  abbrev pub SettlesOnce : ℕ → Option (Fed J services) → Type 0
  SettlesOnce k none = ⊥
  SettlesOnce k (some fed) =
      settled fed.events + length (fed.conn.streams) ≤ detections fed.events + k

  out-IsBalanced :
      (request : Bool) (clock : ℕ → ℕ) (conn : H2Conn J.Value) (node : ℕ) (decoder : Decoder)
      (frames : List Frame)
      → IsBalanced
          (length conn.streams)
          (read_out J services request false false clock conn node decoder frames)
  out-IsBalanced request clock conn node decoder frames =
      let cap = buffer_cap false conn.buffered node in
      sweep_some-IsBalanced (length conn.streams) (clock (length frames))
        (on_frames J services request clock 0 false cap frames
          (start_feeding J services false decoder conn))
        (on_frames-IsBalanced (length conn.streams) request clock 0 cap frames
          (start_feeding J services false decoder conn) (omega arith))

  feed_read-SettlesOnce :
      (request : Bool) (clock : ℕ → ℕ) (conn : H2Conn J.Value) (node : ℕ) (decoder : Decoder)
      (o : Option (FrameReader × List Frame))
      → FeedReturns J services (feed_read J services request false false clock conn node decoder o)
      → SettlesOnce
          (length conn.streams)
          (feed_read J services request false false clock conn node decoder o)
  feed_read-SettlesOnce request clock conn node decoder none ok = ok
  feed_read-SettlesOnce true clock conn node decoder (some (reader, frames)) ok =
      out-IsBalanced true clock conn node decoder frames
  feed_read-SettlesOnce false clock conn node decoder (some (reader, frames)) ok =
      out-IsBalanced false clock conn node decoder frames

  or_false : (m : Bool) → m ≡ false → (m || false) ≡ false
  or_false m h = rw h refl

  -- Feeding a sound connection that was not joined midway, without a gap, gives no more events
  -- Recorded and Unparsed, together with the streams open after it, than events Detected and the
  -- streams open before: no call is settled twice, and none that was not detected.
  pub feed-SettlesOnce :
      (request : Bool) (bytes : Bytes) (clock : ℕ → ℕ) (conn : H2Conn J.Value) (node : ℕ)
      → ConnOk J services conn
      → conn.midjoin ≡ false
      → SettlesOnce
          (length conn.streams)
          (feed J services request bytes H2Gap.no_gap clock conn node)
  unfolding feed bridge
  feed-SettlesOnce request bytes clock conn node ok whole =
      let d = side request conn in
      subst
        (λ (m : Bool).
          FeedReturns J services
            (feed_read J services request false m clock conn node d.decoder (read d.reader bytes))
          → SettlesOnce (length conn.streams) (
              feed_read J services request false m clock conn node d.decoder (read d.reader bytes)))
        (sym (or_false conn.midjoin whole))
        (feed_read-SettlesOnce request clock conn node d.decoder (read d.reader bytes))
        (feed-Returns J services request bytes H2Gap.no_gap clock conn node ok)
