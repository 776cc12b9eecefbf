-- ===== src/H2/Budget/Frames.antt =====
-- Every frame keeps the count of buffered bytes, and the bounds on streams and on bytes.
use honeybeepf_llm.Prelude.{
  ℕ, ◌+◌, ◌-◌, ◌≤◌, ◌<◌, ◌≡◌, refl, Bool, true, false, not, Bool-cases, inl, inr, ◌&&◌, Option,
  none, some, List, [], ◌∷◌, Bytes, length, ltb, ltb→lt, arith,
}
use honeybeepf_llm.Hpack.Types.{Decoder}
use honeybeepf_llm.Hpack.Table
use honeybeepf_llm.Frame.Types.{
  Frame, headers, headers_too_large, data_bytes, stream_end, reset, goaway,
}
use honeybeepf_llm.Json.{Json}
use honeybeepf_llm.H2.Stream.{
  H2Stream, held, open_stream, open_speculative, response_headers, Change, take_data, finish,
  over_limit,
}
use honeybeepf_llm.H2.StreamMap.{
  StreamMap, lookup, contains_key, insert, remove, replace, ids_from, total, total-insert,
  total-remove, total-replace, total-lookup_le, Every, Every-lookup, Every-insert, Every-remove,
  Every-replace,
}
use honeybeepf_llm.H2.Types.{max_streams, conn_buffer_cap, Services}
use honeybeepf_llm.H2.Blocks.{match_request, collect_response}
use honeybeepf_llm.H2.Frames.{
  saturating_add_signed, looks_recordable, Feeding, drop_found, drop_stream, drop_streams,
  open_matched, request_headers, headers_found, response_block, too_large_found, block_too_large,
  speculate, with_stream, data_found, response_data, ended_event, end_found, response_end,
  request_frame, response_frame, on_frame,
}
use honeybeepf_llm.H2.Budget.Streams.{
  StreamOk, Moves, open_stream-StreamOk, open_stream-held, open_speculative-StreamOk,
  open_speculative-held, response_headers-held, response_headers-StreamOk, take_data-Moves,
}

module _ (V : Type 0) where
  -- The count of buffered bytes is that of the streams, and within the connection's bounds.
  pub record Accounts (streams : StreamMap (H2Stream V)) (buffered : ℕ) : Type 0 where
    pub counted : buffered ≡ total held streams
    pub within_cap : buffered ≤ conn_buffer_cap
    pub few : length streams ≤ max_streams
    pub each_ok : Every StreamOk streams

  inserted :
      (id : ℕ) (s : H2Stream V) (m : StreamMap (H2Stream V)) (n : ℕ)
      → Accounts m n
      → lookup id m ≡ none
      → length m < max_streams
      → held s ≡ 0
      → StreamOk s
      → Accounts (insert id s m) n
  inserted id s m n a fresh room empty ok =
      let sums = total-insert held id s m fresh in
      record {
        counted = omega (arith, a.counted, sums.0);
        within_cap = a.within_cap;
        few = omega (arith, sums.1);
        each_ok = Every-insert StreamOk id s m a.each_ok ok;
      }

  removed :
      (id : ℕ) (s : H2Stream V) (m : StreamMap (H2Stream V)) (n : ℕ)
      → Accounts m n
      → lookup id m ≡ some s
      → Accounts (remove id m) (n - held s)
  removed id s m n a found =
      let sums = total-remove held id s m found in
      record {
        counted = omega (arith, a.counted, sums.0);
        within_cap = omega (arith, a.within_cap);
        few = omega (arith, sums.1, a.few);
        each_ok = Every-remove StreamOk id m a.each_ok;
      }

  replaced :
      (id : ℕ) (s s' : H2Stream V) (m : StreamMap (H2Stream V)) (n n' : ℕ)
      → Accounts m n
      → lookup id m ≡ some s
      → held s + n' ≡ held s' + n
      → n' ≤ conn_buffer_cap
      → StreamOk s'
      → Accounts (replace id s' m) n'
  replaced id s s' m n n' a found moved fits ok =
      let sums = total-replace held id s s' m found in
      record {
        counted = omega (arith, a.counted, sums.0);
        within_cap = fits;
        few = omega (arith, sums.1, a.few);
        each_ok = Every-replace StreamOk id s' m a.each_ok ok;
      }

pub missing :
    {V : Type 0} (id : ℕ) (m : StreamMap (H2Stream V))
    → not (contains_key id m) ≡ true
    → lookup id m ≡ none
missing id m h = ground arith

pub and_true : {a b : Bool} → (a && b) ≡ true → (a ≡ true) × (b ≡ true)
and_true {a} {b} h = ground arith

guards : (a b c d : Bool) → (a && b && c && d) ≡ true → (b ≡ true) × (c ≡ true)
guards a b c d h = ground arith

module _ (J : Json) {U : Type 0} (services : Services J U) where
  abbrev pub IsAccounted : Feeding J services → Type 0
  IsAccounted f = Accounts J.Value f.streams f.buffered

  drop_found-IsAccounted :
      (id : ℕ) (f : Feeding J services) (o : Option (H2Stream J.Value))
      → lookup id f.streams ≡ o
      → IsAccounted f
      → IsAccounted (drop_found J services id f o)
  drop_found-IsAccounted id f none e a = a
  drop_found-IsAccounted id f (some s) e a = removed J.Value id s f.streams f.buffered a e

  drop_stream-IsAccounted :
      (id : ℕ) (f : Feeding J services) → IsAccounted f → IsAccounted (drop_stream J services id f)
  unfolding drop_stream
  drop_stream-IsAccounted id f a = drop_found-IsAccounted id f (lookup id f.streams) refl a

  drop_streams-IsAccounted :
      (ids : List ℕ) (f : Feeding J services)
      → IsAccounted f
      → IsAccounted (drop_streams J services ids f)
  unfolding drop_streams
  drop_streams-IsAccounted [] f a = a
  drop_streams-IsAccounted (id ∷ ids) f a =
      drop_streams-IsAccounted ids (drop_stream J services id f) (drop_stream-IsAccounted id f a)

  open_matched-IsAccounted :
      (now id : ℕ) (f : Feeding J services) (m : Option Bytes × Decoder)
      → IsAccounted f
      → IsAccounted (open_matched J services now id f m)
  open_matched-IsAccounted now id f (none, decoder) a = a
  open_matched-IsAccounted now id f (some path, decoder) a =
      elim (Bool-cases (not (contains_key id f.streams) && ltb (length f.streams) max_streams)) [
        | inl h ↦ rw h (
            inserted J.Value id (open_stream now) f.streams f.buffered a
              (missing id f.streams (and_true h).0)
              (ltb→lt (length f.streams) max_streams (and_true h).1) (open_stream-held J.Value now)
              (open_stream-StreamOk J.Value now))
        | inr h ↦ rw h a
      ]

  headers_found-IsAccounted :
      (now id : ℕ) (block : Bytes) (f : Feeding J services) (o : Option (H2Stream J.Value))
      → lookup id f.streams ≡ o
      → IsAccounted f
      → IsAccounted (headers_found J services now id block f o)
  headers_found-IsAccounted now id block f none e a = a
  headers_found-IsAccounted now id block f (some s) e a =
      let (r, decoder) = collect_response f.decoder block in
      let ok = Every-lookup StreamOk id s f.streams a.each_ok e in
      replaced J.Value id s (response_headers now r.content_type r.coding s) f.streams f.buffered
        f.buffered a e
        (omega (arith, response_headers-held J.Value now r.content_type r.coding s ok)) a.within_cap
        (response_headers-StreamOk J.Value now r.content_type r.coding s ok)

  too_large_found-IsAccounted :
      (id : ℕ) (f : Feeding J services) (o : Option (H2Stream J.Value))
      → lookup id f.streams ≡ o
      → IsAccounted f
      → IsAccounted (too_large_found J services id f o)
  too_large_found-IsAccounted id f none e a = a
  too_large_found-IsAccounted id f (some s) e a = removed J.Value id s f.streams f.buffered a e

  speculate-IsAccounted :
      (now : ℕ) (midjoin : Bool) (id : ℕ) (bytes : Bytes) (f : Feeding J services)
      → IsAccounted f
      → IsAccounted (speculate J services now midjoin id bytes f)
  unfolding speculate
  speculate-IsAccounted now midjoin id bytes f a =
      elim (Bool-cases (
        midjoin
        && not (contains_key id f.streams)
        && ltb (length f.streams) max_streams
        && looks_recordable bytes)) [
          | inl h ↦
              let passed =
                guards midjoin (not (contains_key id f.streams))
                  (ltb (length f.streams) max_streams) (looks_recordable bytes) h in
              rw h (
                inserted J.Value id (open_speculative now) f.streams f.buffered a
                  (missing id f.streams passed.0) (ltb→lt (length f.streams) max_streams passed.1)
                  (open_speculative-held J.Value now) (open_speculative-StreamOk J.Value now))
          | inr h ↦ rw h a
        ]

  changed_total :
      (s s' : H2Stream J.Value) (m : StreamMap (H2Stream J.Value)) (id n cap : ℕ) (change : Change)
      → Accounts J.Value m n
      → lookup id m ≡ some s
      → cap ≤ conn_buffer_cap
      → Moves (held s) (held s') (cap - n) change
      → (held s + saturating_add_signed n change ≡ held s' + n)
        × (saturating_add_signed n change ≤ conn_buffer_cap)
  unfolding saturating_add_signed
  changed_total s s' m id n cap (Change.grown k) a e le (grew, room) = omega (arith, a.within_cap)
  changed_total s s' m id n cap (Change.shrunk k) a e le (emptied, gave) =
      omega (arith, a.counted, a.within_cap, total-lookup_le held id s m e)

  with_stream-IsAccounted :
      (id cap : ℕ) (s : H2Stream J.Value) (f : Feeding J services)
      (moved : H2Stream J.Value × Change)
      → lookup id f.streams ≡ some s
      → IsAccounted f
      → cap ≤ conn_buffer_cap
      → Moves (held s) (held moved.0) (cap - f.buffered) moved.1
      → StreamOk moved.0
      → IsAccounted (with_stream J services id f moved)
  with_stream-IsAccounted id cap s f (s', change) e a le moves ok =
      let sums = changed_total s s' f.streams id f.buffered cap change a e le moves in
      replaced J.Value id s s' f.streams f.buffered (saturating_add_signed f.buffered change) a e
        sums.0 sums.1 ok

  data_found-IsAccounted :
      (now cap id : ℕ) (bytes : Bytes) (f : Feeding J services) (o : Option (H2Stream J.Value))
      → lookup id f.streams ≡ o
      → IsAccounted f
      → cap ≤ conn_buffer_cap
      → IsAccounted (data_found J services now cap id bytes f o)
  data_found-IsAccounted now cap id bytes f none e a le = a
  data_found-IsAccounted now cap id bytes f (some s) e a le =
      let moves =
        take_data-Moves J now bytes (cap - f.buffered) s
          (Every-lookup StreamOk id s f.streams a.each_ok e) in
      with_stream-IsAccounted id cap s f (take_data J now bytes (cap - f.buffered) s) e a le moves.0
        moves.1

  ended_event-IsAccounted :
      (s : H2Stream J.Value) (o : Option U) (f : Feeding J services)
      → IsAccounted f
      → IsAccounted (ended_event J services s o f)
  ended_event-IsAccounted s (some u) f a = a
  ended_event-IsAccounted s none f a = elim (Bool-cases (over_limit s)) [
    | inl h ↦ rw h a
    | inr h ↦ rw h (elim (Bool-cases s.speculative) [ inl k ↦ rw k a | inr k ↦ rw k a ])
  ]

  end_found-IsAccounted :
      (id : ℕ) (f : Feeding J services) (o : Option (H2Stream J.Value))
      → lookup id f.streams ≡ o
      → IsAccounted f
      → IsAccounted (end_found J services id f o)
  end_found-IsAccounted id f none e a = a
  end_found-IsAccounted id f (some s) e a =
      ended_event-IsAccounted s (finish J services.readers s)
        (record f { buffered = f.buffered - held s; streams = remove id f.streams })
        (removed J.Value id s f.streams f.buffered a e)

  block_too_large-IsAccounted :
      (id : ℕ) (f : Feeding J services)
      → IsAccounted f
      → IsAccounted (block_too_large J services id f)
  unfolding block_too_large
  block_too_large-IsAccounted id f a =
      too_large_found-IsAccounted id (record f { decoder = Table.forget f.decoder })
        (lookup id f.streams) refl a

  request_frame-IsAccounted :
      (now : ℕ) (frame : Frame) (f : Feeding J services)
      → IsAccounted f
      → IsAccounted (request_frame J services now frame f)
  unfolding request_frame request_headers
  request_frame-IsAccounted now (headers id block) f a =
      open_matched-IsAccounted now id f (match_request services.serves f.decoder block) a
  request_frame-IsAccounted now (headers_too_large id) f a = block_too_large-IsAccounted id f a
  request_frame-IsAccounted now (data_bytes id bytes) f a = a
  request_frame-IsAccounted now (stream_end id) f a = a
  request_frame-IsAccounted now (reset id) f a = a
  request_frame-IsAccounted now (goaway last) f a = a

  response_frame-IsAccounted :
      (now : ℕ) (midjoin : Bool) (cap : ℕ) (frame : Frame) (f : Feeding J services)
      → cap ≤ conn_buffer_cap
      → IsAccounted f
      → IsAccounted (response_frame J services now midjoin cap frame f)
  unfolding response_frame response_block response_data response_end
  response_frame-IsAccounted now midjoin cap (headers id block) f le a =
      headers_found-IsAccounted now id block f (lookup id f.streams) refl a
  response_frame-IsAccounted now midjoin cap (headers_too_large id) f le a =
      block_too_large-IsAccounted id f a
  response_frame-IsAccounted now midjoin cap (data_bytes id bytes) f le a =
      let g = speculate J services now midjoin id bytes f in
      data_found-IsAccounted now cap id bytes g (lookup id g.streams) refl
        (speculate-IsAccounted now midjoin id bytes f a) le
  response_frame-IsAccounted now midjoin cap (stream_end id) f le a =
      end_found-IsAccounted id f (lookup id f.streams) refl a
  response_frame-IsAccounted now midjoin cap (reset id) f le a = drop_stream-IsAccounted id f a
  response_frame-IsAccounted now midjoin cap (goaway last) f le a =
      drop_streams-IsAccounted (ids_from (last + 1) f.streams) f a

  pub on_frame-IsAccounted :
      (request : Bool) (now : ℕ) (midjoin : Bool) (cap : ℕ) (frame : Frame) (f : Feeding J services)
      → cap ≤ conn_buffer_cap
      → IsAccounted f
      → IsAccounted (on_frame J services request now midjoin cap frame f)
  unfolding on_frame
  on_frame-IsAccounted true now midjoin cap frame f le a = request_frame-IsAccounted now frame f a
  on_frame-IsAccounted false now midjoin cap frame f le a =
      response_frame-IsAccounted now midjoin cap frame f le a
