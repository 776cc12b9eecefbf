-- ===== src/EventStream/Split.antt =====
-- An event stream body fed in two reads is the body fed in one.
use honeybeepf_llm.Prelude.{
  ℕ, zero, suc, ◌+◌, ◌≡◌, refl, sym, ap, ◌∙◌, Bool, true, false, ◌||◌, Bool-cases, inl, inr, Option,
  none, some, [], ◌∷◌, ◌++◌, append_assoc, Bytes, length, drop, if◌then◌else◌,
}
use honeybeepf_llm.Json.{Json, get}
use honeybeepf_llm.Hpack.Types.{codes}
use honeybeepf_llm.EventStream.Message.{Frame, partial_frame, broken_frame, message, next_message}
use honeybeepf_llm.EventStream.Base64.{decode_base64}
use honeybeepf_llm.EventStream.Rounds.{
  Out, round, shut, resumed, resumed_open, resumed_shut, read_messages-append,
}
use honeybeepf_llm.EventStream.Cursor.{
  failed, ended, is_open, EventStreamCursor, Codecs, add_metrics, read_event, read_decoded,
  read_chunk_bytes, read_chunk, read_message, header_is, names_usage, merge_parsed, merge_event,
  without_metrics, invocation_metrics, after_frame, read_rounds, read_messages, kept, read_joined,
  closed, feed,
}

module _ (J : Json) (codecs : Codecs J) where
  same_partial :
      (test : Bool) (x y : EventStreamCursor J.Value) (p : Bytes)
      → x.partial ≡ p
      → y.partial ≡ p
      → (if test then x else y).partial ≡ p
  same_partial true x y p h k = h
  same_partial false x y p h k = k

  add_metrics_partial :
      (metrics : Option J.Value) (c : EventStreamCursor J.Value)
      → (add_metrics J codecs metrics c).partial ≡ c.partial
  add_metrics_partial none c = refl
  add_metrics_partial (some metrics) c = refl

  read_event_partial :
      (c : EventStreamCursor J.Value) (event : Option J.Value)
      → (read_event J codecs c event).partial ≡ c.partial
  read_event_partial c none = refl
  read_event_partial c (some event) =
      add_metrics_partial (get J invocation_metrics event)
        (record c { acc = merge_event J codecs (without_metrics J codecs event) c.acc })

  read_decoded_partial :
      (c : EventStreamCursor J.Value) (out : Bytes × Bool)
      → (read_decoded J codecs c out).partial ≡ c.partial
  read_decoded_partial c (text, false) = refl
  read_decoded_partial c (text, true) =
      same_partial (names_usage J codecs text)
        (read_event J codecs (record c { decoded = text }) (codecs.from_slice text))
        (record c { decoded = text }) c.partial
        (read_event_partial (record c { decoded = text }) (codecs.from_slice text)) refl

  read_chunk_bytes_partial :
      (c : EventStreamCursor J.Value) (text : Option Bytes)
      → (read_chunk_bytes J codecs c text).partial ≡ c.partial
  read_chunk_bytes_partial c none = refl
  read_chunk_bytes_partial c (some text) = read_decoded_partial c (decode_base64 text)

  read_chunk_partial :
      (c : EventStreamCursor J.Value) (payload : Bytes)
      → (read_chunk J codecs c payload).partial ≡ c.partial
  unfolding read_chunk
  read_chunk_partial c payload = read_chunk_bytes_partial c (codecs.chunk_bytes payload)

  abbrev by_metadata : EventStreamCursor J.Value → Bytes → Bytes → EventStreamCursor J.Value
  by_metadata c headers payload =
      if header_is J codecs headers (codes ":event-type") (codes "metadata")
      then record c {
        acc = merge_parsed J codecs c.acc (codecs.from_slice payload);
        progress = ended;
      }
      else c

  abbrev by_event : EventStreamCursor J.Value → Bytes → Bytes → EventStreamCursor J.Value
  by_event c headers payload =
      if header_is J codecs headers (codes ":event-type") (codes "chunk")
      then read_chunk J codecs c payload
      else by_metadata c headers payload

  read_message_partial :
      (c : EventStreamCursor J.Value) (headers payload : Bytes)
      → (read_message J codecs c headers payload).partial ≡ c.partial
  unfolding read_message
  read_message_partial c headers payload =
      same_partial
        (header_is J codecs headers (codes ":message-type") (codes "exception")
          || header_is J codecs headers (codes ":message-type") (codes "error"))
        (record c { progress = failed }) (by_event c headers payload) c.partial refl
        (same_partial (header_is J codecs headers (codes ":event-type") (codes "chunk"))
          (read_chunk J codecs c payload) (by_metadata c headers payload) c.partial
          (read_chunk_partial c payload)
          (same_partial (header_is J codecs headers (codes ":event-type") (codes "metadata"))
            (record c {
              acc = merge_parsed J codecs c.acc (codecs.from_slice payload);
              progress = ended;
            })
            c c.partial refl refl))

  nothing_read :
      (c : EventStreamCursor J.Value) (xs : Bytes) → read_rounds J codecs zero c xs ≡ (c, xs)
  unfolding read_rounds
  nothing_read c xs = refl

  after_frame_partial :
      (r : ℕ) (c : EventStreamCursor J.Value) (xs : Bytes) (f : Frame)
      → ((c' : EventStreamCursor J.Value) (ys : Bytes)
          → (read_rounds J codecs r c' ys).0.partial ≡ c'.partial)
      → (after_frame J codecs f c xs (read_rounds J codecs r)).0.partial ≡ c.partial
  after_frame_partial r c xs partial_frame h = refl
  after_frame_partial r c xs broken_frame h = refl
  after_frame_partial r c xs (message n headers payload) h =
      h (read_message J codecs c headers payload) (drop n xs)
      ∙ read_message_partial c headers payload

  read_rounds_partial :
      (r : ℕ) (c : EventStreamCursor J.Value) (xs : Bytes)
      → (read_rounds J codecs r c xs).0.partial ≡ c.partial
  read_rounds_partial zero c xs =
      ap (λ (out : Out J codecs). EventStreamCursor.partial (out.0)) (nothing_read c xs)
  read_rounds_partial (suc r) c xs = elim (Bool-cases (is_open c.progress)) [
    | inl o ↦
        ap (λ (out : Out J codecs). EventStreamCursor.partial (out.0))
          (round J codecs r c xs (next_message codecs.crc32 xs) o refl)
        ∙ after_frame_partial r c xs (next_message codecs.crc32 xs) (read_rounds_partial r)
    | inr o ↦
        ap (λ (out : Out J codecs). EventStreamCursor.partial (out.0))
          (shut J codecs (suc r) c xs o)
  ]

  abbrev emptied : EventStreamCursor J.Value → EventStreamCursor J.Value
  emptied c = record c { partial = [] }

  emptied_same : (c : EventStreamCursor J.Value) → c.partial ≡ [] → c ≡ emptied c
  emptied_same c e =
      ap (λ (p : Bytes). let d : EventStreamCursor J.Value = record c { partial = p } in d) e

  read_joined-emptied :
      (p : Bytes) (c : EventStreamCursor J.Value) (bytes : Bytes)
      → c.partial ≡ p
      → read_joined J codecs p c bytes
        ≡ kept J codecs (read_messages J codecs (emptied c) (p ++ bytes))
  read_joined-emptied [] c bytes e =
      ap (λ (d : EventStreamCursor J.Value). kept J codecs (read_messages J codecs d bytes))
        (emptied_same c e)
  read_joined-emptied (b ∷ bs) c bytes e = refl

  feed_open :
      (c : EventStreamCursor J.Value) (bytes : Bytes)
      → is_open c.progress ≡ true
      → feed J codecs c bytes
        ≡ closed J codecs (kept J codecs (read_messages J codecs (emptied c) (c.partial ++ bytes)))
  unfolding feed
  feed_open c bytes o = rw o (ap (closed J codecs) (read_joined-emptied c.partial c bytes refl))

  feed_shut :
      (c : EventStreamCursor J.Value) (bytes : Bytes)
      → is_open c.progress ≡ false
      → feed J codecs c bytes ≡ c
  unfolding feed
  feed_shut c bytes o = rw o refl

  closed_open : (c : EventStreamCursor J.Value) → is_open c.progress ≡ true → closed J codecs c ≡ c
  closed_open c o = rw o refl

  closed_shut :
      (c : EventStreamCursor J.Value)
      → is_open c.progress ≡ false
      → closed J codecs c ≡ record c { partial = []; decoded = [] }
  closed_shut c o = rw o refl

  read_messages_partial :
      (c : EventStreamCursor J.Value) (xs : Bytes)
      → (read_messages J codecs c xs).0.partial ≡ c.partial
  unfolding read_messages
  read_messages_partial c xs = read_rounds_partial (length xs + 1) c xs

  -- The second read, after what the first left.
  fed_again :
      (out : Out J codecs) (b : Bytes)
      → (out.0).partial ≡ []
      → closed J codecs (kept J codecs (resumed J codecs out b))
        ≡ feed J codecs (closed J codecs (kept J codecs out)) b
  fed_again (c, rest) b e = elim (Bool-cases (is_open c.progress)) [
    | inl o ↦
        ap (λ (out : Out J codecs). closed J codecs (kept J codecs out))
          (resumed_open J codecs c rest b o
            ∙ (ap (λ (d : EventStreamCursor J.Value). read_messages J codecs d (rest ++ b))
                  (emptied_same c e)
                ∙ ap (λ (p : Bytes). read_messages J codecs (emptied c) ((p ++ rest) ++ b))
                    (sym e)))
        ∙ sym (
            ap (λ (d : EventStreamCursor J.Value). feed J codecs d b)
              (closed_open (kept J codecs (c, rest)) o)
            ∙ feed_open (kept J codecs (c, rest)) b o)
    | inr o ↦
        ap (λ (out : Out J codecs). closed J codecs (kept J codecs out))
          (resumed_shut J codecs c rest b o)
        ∙ (closed_shut (kept J codecs (c, rest ++ b)) o
            ∙ sym (
                ap (λ (d : EventStreamCursor J.Value). feed J codecs d b)
                  (closed_shut (kept J codecs (c, rest)) o)
                ∙ feed_shut (record c { partial = []; decoded = [] }) b o))
  ]

  -- Feeding an event stream in two reads leaves the cursor that feeding both parts at once leaves,
  -- from every cursor and wherever the cut is.
  pub feed-append :
      (c : EventStreamCursor J.Value) (a b : Bytes)
      → feed J codecs c (a ++ b) ≡ feed J codecs (feed J codecs c a) b
  feed-append c a b = elim (Bool-cases (is_open c.progress)) [
    | inl o ↦
        feed_open c (a ++ b) o
        ∙ (ap
              (λ (xs : Bytes).
                closed J codecs (kept J codecs (read_messages J codecs (emptied c) xs)))
              (sym (append_assoc c.partial a b))
            ∙ (ap (λ (out : Out J codecs). closed J codecs (kept J codecs out))
                  (read_messages-append J codecs (emptied c) (c.partial ++ a) b)
                ∙ (fed_again (read_messages J codecs (emptied c) (c.partial ++ a)) b
                      (read_messages_partial (emptied c) (c.partial ++ a))
                    ∙ sym (
                        ap (λ (d : EventStreamCursor J.Value). feed J codecs d b)
                          (feed_open c a o)))))
    | inr o ↦
        feed_shut c (a ++ b) o
        ∙ sym (
            ap (λ (d : EventStreamCursor J.Value). feed J codecs d b) (feed_shut c a o)
            ∙ feed_shut c b o)
  ]
