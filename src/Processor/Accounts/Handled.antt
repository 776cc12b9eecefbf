-- ===== src/Processor/Accounts/Handled.antt =====
-- processor.rs: an event begins one call at most, and the look ahead another.
use honeybeepf_llm.Prelude.{
  ℕ, ◌+◌, ◌≤◌, ◌≡◌, refl, ap, ◌∙◌, Bool, true, false, Bool-cases, inl, inr, Option, none, some, [],
  Bytes, length, drop, min, ltb, ◌==◌, ◌&&◌, arith,
}
use honeybeepf_llm.Prelude.Maps.{Map}
use honeybeepf_llm.Background.Calls.{PendingCall}
use honeybeepf_llm.H2.Types.{UnparsedReason}
use honeybeepf_llm.Processor.Types.{
  detection_buffer_threshold, LlmDirection, is_read, is_write, Http, Outcome, Node, Call,
  ProcessorState, detecting, processing_request, processing_response, http2, finished,
  StreamProcessor,
}
use honeybeepf_llm.Processor.Settle.{Result, drop_response}
use honeybeepf_llm.Processor.Event.{
  Buffered, kept, ignored, overflow, reset, detect_rest, detect_poll, detect_by, detect, buffer,
  advance, after_drop, after_buffering, handle_event,
}
use honeybeepf_llm.Processor.Ahead.{
  is_http2, mid_response, mid_http11_response, count_skipped, note_next_request, started_at,
  resumed, resume_at, resume_next_request,
}
use honeybeepf_llm.Processor.Fragment.{Fragment, look_ahead}
use honeybeepf_llm.Processor.Closed.{open_of}
use honeybeepf_llm.Processor.Accounts.{known, ahead, accounted, AtMost}
use honeybeepf_llm.Processor.Accounts.Settle.{unparsed_known, respond-AtMost}
use honeybeepf_llm.Processor.Accounts.Event.{
  unpolled_le, drop_response-AtMost, idle, BufferedAtMost, begins, buffer_AtMost,
}

and_right : (a b : Bool) → (a && b) ≡ true → b ≡ true
and_right a b e = ground arith

module _ (H : Http) where
  -- One call at most is detected.
  abbrev DetectsOne : Option (ℕ × ℕ) → StreamProcessor H × ProcessorState H → Type 0
  DetectsOne next (p, state) =
      (open_of H state p.continuation ≤ 1) × (p.next_request ≡ next) × (is_http2 H state ≡ false)

  rest_DetectsOne :
      (o : Option Bytes) (now : ℕ) (p : StreamProcessor H)
      → DetectsOne p.next_request (detect_rest H o now p)
  rest_DetectsOne (some path) now p = (unpolled_le H p.continuation, refl, refl)
  rest_DetectsOne none now p =
      elim (Bool-cases (ltb detection_buffer_threshold (length p.write_buf))) [
        | inl big ↦ rw big (omega arith, refl, refl)
        | inr small ↦ rw small (omega arith, refl, refl)
      ]

  poll_DetectsOne :
      (o : Option Bytes) (now : ℕ) (p : StreamProcessor H)
      → DetectsOne p.next_request (detect_poll H o now p)
  poll_DetectsOne (some id) now p = (omega arith, refl, refl)
  poll_DetectsOne none now p = rest_DetectsOne _ now p

  by_DetectsOne :
      (o : Option Bytes) (calls : Map (PendingCall H.Pod)) (now : ℕ) (p : StreamProcessor H)
      → DetectsOne p.next_request (detect_by H o calls now p)
  by_DetectsOne (some path) calls now p = (unpolled_le H p.continuation, refl, refl)
  by_DetectsOne none calls now p = poll_DetectsOne _ now p

  detect-DetectsOne :
      (calls : Map (PendingCall H.Pod)) (now : ℕ) (p : StreamProcessor H)
      → DetectsOne p.next_request (detect H calls now p)
  unfolding detect
  detect-DetectsOne calls now p = by_DetectsOne _ calls now p

  advance-AtMost :
      (s : ProcessorState H) (d : LlmDirection) (complete : Bool) (call : Call H.Pod)
      (p : StreamProcessor H) (node : Node H.Pod)
      → p.state ≡ s
      → is_http2 H s ≡ false
      → AtMost H (accounted H p node + idle H s) (advance H s d complete call p node)
  advance-AtMost detecting d complete call p node e h =
      let found = detect-DetectsOne node.calls call.now p in
      (omega (arith, found.0, ap ahead found.1), found.2)
  advance-AtMost (processing_request start parser) d complete call p node e h =
      elim (Bool-cases (is_read d)) [
        | inl reads ↦ rw reads (
            let answered = respond-AtMost H start parser complete call p node in
            (omega (arith, answered.0, ap (λ s. open_of H s p.continuation) e), answered.1))
        | inr other ↦ rw other (omega arith, ap (is_http2 H) e)
      ]
  advance-AtMost (processing_response start parser) d complete call p node e h =
      let answered = respond-AtMost H start parser complete call p node in
      (omega (arith, answered.0, ap (λ s. open_of H s p.continuation) e), answered.1)
  advance-AtMost (http2 conn) d complete call p node e h = absurd cc
  advance-AtMost finished d complete call p node e h = (omega arith, ap (is_http2 H) e)

  after_drop-AtMost : (n : ℕ) (r : Result H) → AtMost H n r → AtMost H n (after_drop H r)
  unfolding reset
  after_drop-AtMost n (p, node, outcome) h = (omega (arith, h.0), refl)

  after_buffering-AtMost :
      (n : ℕ) (d : LlmDirection) (complete : Bool) (call : Call H.Pod) (node : Node H.Pod)
      (buffered : StreamProcessor H × Buffered)
      → BufferedAtMost H n buffered
      → AtMost H (known node + n) (after_buffering H d complete call node buffered)
  after_buffering-AtMost n d complete call node (p, kept) h =
      let r = advance-AtMost p.state d complete call p node refl h.1 in
      (omega (arith, r.0, h.0), r.1)
  after_buffering-AtMost n d complete call node (p, ignored) h = (omega (arith, h.0), h.1)
  after_buffering-AtMost n d complete call node (p, overflow reason) h =
      let dropped = drop_response-AtMost H reason call p node h.1 in
      let r = after_drop-AtMost (accounted H p node) (drop_response H reason call p node) dropped in
      (omega (arith, r.0, h.0), r.1)

  pub handle_event-AtMost :
      (d : LlmDirection) (bytes : Bytes) (complete : Bool) (call : Call H.Pod)
      (p : StreamProcessor H) (node : Node H.Pod)
      → is_http2 H p.state ≡ false
      → AtMost H
          (accounted H p node + begins H d p.state)
          (handle_event H d bytes complete call p node)
  unfolding handle_event
  handle_event-AtMost d bytes complete call p node h =
      let active = record p { last_activity = call.now } in
      let r =
        after_buffering-AtMost _ d complete call node (buffer H d bytes active)
          (buffer_AtMost H d bytes active h) in
      (omega (arith, r.0), r.1)

  started_open :
      (start : ℕ) (s : ProcessorState H) (polled : Option Bytes)
      → (open_of H (started_at H start s) polled ≡ open_of H s polled)
        × (is_http2 H (started_at H start s) ≡ is_http2 H s)
  started_open start detecting polled = (refl, refl)
  started_open start (processing_request begun parser) polled = (refl, refl)
  started_open start (processing_response begun parser) polled = (refl, refl)
  started_open start (http2 conn) polled = (refl, refl)
  started_open start finished polled = (refl, refl)

  resumed-AtMost :
      (start : ℕ) (found : StreamProcessor H × ProcessorState H) (node : Node H.Pod)
      → DetectsOne none found
      → AtMost H (known node + 1) (resumed H start found, node, Outcome.pending)
  resumed-AtMost start (p, state) node h =
      let begun = started_open start state p.continuation in
      (omega (arith, h.0, ap ahead h.1, begun.0), begun.1 ∙ h.2)

  resume_at-AtMost :
      (next : Option (ℕ × ℕ)) (calls : Map (PendingCall H.Pod)) (now : ℕ) (p : StreamProcessor H)
      (node : Node H.Pod)
      → p.next_request ≡ next
      → is_http2 H p.state ≡ false
      → AtMost H (accounted H p node) (resume_at H next calls now p, node, Outcome.pending)
  resume_at-AtMost none calls now p node e h = (omega arith, h)
  resume_at-AtMost (some (at, start)) calls now p node e h =
      let from = record p {
        next_request = none;
        write_buf = drop (min at (length p.write_buf)) p.write_buf;
        read_buf = [];
        read_progress = H.default_progress;
      } in
      let r =
        resumed-AtMost start (detect H calls now from) node (detect-DetectsOne calls now from) in
      (omega (arith, r.0, ap ahead e), r.1)

  resume_AtMost :
      (calls : Map (PendingCall H.Pod)) (now : ℕ) (p : StreamProcessor H) (node : Node H.Pod)
      → is_http2 H p.state ≡ false
      → AtMost H (accounted H p node) (resume_next_request H calls now p, node, Outcome.pending)
  unfolding resume_next_request
  resume_AtMost calls now p node h = resume_at-AtMost p.next_request calls now p node refl h

  -- One call for a fragment of the client's.
  abbrev pub writes : LlmDirection → ℕ
  writes LlmDirection.write_side = 1
  writes _ = 0

  idle_le : (s : ProcessorState H) → idle H s ≤ 1
  idle_le detecting = omega arith
  idle_le (processing_request start parser) = omega arith
  idle_le (processing_response start parser) = omega arith
  idle_le (http2 conn) = omega arith
  idle_le finished = omega arith

  begins_le : (d : LlmDirection) (s : ProcessorState H) → begins H d s ≤ writes d
  begins_le LlmDirection.write_side s = idle_le s
  begins_le LlmDirection.read_side s = omega arith
  begins_le LlmDirection.handshake s = omega arith
  begins_le LlmDirection.unknown s = omega arith

  begins_le_idle : (d : LlmDirection) (s : ProcessorState H) → begins H d s ≤ idle H s
  begins_le_idle LlmDirection.write_side s = omega arith
  begins_le_idle LlmDirection.read_side s = omega arith
  begins_le_idle LlmDirection.handshake s = omega arith
  begins_le_idle LlmDirection.unknown s = omega arith

  wrote_one : (d : LlmDirection) → is_write d ≡ true → writes d ≡ 1
  wrote_one LlmDirection.write_side e = refl
  wrote_one LlmDirection.read_side e = absurd cc
  wrote_one LlmDirection.handshake e = absurd cc
  wrote_one LlmDirection.unknown e = absurd cc

  -- With what the event may begin, no more calls than `n` and not HTTP/2.
  abbrev pub LeavesAtMost : ℕ → LlmDirection → Result H → Type 0
  LeavesAtMost n d (p, node, outcome) =
      (accounted H p node + begins H d p.state ≤ n) × (is_http2 H p.state ≡ false)

  mid_idle :
      (s : ProcessorState H) (p : StreamProcessor H) → mid_response H s p ≡ true → idle H s ≡ 0
  mid_idle detecting p e = absurd cc
  mid_idle (processing_request start parser) p e = refl
  mid_idle (processing_response start parser) p e = refl
  mid_idle (http2 conn) p e = refl
  mid_idle finished p e = absurd cc

  skipped_AtMost :
      (next : Option (ℕ × ℕ)) (at : ℕ × ℕ) (call : Call H.Pod) (p : StreamProcessor H)
      (node : Node H.Pod)
      → p.next_request ≡ next
      → idle H p.state ≡ 0
      → is_http2 H p.state ≡ false
      → LeavesAtMost
          (accounted H p node + 1)
          LlmDirection.write_side
          (count_skipped H next call (record p { next_request = some at }) node)
  skipped_AtMost none at call p node e i h = (omega (arith, i), h)
  skipped_AtMost (some before) at call p node e i h = (
    omega (
      arith,
      i,
      ap ahead e,
      unparsed_known call.pid UnparsedReason.capture_lost call.pod_info node,
    ),
    h,
  )

  note_AtMost :
      (bytes : Bytes) (call : Call H.Pod) (p : StreamProcessor H) (node : Node H.Pod)
      → is_http2 H p.state ≡ false
      → LeavesAtMost
          (accounted H p node + 1)
          LlmDirection.write_side
          (note_next_request H bytes call p node)
  unfolding note_next_request mid_http11_response
  note_AtMost bytes call p node h = elim (Bool-cases (mid_response H p.state p)) [
    | inl mid ↦ elim (Bool-cases (H.is_request_head bytes)) [
      | inl head ↦
          rw (mid, head)
            (skipped_AtMost p.next_request (length p.write_buf, call.now) call p node refl
              (mid_idle p.state p mid) h)
      | inr other ↦ rw (mid, other) (omega (arith, idle_le p.state), h)
    ]
    | inr other ↦ rw other (omega (arith, idle_le p.state), h)
  ]

  pub look_ahead-AtMost :
      (resync : Bool) (f : Fragment) (call : Call H.Pod) (r : Result H) (n : ℕ)
      → AtMost H n r
      → LeavesAtMost (n + writes f.direction) f.direction (look_ahead H resync f call r)
  look_ahead-AtMost true f call (p, node, dropped) n h =
      let r = resume_AtMost node.calls call.now p node h.1 in
      (omega (arith, r.0, h.0, begins_le f.direction _), r.1)
  look_ahead-AtMost false f call (p, node, dropped) n h =
      elim (Bool-cases ((f.offset == 0) && is_write f.direction)) [
        | inl wrote ↦ rw wrote (
            let noted = note_AtMost f.bytes call p node h.1 in
            (
              omega (
                arith,
                noted.0,
                h.0,
                begins_le_idle f.direction
                    (StreamProcessor.state (note_next_request H f.bytes call p node).0),
                wrote_one f.direction (and_right _ _ wrote),
              ),
              noted.1,
            ))
        | inr other ↦ rw other (omega (arith, h.0, begins_le f.direction p.state), h.1)
      ]
