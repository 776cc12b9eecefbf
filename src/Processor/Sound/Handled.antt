-- ===== src/Processor/Sound/Handled.antt =====
-- processor.rs: `handle_event`, the look ahead at the next request, and the resumption keep a connection
-- sound.
use mathlib.Core.Path.{subst}
use honeybeepf_llm.Prelude.{
  ℕ, ◌^◌, ◌<◌, ◌≡◌, refl, sym, Bool, true, Bool-cases, inl, inr, Option, none, some, [], Bytes,
  length, drop, length-drop, min, arith,
}
use honeybeepf_llm.Prelude.Maps.{Map}
use honeybeepf_llm.Background.Calls.{PendingCall}
use honeybeepf_llm.Background.Bounds.{IsBounded}
use honeybeepf_llm.H2.Types.{UnparsedReason}
use honeybeepf_llm.Processor.Types.{
  LlmDirection, is_read, Http, Outcome, Node, Call, PastLimit, ProcessorState, detecting,
  processing_request, processing_response, http2, finished, StreamProcessor, is_llm,
}
use honeybeepf_llm.Processor.Settle.{count_unparsed, drop_by, drop_response}
use honeybeepf_llm.Processor.Event.{
  Buffered, kept, ignored, overflow, detect, advance, after_drop, after_buffering, buffer,
  handle_event,
}
use honeybeepf_llm.Processor.Ahead.{
  mid_response, mid_http11_response, count_skipped, note_next_request, started_at, resumed,
  resume_at, resume_next_request,
}
use honeybeepf_llm.Processor.Sound.Invariant.{KeepsNone, Held, StateOk, IsSound, KeepsSound}
use honeybeepf_llm.Processor.Sound.Event.{
  Ready, BufferedOk, reset-IsSound, buffer-BufferedOk, DetectedOk, detect-DetectedOk,
}
use honeybeepf_llm.Processor.Sound.Settle.{respond-KeepsSound}

module _ (H : Http) where
  detected-KeepsSound :
      (found : StreamProcessor H × ProcessorState H) (node : Node H.Pod)
      → DetectedOk H found
      → IsBounded node.calls
      → KeepsSound H (record (found.0) { state = found.1 }, node, Outcome.pending)
  detected-KeepsSound (p, state) node h b = (record { held = h.0; state_ok = h.1 }, b)

  stays-IsSound :
      (s : ProcessorState H) (p : StreamProcessor H)
      → p.state ≡ s
      → Held H p
      → StateOk H s p
      → IsSound H p
  stays-IsSound s p e h ok = record {
    held = h;
    state_ok = subst (λ (s : ProcessorState H). StateOk H s p) (sym e) ok;
  }

  advance-KeepsSound :
      (s : ProcessorState H) (d : LlmDirection) (complete : Bool) (call : Call H.Pod)
      (p : StreamProcessor H) (node : Node H.Pod)
      → p.state ≡ s
      → Held H p
      → Ready H d s p
      → IsBounded node.calls
      → KeepsSound H (advance H s d complete call p node)
  advance-KeepsSound detecting d complete call p node e h r b =
      detected-KeepsSound (detect H node.calls call.now p) node
        (detect-DetectedOk H node.calls call.now p h r) b
  advance-KeepsSound (processing_request start parser) d complete call p node e h r b =
      elim (Bool-cases (is_read d)) [
        | inl reads ↦ rw reads (respond-KeepsSound H start parser complete call p node h b)
        | inr other ↦ rw other (stays-IsSound _ p e h (r other), b)
      ]
  advance-KeepsSound (processing_response start parser) d complete call p node e h r b =
      respond-KeepsSound H start parser complete call p node h b
  advance-KeepsSound (http2 conn) d complete call p node e h r b =
      (stays-IsSound (http2 conn) p e h r, b)
  advance-KeepsSound finished d complete call p node e h r b = (stays-IsSound finished p e h r, b)

  drop_by_frag :
      (polled : Option Bytes) (reason : UnparsedReason) (call : Call H.Pod) (p : StreamProcessor H)
      (node : Node H.Pod)
      → p.frag_next < 2 ^ 32
      → IsBounded node.calls
      → KeepsSound H (after_drop H (drop_by H polled reason call p node))
  unfolding count_unparsed
  drop_by_frag (some id) reason call p node lt b = (reset-IsSound H p lt, b)
  drop_by_frag none reason call p node lt b = (reset-IsSound H p lt, b)

  drop_response_frag :
      (reason : UnparsedReason) (call : Call H.Pod) (p : StreamProcessor H) (node : Node H.Pod)
      → p.frag_next < 2 ^ 32
      → IsBounded node.calls
      → KeepsSound H (after_drop H (drop_response H reason call p node))
  unfolding drop_response
  drop_response_frag reason call p node lt b = elim (Bool-cases (is_llm H p)) [
    | inl llm ↦ rw llm (
        drop_by_frag p.continuation reason call (record p { state = finished; continuation = none })
          node lt b)
    | inr other ↦ rw other (reset-IsSound H p lt, b)
  ]

  after_buffering-KeepsSound :
      (d : LlmDirection) (complete : Bool) (call : Call H.Pod) (node : Node H.Pod)
      (buffered : StreamProcessor H × Buffered)
      → BufferedOk H d buffered
      → IsBounded node.calls
      → KeepsSound H (after_buffering H d complete call node buffered)
  after_buffering-KeepsSound d complete call node (p, kept) h b =
      advance-KeepsSound p.state d complete call p node refl h.0 h.1 b
  after_buffering-KeepsSound d complete call node (p, ignored) h b = (h, b)
  after_buffering-KeepsSound d complete call node (p, overflow reason) h b =
      drop_response_frag reason call p node h b

  pub handle_event-KeepsSound :
      (d : LlmDirection) (bytes : Bytes) (complete : Bool) (call : Call H.Pod)
      (p : StreamProcessor H) (node : Node H.Pod)
      → IsSound H p
      → IsBounded node.calls
      → KeepsSound H (handle_event H d bytes complete call p node)
  unfolding handle_event
  handle_event-KeepsSound d bytes complete call p node ok b =
      let active = record p { last_activity = call.now } in
      after_buffering-KeepsSound d complete call node (buffer H d bytes active)
        (buffer-BufferedOk H d bytes active (record { held = ok.held; state_ok = ok.state_ok })) b

  count_skipped-KeepsSound :
      (skipped : Option (ℕ × ℕ)) (call : Call H.Pod) (p : StreamProcessor H) (node : Node H.Pod)
      → IsSound H p
      → IsBounded node.calls
      → KeepsSound H (count_skipped H skipped call p node)
  unfolding count_unparsed
  count_skipped-KeepsSound none call p node ok b = (ok, b)
  count_skipped-KeepsSound (some at) call p node ok b = (ok, b)

  -- A request is written ahead of its response only while one is awaited.
  ahead-IsSound :
      (s : ProcessorState H) (p : StreamProcessor H) (now : ℕ)
      → p.state ≡ s
      → mid_response H s p ≡ true
      → IsSound H p
      → IsSound H (record p { next_request = some (length p.write_buf, now) })
  ahead-IsSound detecting p now e mid ok = absurd cc
  ahead-IsSound (processing_request start parser) p now e mid ok = absurd cc
  ahead-IsSound (processing_response start parser) p now e mid ok =
      stays-IsSound (processing_response start parser)
        (record p { next_request = some (length p.write_buf, now) }) e
        (ok.held.0, ok.held.1, ok.held.2, ok.held.3, omega arith) tt
  ahead-IsSound (http2 conn) p now e mid ok = absurd cc
  ahead-IsSound finished p now e mid ok = absurd cc

  pub note_next_request-KeepsSound :
      (bytes : Bytes) (call : Call H.Pod) (p : StreamProcessor H) (node : Node H.Pod)
      → IsSound H p
      → IsBounded node.calls
      → KeepsSound H (note_next_request H bytes call p node)
  unfolding note_next_request mid_http11_response
  note_next_request-KeepsSound bytes call p node ok b =
      elim (Bool-cases (mid_http11_response H p)) [
        | inl mid ↦ elim (Bool-cases (H.is_request_head bytes)) [
          | inl head ↦
              rw (mid, head)
                (count_skipped-KeepsSound p.next_request call
                  (record p { next_request = some (length p.write_buf, call.now) }) node
                  (ahead-IsSound p.state p call.now refl mid ok) b)
          | inr other ↦ rw (mid, other) (ok, b)
        ]
        | inr other ↦ rw other (ok, b)
      ]

  started-Allows :
      (start : ℕ) (s : ProcessorState H) (p : StreamProcessor H)
      → StateOk H s p
      → StateOk H (started_at H start s) p
  started-Allows start detecting p h = h
  started-Allows start (processing_request begun parser) p h = h
  started-Allows start (processing_response begun parser) p h = h
  started-Allows start (http2 conn) p h = h
  started-Allows start finished p h = h

  resumed-IsSound :
      (start : ℕ) (found : StreamProcessor H × ProcessorState H)
      → DetectedOk H found
      → IsSound H (resumed H start found)
  resumed-IsSound start (p, state) h = record {
    held = h.0;
    state_ok = started-Allows start state p h.1;
  }

  resume_at-IsSound :
      (ahead : Option (ℕ × ℕ)) (calls : Map (PendingCall H.Pod)) (now : ℕ) (p : StreamProcessor H)
      → IsSound H p
      → p.past_limit ≡ none
      → p.continuation ≡ none
      → IsSound H (resume_at H ahead calls now p)
  resume_at-IsSound none calls now p ok whole polled = ok
  resume_at-IsSound (some (at, start)) calls now p ok whole polled =
      let from = record p {
        next_request = none;
        write_buf = drop (min at (length p.write_buf)) p.write_buf;
        read_buf = [];
        read_progress = H.default_progress;
      } in
      resumed-IsSound start (detect H calls now from) (
        detect-DetectedOk H calls now from
          (
            omega (arith, ok.held.0, length-drop (min at (length p.write_buf)) p.write_buf),
            omega arith,
            ok.held.2,
            subst (λ (o : Option (PastLimit H)). KeepsNone H o []) (sym whole) tt,
            tt,
          )
          ((refl, whole, refl), polled))

  pub resume_next_request-IsSound :
      (calls : Map (PendingCall H.Pod)) (now : ℕ) (p : StreamProcessor H)
      → IsSound H p
      → p.past_limit ≡ none
      → p.continuation ≡ none
      → IsSound H (resume_next_request H calls now p)
  unfolding resume_next_request
  resume_next_request-IsSound calls now p ok whole polled =
      resume_at-IsSound p.next_request calls now p ok whole polled
