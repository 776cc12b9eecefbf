-- ===== src/Processor/Sound/Fragment.antt =====
-- processor.rs: `handle_fragment` returns on every fragment and keeps the connection sound.
use honeybeepf_llm.Prelude.{
  ◌≡◌, refl, Bool, true, false, Bool-cases, inl, inr, ◌&&◌, not, Option, none, some, Bytes, ◌==◌,
  arith, is_some,
}
use honeybeepf_llm.Background.Bounds.{IsBounded}
use honeybeepf_llm.H2.Types.{UnparsedReason}
use honeybeepf_llm.Processor.Types.{
  is_write, Http, Node, Call, PastLimit, ProcessorState, detecting, processing_request,
  processing_response, http2, finished, StreamProcessor, is_llm, is_llm_state,
}
use honeybeepf_llm.Processor.Settle.{Result, drop_by, drop_response}
use honeybeepf_llm.Processor.Ahead.{
  is_detecting, mid_response, mid_http11_response, lost_http11_tail, awaits_http11_response,
}
use honeybeepf_llm.Processor.Fragment.{
  Fragment, tracked, joins_midway, enters_http2, out_of_order, has_gap, resyncs, drop_reason,
  drop_for, look_ahead, and_handle, is_complete, handle_http11, handle_fragment,
}
use honeybeepf_llm.Processor.Sound.Invariant.{IsSound, KeepsSound}
use honeybeepf_llm.Processor.Sound.Settle.{drop_response-KeepsSound}
use honeybeepf_llm.Processor.Sound.Handled.{
  handle_event-KeepsSound, note_next_request-KeepsSound, resume_next_request-IsSound,
}
use honeybeepf_llm.Processor.Sound.Http2.{
  ReturnsSound, tracked-IsSound, handle_http2-ReturnsSound, detect_h2_midjoin-ReturnsSound,
}

module _ (H : Http) where
  no_limit : (o : Option (PastLimit H)) (w : Bool) → (not w && not (is_some o)) ≡ true → o ≡ none
  no_limit none w e = refl
  no_limit (some limit) w e = absurd (ground arith)

  mid_facts :
      (s : ProcessorState H) (p : StreamProcessor H)
      → mid_response H s p ≡ true
      → (is_llm_state H s ≡ true) × (p.past_limit ≡ none)
  mid_facts detecting p e = absurd cc
  mid_facts (processing_request start parser) p e = absurd cc
  mid_facts (processing_response start parser) p e =
      (refl, no_limit p.past_limit parser.writes_during_response e)
  mid_facts (http2 conn) p e = absurd cc
  mid_facts finished p e = absurd cc

  -- Neither followed past the limit nor a poll.
  abbrev Plain : StreamProcessor H → Type 0
  Plain p = (p.past_limit ≡ none) × (p.continuation ≡ none)

  drop_by-Plain :
      (polled : Option Bytes) (reason : UnparsedReason) (call : Call H.Pod) (p : StreamProcessor H)
      (node : Node H.Pod)
      → Plain p
      → Plain (drop_by H polled reason call p node).0
  drop_by-Plain (some id) reason call p node h = h
  drop_by-Plain none reason call p node h = h

  drop_response-Plain :
      (reason : UnparsedReason) (call : Call H.Pod) (p : StreamProcessor H) (node : Node H.Pod)
      → is_llm H p ≡ true
      → p.past_limit ≡ none
      → Plain (drop_response H reason call p node).0
  unfolding drop_response
  drop_response-Plain reason call p node llm whole = rw llm (
      drop_by-Plain p.continuation reason call (record p { state = finished; continuation = none })
        node (whole, refl))

  -- Where the request written ahead is answered, the response was dropped.
  resync_drops :
      (gap : Bool) (f : Fragment) (call : Call H.Pod) (p : StreamProcessor H) (node : Node H.Pod)
      → is_llm H p ≡ true
      → p.past_limit ≡ none
      → Plain (drop_for H (drop_reason H gap true f p) call p node).0
  resync_drops true f call p node llm whole =
      drop_response-Plain UnparsedReason.capture_lost call p node llm whole
  resync_drops false f call p node llm whole =
      elim (Bool-cases (is_write f.direction && awaits_http11_response H p)) [
        | inl awaits ↦
            rw awaits (drop_response-Plain UnparsedReason.next_request call p node llm whole)
        | inr other ↦
            rw other (drop_response-Plain UnparsedReason.capture_lost call p node llm whole)
      ]

  mid_of_tail :
      (f : Fragment) (p : StreamProcessor H) (gap : Bool)
      → resyncs H gap f p ≡ true
      → mid_response H p.state p ≡ true
  unfolding lost_http11_tail mid_http11_response
  mid_of_tail f p gap e = ground arith

  resynced-Plain :
      (f : Fragment) (call : Call H.Pod) (p : StreamProcessor H) (node : Node H.Pod)
      (gap resync : Bool)
      → resyncs H gap f p ≡ resync
      → resync ≡ true
      → Plain (drop_for H (drop_reason H gap resync f p) call p node).0
  unfolding is_llm
  resynced-Plain f call p node gap true e h =
      let facts = mid_facts p.state p (mid_of_tail f p gap e) in
      resync_drops gap f call p node facts.0 facts.1
  resynced-Plain f call p node gap false e h = absurd cc

  drop_for-KeepsSound :
      (o : Option UnparsedReason) (call : Call H.Pod) (p : StreamProcessor H) (node : Node H.Pod)
      → IsSound H p
      → IsBounded node.calls
      → KeepsSound H (drop_for H o call p node)
  drop_for-KeepsSound none call p node ok b = (ok, b)
  drop_for-KeepsSound (some reason) call p node ok b =
      drop_response-KeepsSound H reason call p node ok b

  look_ahead-KeepsSound :
      (resync : Bool) (f : Fragment) (call : Call H.Pod) (r : Result H)
      → KeepsSound H r
      → (resync ≡ true → Plain r.0)
      → KeepsSound H (look_ahead H resync f call r)
  look_ahead-KeepsSound true f call (p, node, dropped) h plain =
      (resume_next_request-IsSound H node.calls call.now p h.0 (plain refl).0 (plain refl).1, h.1)
  look_ahead-KeepsSound false f call (p, node, dropped) h plain =
      elim (Bool-cases ((f.offset == 0) && is_write f.direction)) [
        | inl writes ↦ rw writes (note_next_request-KeepsSound H f.bytes call p node h.0 h.1)
        | inr other ↦ rw other h
      ]

  and_handle-KeepsSound :
      (skips : Bool) (f : Fragment) (call : Call H.Pod) (r : Result H)
      → KeepsSound H r
      → KeepsSound H (and_handle H skips f call r)
  and_handle-KeepsSound true f call (p, node, dropped) h = h
  and_handle-KeepsSound false f call (p, node, dropped) h =
      handle_event-KeepsSound H f.direction f.bytes (is_complete f) call p node h.0 h.1

  handle_http11-KeepsSound :
      (f : Fragment) (call : Call H.Pod) (p : StreamProcessor H) (node : Node H.Pod)
      → IsSound H p
      → IsBounded node.calls
      → KeepsSound H (handle_http11 H f call p node)
  unfolding is_llm mid_http11_response
  handle_http11-KeepsSound f call p node ok b =
      let gap = has_gap H f p in
      let p' = tracked H f p in
      let resync = resyncs H gap f p' in
      and_handle-KeepsSound (out_of_order H f p && not (f.offset == 0)) f call
        (look_ahead H resync f call (drop_for H (drop_reason H gap resync f p') call p' node))
        (look_ahead-KeepsSound resync f call
          (drop_for H (drop_reason H gap resync f p') call p' node)
          (drop_for-KeepsSound (drop_reason H gap resync f p') call p' node
            (tracked-IsSound H f p ok) b)
          (resynced-Plain f call p' node gap resync refl))

  joined_Detecting :
      (f : Fragment) (p : StreamProcessor H)
      → joins_midway H f p ≡ true
      → is_detecting H p.state ≡ true
  joined_Detecting f p e = ground arith

  -- Where the background calls are at most 4096 with distinct ids, handling a fragment of a sound
  -- connection returns, keeps the calls so, and leaves the connection sound: the request buffer
  -- within 8 MiB and the response buffer within 16 MiB, the request written ahead starting within
  -- the first, nothing kept of a response that is followed past the limit or was not read yet, no
  -- poll noted before a request is known or after it is over, and an HTTP/2 connection with valid
  -- readers and right accounts.
  pub handle_fragment-ReturnsSound :
      (f : Fragment) (call : Call H.Pod) (p : StreamProcessor H) (node : Node H.Pod)
      → IsSound H p
      → IsBounded node.calls
      → ReturnsSound H (handle_fragment H f call p node)
  unfolding handle_fragment
  handle_fragment-ReturnsSound f call p node ok b = elim (Bool-cases (enters_http2 H f p)) [
    | inl enters ↦ rw enters (handle_http2-ReturnsSound H f call p node ok b)
    | inr other ↦ elim (Bool-cases (joins_midway H f p)) [
      | inl joins ↦
          rw (other, joins)
            (detect_h2_midjoin-ReturnsSound H f call p node (joined_Detecting f p joins) ok b)
      | inr neither ↦ rw (other, neither) (handle_http11-KeepsSound f call p node ok b)
    ]
  ]
