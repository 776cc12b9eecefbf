-- ===== src/Processor/Accounts/Fragment.antt =====
-- processor.rs: a fragment on a connection that is not HTTP/2 settles no call twice.
use honeybeepf_llm.Prelude.{
  ℕ, ◌+◌, ◌≡◌, refl, Bool, true, false, ◌&&◌, not, Option, none, some, ◌==◌, arith,
}
use honeybeepf_llm.H2.Types.{UnparsedReason}
use honeybeepf_llm.Processor.Types.{Http, Node, Call, ProcessorState, StreamProcessor}
use honeybeepf_llm.Processor.Settle.{Result}
use honeybeepf_llm.Processor.Ahead.{is_http2}
use honeybeepf_llm.Processor.Fragment.{
  Fragment, is_complete, tracked, enters_http2, joins_midway, out_of_order, has_gap, resyncs,
  drop_reason, drop_for, look_ahead, and_handle, handle_http11, handle_fragment,
}
use honeybeepf_llm.Processor.Accounts.{accounted, AtMost}
use honeybeepf_llm.Processor.Accounts.Event.{drop_response-AtMost}
use honeybeepf_llm.Processor.Accounts.Handled.{
  handle_event-AtMost, writes, LeavesAtMost, look_ahead-AtMost,
}

module _ (H : Http) where
  drop_for-AtMost :
      (o : Option UnparsedReason) (call : Call H.Pod) (p : StreamProcessor H) (node : Node H.Pod)
      → is_http2 H p.state ≡ false
      → AtMost H (accounted H p node) (drop_for H o call p node)
  drop_for-AtMost none call p node h = (omega arith, h)
  drop_for-AtMost (some reason) call p node h = drop_response-AtMost H reason call p node h

  and_handle-AtMost :
      (skips : Bool) (f : Fragment) (call : Call H.Pod) (r : Result H) (n : ℕ)
      → LeavesAtMost H n f.direction r
      → AtMost H n (and_handle H skips f call r)
  and_handle-AtMost true f call (p, node, dropped) n h = (omega (arith, h.0), h.1)
  and_handle-AtMost false f call (p, node, dropped) n h =
      let r = handle_event-AtMost H f.direction f.bytes (is_complete f) call p node h.1 in
      (omega (arith, r.0, h.0), r.1)

  http11_AtMost :
      (f : Fragment) (call : Call H.Pod) (p : StreamProcessor H) (node : Node H.Pod)
      → is_http2 H p.state ≡ false
      → AtMost H (accounted H p node + writes H f.direction) (handle_http11 H f call p node)
  http11_AtMost f call p node h =
      let gap = has_gap H f p in
      let p' = tracked H f p in
      let resync = resyncs H gap f p' in
      let dropped = drop_for H (drop_reason H gap resync f p') call p' node in
      and_handle-AtMost (out_of_order H f p && not (f.offset == 0)) f call
        (look_ahead H resync f call dropped) (accounted H p node + writes H f.direction)
        (look_ahead-AtMost H resync f call dropped (accounted H p node)
          (drop_for-AtMost (drop_reason H gap resync f p') call p' node h))

  -- Handled, with no more calls than `n`.
  abbrev pub SettlesAtMost : ℕ → Option (Result H) → Type 0
  SettlesAtMost n none = ⊥
  SettlesAtMost n (some r) = AtMost H n r

  not_entered :
      (s : ProcessorState H) (f : Fragment) (p : StreamProcessor H)
      → p.state ≡ s
      → enters_http2 H f p ≡ false
      → is_http2 H p.state ≡ false
  not_entered s f p e h = ground arith

  -- A fragment that neither finds nor starts an HTTP/2 connection is handled, and leaves it none.
  -- The calls recorded or counted as unparsed, those waiting in the background, the call in
  -- progress that is no poll, and the request written ahead of a response are together no more
  -- after it than before, or one more after a client's fragment: no call is settled twice, a
  -- background call neither by two polls nor by a poll and an eviction.
  pub handle_fragment-SettlesAtMost :
      (f : Fragment) (call : Call H.Pod) (p : StreamProcessor H) (node : Node H.Pod)
      → enters_http2 H f p ≡ false
      → joins_midway H f p ≡ false
      → SettlesAtMost (accounted H p node + writes H f.direction) (handle_fragment H f call p node)
  unfolding handle_fragment
  handle_fragment-SettlesAtMost f call p node enters joins =
      rw (enters, joins) (http11_AtMost f call p node (not_entered p.state f p refl enters))
