-- ===== src/Processor/Closed.antt =====
-- processor.rs: what the end of a connection counts.
use honeybeepf_llm.Prelude.{
  ℕ, zero, suc, ◌≡◌, refl, sym, ap, ◌∙◌, false, Option, none, some, List, [], ◌∷◌, ◌++◌, append-nil,
  append_assoc, Bytes, length, replicate,
}
use honeybeepf_llm.H2.Types.{UnparsedReason}
use honeybeepf_llm.Processor.Types.{
  Http, Note, Node, Call, ProcessorState, detecting, processing_request, processing_response, http2,
  finished, StreamProcessor, is_llm, is_llm_state,
}
use honeybeepf_llm.Processor.Settle.{count_unparsed, Result, drop_by, drop_response}
use honeybeepf_llm.Processor.Fragment.{count_closed, closed_outcome, close_by, close}

module _ (H : Http) where
  -- A poll is no call of its own.
  abbrev pub unpolled : Option Bytes → ℕ
  unpolled none = 1
  unpolled (some id) = 0

  -- The calls that were detected and have no usage yet.
  abbrev pub open_of : ProcessorState H → Option Bytes → ℕ
  open_of detecting polled = 0
  open_of (processing_request start parser) polled = unpolled polled
  open_of (processing_response start parser) polled = unpolled polled
  open_of (http2 conn) polled = length conn.streams
  open_of finished polled = 0

  abbrev pub open_calls : StreamProcessor H → ℕ
  open_calls p = open_of p.state p.continuation

  abbrev pub closed_note : Call H.Pod → Note H.Pod
  closed_note call = Note.unparsed_call UnparsedReason.connection_closed call.pid call.pod_info

  -- The calls still open are counted, each once, and no call is left.
  abbrev pub Counts : ℕ → Call H.Pod → List (Note H.Pod) → Result H → Type 0
  Counts k call notes (p, node, outcome) =
      (node.notes ≡ notes ++ replicate k (closed_note call))
      × (outcome ≡ closed_outcome H k)
      × (is_llm_state H p.state ≡ false)

  count_closed-notes :
      (k : ℕ) (call : Call H.Pod) (node : Node H.Pod)
      → Node.notes (count_closed H k call node) ≡ node.notes ++ replicate k (closed_note call)
  unfolding count_closed count_unparsed
  count_closed-notes zero call node = sym (append-nil node.notes)
  count_closed-notes (suc k) call node =
      count_closed-notes k call _
      ∙ append_assoc node.notes (closed_note call ∷ []) (replicate k (closed_note call))

  dropped-Counts :
      (polled : Option Bytes) (call : Call H.Pod) (p : StreamProcessor H) (node : Node H.Pod)
      → is_llm_state H p.state ≡ false
      → Counts
          (unpolled polled)
          call
          node.notes
          (drop_by H polled UnparsedReason.connection_closed call p node)
  unfolding count_unparsed
  dropped-Counts none call p node e = (refl, refl, e)
  dropped-Counts (some id) call p node e = (sym (append-nil node.notes), refl, e)

  close_by-Counts :
      (s : ProcessorState H) (call : Call H.Pod) (p : StreamProcessor H) (node : Node H.Pod)
      → p.state ≡ s
      → Counts (open_of s p.continuation) call node.notes (close_by H s call p node)
  unfolding drop_response is_llm
  close_by-Counts (http2 conn) call p node e =
      (count_closed-notes (length conn.streams) call _, refl, refl)
  close_by-Counts detecting call p node e =
      rw (ap (is_llm_state H) e) (sym (append-nil node.notes), refl, ap (is_llm_state H) e)
  close_by-Counts finished call p node e =
      rw (ap (is_llm_state H) e) (sym (append-nil node.notes), refl, ap (is_llm_state H) e)
  close_by-Counts (processing_request start parser) call p node e = rw (ap (is_llm_state H) e) (
      dropped-Counts p.continuation call (record p { state = finished; continuation = none }) node
        refl)
  close_by-Counts (processing_response start parser) call p node e = rw (ap (is_llm_state H) e) (
      dropped-Counts p.continuation call (record p { state = finished; continuation = none }) node
        refl)

  -- The close of a connection counts each call that is still open as unparsed, once, with the
  -- reason `connection_closed`: each open stream of an HTTP/2 connection, and the call of a
  -- request or a response that is no poll. Nothing else is noted, the outcome says whether one was
  -- counted, and no call is left in progress.
  pub close-Counts :
      (call : Call H.Pod) (p : StreamProcessor H) (node : Node H.Pod)
      → Counts (open_calls p) call node.notes (close H call p node)
  unfolding close
  close-Counts call p node = close_by-Counts p.state call p node refl
