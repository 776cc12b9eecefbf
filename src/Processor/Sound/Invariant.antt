-- ===== src/Processor/Sound/Invariant.antt =====
-- What holds of a connection between two fragments: buffers within their limits, and what each state
-- leaves empty.
use honeybeepf_llm.Prelude.{
  ℕ, ◌^◌, ◌≤◌, ◌<◌, ◌≡◌, refl, Option, none, some, [], Bytes, length, arith,
}
use honeybeepf_llm.H2.Stream.{max_response_buffer_size}
use honeybeepf_llm.H2.Budget.Feed.{ConnOk}
use honeybeepf_llm.Background.Bounds.{IsBounded}
use honeybeepf_llm.Processor.Types.{
  max_request_buffer_size, Http, Node, Outcome, PastLimit, ProcessorState, detecting,
  processing_request, processing_response, http2, finished, StreamProcessor, new_processor,
}

-- The request written ahead starts within the buffer.
abbrev pub StartsWithin : Option (ℕ × ℕ) → Bytes → Type 0
StartsWithin none buf = Unit
StartsWithin (some (at, start)) buf = at ≤ length buf

module _ (H : Http) where
  -- A response that is followed past the limit is not kept.
  abbrev pub KeepsNone : Option (PastLimit H) → Bytes → Type 0
  KeepsNone none buf = Unit
  KeepsNone (some limit) buf = buf ≡ []

  -- Whatever the state.
  abbrev pub Held : StreamProcessor H → Type 0
  Held p =
      (length p.write_buf ≤ max_request_buffer_size)
      × (length p.read_buf ≤ max_response_buffer_size)
      × (p.frag_next < 2 ^ 32)
      × KeepsNone p.past_limit p.read_buf
      × StartsWithin p.next_request p.write_buf

  -- Nothing of a response yet.
  abbrev pub Fresh : Bytes → Option (PastLimit H) → Option (ℕ × ℕ) → Type 0
  Fresh buf past next = (buf ≡ []) × (past ≡ none) × (next ≡ none)

  abbrev pub IsFresh : StreamProcessor H → Type 0
  IsFresh p = Fresh p.read_buf p.past_limit p.next_request

  -- Of the response's bytes, the limit, the request ahead and the poll.
  abbrev pub Allows :
      ProcessorState H → Bytes → Option (PastLimit H) → Option (ℕ × ℕ) → Option Bytes → Type 0
  Allows detecting buf past next polled = Fresh buf past next × (polled ≡ none)
  Allows (processing_request start parser) buf past next polled = Fresh buf past next
  Allows (processing_response start parser) buf past next polled = Unit
  Allows (http2 conn) buf past next polled = ConnOk H.json H.services conn
  Allows finished buf past next polled = polled ≡ none

  abbrev pub StateOk : ProcessorState H → StreamProcessor H → Type 0
  StateOk s p = Allows s p.read_buf p.past_limit p.next_request p.continuation

  pub record IsSound (p : StreamProcessor H) : Type 0 where
    pub held : Held p
    pub state_ok : StateOk p.state p

  abbrev pub KeepsSound : StreamProcessor H × Node H.Pod × Outcome → Type 0
  KeepsSound (p, node, outcome) = IsSound p × IsBounded node.calls

  pub new-IsSound : (now : ℕ) → IsSound (new_processor H now)
  unfolding new_processor
  new-IsSound now = record {
    held = (omega arith, omega arith, omega arith, tt, tt);
    state_ok = ((refl, refl, refl), refl);
  }
