-- ===== src/Processor/Accounts/Event.antt =====
-- processor.rs: `handle_event` and `drop_response` settle no call twice.
use mathlib.Core.Path.{subst}
use honeybeepf_llm.Prelude.{
  ℕ, ◌+◌, ◌≤◌, ◌≡◌, refl, ap, Bool, true, false, Bool-cases, inl, inr, Option, none, some, [],
  Bytes, length, ltb, if◌then◌else◌, arith,
}
use honeybeepf_llm.H2.Types.{UnparsedReason}
use honeybeepf_llm.Processor.Types.{
  max_request_buffer_size, LlmDirection, Http, Outcome, Node, Call, PastLimit, ProcessorState,
  detecting, processing_request, processing_response, http2, finished, StreamProcessor, is_llm,
  is_llm_state,
}
use honeybeepf_llm.Processor.Settle.{drop_by, drop_response}
use honeybeepf_llm.Processor.Event.{
  Buffered, kept, ignored, overflow, past_start, past_feed, reset, reset_finished, appended_write,
  buffer_write, followed, follow, follow_from, buffer_response, buffer_read_by, buffer_read, buffer,
}
use honeybeepf_llm.Processor.Ahead.{is_http2}
use honeybeepf_llm.Processor.Closed.{unpolled, open_of}
use honeybeepf_llm.Processor.Accounts.{known, ahead, accounted, AtMost}
use honeybeepf_llm.Processor.Accounts.Settle.{unparsed_known}

module _ (H : Http) where
  pub unpolled_le : (polled : Option Bytes) → unpolled H polled ≤ 1
  unpolled_le none = omega arith
  unpolled_le (some id) = omega arith

  drop_by-AtMost :
      (polled : Option Bytes) (reason : UnparsedReason) (call : Call H.Pod) (p : StreamProcessor H)
      (node : Node H.Pod)
      → p.state ≡ finished
      → AtMost H
          (known node + unpolled H polled + ahead p.next_request)
          (drop_by H polled reason call p node)
  drop_by-AtMost (some id) reason call p node e =
      (omega (arith, ap (λ s. open_of H s p.continuation) e), ap (is_http2 H) e)
  drop_by-AtMost none reason call p node e = (
    omega (
      arith,
      ap (λ s. open_of H s p.continuation) e,
      unparsed_known call.pid reason call.pod_info node,
    ),
    ap (is_http2 H) e,
  )

  drop_AtMost :
      (s : ProcessorState H) (reason : UnparsedReason) (call : Call H.Pod) (p : StreamProcessor H)
      (node : Node H.Pod)
      → p.state ≡ s
      → is_http2 H s ≡ false
      → AtMost H (known node + open_of H s p.continuation + ahead p.next_request) (
          if is_llm_state H s
          then drop_by H p.continuation reason call
              (record p { state = finished; continuation = none })
              node
          else (p, node, Outcome.pending))
  drop_AtMost detecting reason call p node e h =
      (omega (arith, ap (λ s. open_of H s p.continuation) e), ap (is_http2 H) e)
  drop_AtMost finished reason call p node e h =
      (omega (arith, ap (λ s. open_of H s p.continuation) e), ap (is_http2 H) e)
  drop_AtMost (processing_request start parser) reason call p node e h =
      drop_by-AtMost p.continuation reason call (record p { state = finished; continuation = none })
        node refl
  drop_AtMost (processing_response start parser) reason call p node e h =
      drop_by-AtMost p.continuation reason call (record p { state = finished; continuation = none })
        node refl
  drop_AtMost (http2 conn) reason call p node e h = absurd cc

  pub drop_response-AtMost :
      (reason : UnparsedReason) (call : Call H.Pod) (p : StreamProcessor H) (node : Node H.Pod)
      → is_http2 H p.state ≡ false
      → AtMost H (accounted H p node) (drop_response H reason call p node)
  unfolding drop_response is_llm
  drop_response-AtMost reason call p node h = drop_AtMost p.state reason call p node refl h

  -- A call may begin where none is in progress.
  abbrev pub idle : ProcessorState H → ℕ
  idle detecting = 1
  idle finished = 1
  idle _ = 0

  abbrev pub holds : StreamProcessor H → ℕ
  holds p = open_of H p.state p.continuation + ahead p.next_request

  abbrev pub BufferedAtMost : ℕ → StreamProcessor H × Buffered → Type 0
  BufferedAtMost n (p, kept) = (holds p + idle p.state ≤ n) × (is_http2 H p.state ≡ false)
  BufferedAtMost n (p, ignored) = (holds p ≤ n) × (is_http2 H p.state ≡ false)
  BufferedAtMost n (p, overflow reason) = (holds p ≤ n) × (is_http2 H p.state ≡ false)

  reset_finished-holds :
      (s : ProcessorState H) (p : StreamProcessor H)
      → p.state ≡ s
      → is_http2 H s ≡ false
      → (holds (reset_finished H s p) + idle (StreamProcessor.state (reset_finished H s p))
          ≤ holds p + idle s)
        × (is_http2 H (StreamProcessor.state (reset_finished H s p)) ≡ false)
  unfolding reset
  reset_finished-holds finished p e h = (omega arith, refl)
  reset_finished-holds detecting p e h = (omega (arith, ap idle e), ap (is_http2 H) e)
  reset_finished-holds (processing_request start parser) p e h =
      (omega (arith, ap idle e), ap (is_http2 H) e)
  reset_finished-holds (processing_response start parser) p e h =
      (omega (arith, ap idle e), ap (is_http2 H) e)
  reset_finished-holds (http2 conn) p e h = absurd cc

  appended_AtMost :
      (n : ℕ) (bytes : Bytes) (p : StreamProcessor H)
      → holds p + idle p.state ≤ n
      → is_http2 H p.state ≡ false
      → BufferedAtMost n (appended_write H bytes p)
  appended_AtMost n bytes p le h =
      elim (Bool-cases (ltb max_request_buffer_size (length p.write_buf + length bytes))) [
        | inl over ↦ rw over (omega (arith, le), h)
        | inr fits ↦ rw fits (le, h)
      ]

  followed_AtMost :
      (n : ℕ) (p : StreamProcessor H) (fed : PastLimit H × Bool)
      → holds p + idle p.state ≤ n
      → is_http2 H p.state ≡ false
      → BufferedAtMost n (followed H p fed)
  followed_AtMost n p (limit, true) le h = (le, h)
  followed_AtMost n p (limit, false) le h = (omega (arith, le), h)

  follow_AtMost :
      (n : ℕ) (o : Option (PastLimit H)) (bytes : Bytes) (p : StreamProcessor H)
      → holds p + idle p.state ≤ n
      → is_http2 H p.state ≡ false
      → BufferedAtMost n (follow H o bytes p)
  follow_AtMost n none bytes p le h = (le, h)
  follow_AtMost n (some limit) bytes p le h = followed_AtMost n p (past_feed H limit bytes) le h

  follow_from_AtMost :
      (n : ℕ) (o : Option (PastLimit H)) (bytes : Bytes) (p : StreamProcessor H)
      → holds p + idle p.state ≤ n
      → is_http2 H p.state ≡ false
      → BufferedAtMost n (follow_from H o bytes p)
  follow_from_AtMost n none bytes p le h = (omega (arith, le), h)
  follow_from_AtMost n (some limit) bytes p le h =
      followed_AtMost n (record p { read_buf = []; read_progress = H.default_progress })
        (past_feed H limit bytes) le h

  either_AtMost :
      (n : ℕ) (b : Bool) (l r : StreamProcessor H × Buffered)
      → BufferedAtMost n l
      → BufferedAtMost n r
      → BufferedAtMost n (if b then l else r)
  either_AtMost n true l r hl hr = hl
  either_AtMost n false l r hl hr = hr

  response_AtMost :
      (n : ℕ) (bytes : Bytes) (p : StreamProcessor H)
      → holds p + idle p.state ≤ n
      → is_http2 H p.state ≡ false
      → BufferedAtMost n (buffer_response H bytes p)
  response_AtMost n bytes p le h =
      either_AtMost n _ _ _ (follow_from_AtMost n (past_start H p.read_buf) bytes p le h)
        (follow_AtMost n p.past_limit bytes p le h)

  answered_AtMost :
      (n : ℕ) (answers : Bool) (p : StreamProcessor H)
      → holds p ≤ n
      → is_http2 H p.state ≡ false
      → BufferedAtMost n (if answers then record p { write_buf = [] } else p, ignored)
  answered_AtMost n true p le h = (le, h)
  answered_AtMost n false p le h = (le, h)

  read_AtMost :
      (s : ProcessorState H) (bytes : Bytes) (p : StreamProcessor H)
      → p.state ≡ s
      → is_http2 H p.state ≡ false
      → BufferedAtMost (holds p) (buffer_read_by H s bytes p)
  read_AtMost finished bytes p e h = (omega arith, h)
  read_AtMost detecting bytes p e h = answered_AtMost (holds p) _ p (omega arith) h
  read_AtMost (processing_request start parser) bytes p e h =
      response_AtMost (holds p) bytes p (omega (arith, ap idle e)) h
  read_AtMost (processing_response start parser) bytes p e h =
      response_AtMost (holds p) bytes p (omega (arith, ap idle e)) h
  read_AtMost (http2 conn) bytes p e h =
      response_AtMost (holds p) bytes p (omega (arith, ap idle e)) h

  -- The calls that a fragment may begin.
  abbrev pub begins : LlmDirection → ProcessorState H → ℕ
  begins LlmDirection.write_side s = idle s
  begins _ s = 0

  pub buffer_AtMost :
      (d : LlmDirection) (bytes : Bytes) (p : StreamProcessor H)
      → is_http2 H p.state ≡ false
      → BufferedAtMost (holds p + begins d p.state) (buffer H d bytes p)
  unfolding buffer_write buffer_read
  buffer_AtMost LlmDirection.write_side bytes p h =
      let r = reset_finished-holds p.state p refl h in
      appended_AtMost (holds p + idle p.state) bytes (reset_finished H p.state p) (r.0) (r.1)
  buffer_AtMost LlmDirection.read_side bytes p h =
      subst (λ n. BufferedAtMost n (buffer_read_by H p.state bytes p)) (omega arith)
        (read_AtMost p.state bytes p refl h)
  buffer_AtMost LlmDirection.handshake bytes p h = (omega arith, h)
  buffer_AtMost LlmDirection.unknown bytes p h = (omega arith, h)
