-- ===== src/Processor/Sound/Http2.antt =====
-- processor.rs: a fragment fed to an HTTP/2 connection is handled, and the connection stays sound.
use mathlib.Core.Path.{subst}
use honeybeepf_llm.Prelude.{
  ℕ, ◌^◌, ◌<◌, ◌≡◌, refl, sym, ◌∙◌, Bool, true, false, ◌&&◌, not, Option, none, some, List, [], ◌∷◌,
  ◌++◌, Bytes, length, ltb, ◌==◌, if◌then◌else◌, arith,
}
use honeybeepf_llm.Frame.Invariant.{client-IsValid, server-IsValid}
use honeybeepf_llm.Pricing.Types.{UsageInfo}
use honeybeepf_llm.Background.Bounds.{IsBounded}
use honeybeepf_llm.H2.Types.{H2Event, H2Gap}
use honeybeepf_llm.H2.Conn.{new, new_midjoin, Fed}
use honeybeepf_llm.H2.Budget.Feed.{ConnOk, FeedReturns, feed-Returns}
use honeybeepf_llm.Processor.Types.{
  LlmDirection, is_write, Http, Outcome, Node, Call, ProcessorState, detecting, processing_request,
  processing_response, http2, finished, StreamProcessor,
}
use honeybeepf_llm.Processor.Gaps.{set_h2_gap, take_h2_gap, lost_before, h2_loss}
use honeybeepf_llm.Processor.Settle.{count_unparsed, record_usage, Result}
use honeybeepf_llm.Processor.Ahead.{is_detecting}
use honeybeepf_llm.Processor.Fragment.{
  Fragment, end_of, is_complete, on_h2_event, on_h2_events, fed_to, feed_to, feed_http2, entered,
  tracked, handle_http2, detect_h2_midjoin,
}
use honeybeepf_llm.Processor.Sound.Invariant.{StartsWithin, Held, StateOk, IsSound, KeepsSound}

module _ (H : Http) where
  pub new-ConnOk : ConnOk H.json H.services new
  unfolding new
  new-ConnOk = record {
    client_ok = client-IsValid;
    server_ok = server-IsValid;
    accounts = record { counted = refl; within_cap = omega arith; few = omega arith; each_ok = tt };
  }

  new_midjoin-ConnOk : ConnOk H.json H.services new_midjoin
  unfolding new_midjoin
  new_midjoin-ConnOk = record {
    client_ok = server-IsValid;
    server_ok = server-IsValid;
    accounts = record { counted = refl; within_cap = omega arith; few = omega arith; each_ok = tt };
  }

  -- Handled, to a sound connection.
  abbrev pub ReturnsSound : Option (Result H) → Type 0
  ReturnsSound none = ⊥
  ReturnsSound (some r) = KeepsSound H r

  set_h2_gap-IsSound :
      (d : LlmDirection) (gap : H2Gap) (p : StreamProcessor H)
      → IsSound H p
      → IsSound H (set_h2_gap H d gap p)
  unfolding set_h2_gap
  set_h2_gap-IsSound LlmDirection.write_side gap p ok = record {
    held = ok.held;
    state_ok = ok.state_ok;
  }
  set_h2_gap-IsSound LlmDirection.read_side gap p ok = record {
    held = ok.held;
    state_ok = ok.state_ok;
  }
  set_h2_gap-IsSound LlmDirection.handshake gap p ok = ok
  set_h2_gap-IsSound LlmDirection.unknown gap p ok = ok

  take_h2_gap-IsSound :
      (d : LlmDirection) (p : StreamProcessor H) → IsSound H p → IsSound H (take_h2_gap H d p).1
  unfolding take_h2_gap
  take_h2_gap-IsSound LlmDirection.write_side p ok = record {
    held = ok.held;
    state_ok = ok.state_ok;
  }
  take_h2_gap-IsSound LlmDirection.read_side p ok = record {
    held = ok.held;
    state_ok = ok.state_ok;
  }
  take_h2_gap-IsSound LlmDirection.handshake p ok = ok
  take_h2_gap-IsSound LlmDirection.unknown p ok = ok

  either-IsSound :
      (b : Bool) (p q : StreamProcessor H)
      → IsSound H p
      → IsSound H q
      → IsSound H (if b then p else q)
  either-IsSound true p q hp hq = hp
  either-IsSound false p q hp hq = hq

  either_gap :
      (b : Bool) (p q : H2Gap × StreamProcessor H)
      → IsSound H p.1
      → IsSound H q.1
      → IsSound H (if b then p else q).1
  either_gap true p q hp hq = hp
  either_gap false p q hp hq = hq

  h2_loss-IsSound :
      (d : LlmDirection) (offset len data_len : ℕ) (truncated : Bool) (p : StreamProcessor H)
      → IsSound H p
      → IsSound H (h2_loss H d offset len data_len truncated p).1
  unfolding h2_loss
  h2_loss-IsSound d offset len data_len truncated p ok =
      let before = either-IsSound _ _ p (set_h2_gap-IsSound p.frag_dir H2Gap.resync p ok) ok in
      let now =
        either_gap (not (offset == 0) && ltb (lost_before H offset p).frag_next offset) _ _ before
          (take_h2_gap-IsSound d (lost_before H offset p) before) in
      either-IsSound _ _ _ (set_h2_gap-IsSound d _ _ now) now

  on_h2_event-calls :
      (call : Call H.Pod) (event : H2Event UsageInfo) (node : Node H.Pod) (outcome : Outcome)
      → Node.calls (on_h2_event H call event (node, outcome)).0 ≡ node.calls
  unfolding record_usage count_unparsed
  on_h2_event-calls call (H2Event.detected path) node outcome = refl
  on_h2_event-calls call (H2Event.recorded usage start true) node outcome = refl
  on_h2_event-calls call (H2Event.recorded usage start false) node outcome = refl
  on_h2_event-calls call (H2Event.unparsed reason) node outcome = refl
  on_h2_event-calls call H2Event.resynced node outcome = refl

  on_h2_events-calls :
      (call : Call H.Pod) (events : List (H2Event UsageInfo)) (to : Node H.Pod × Outcome)
      → Node.calls (on_h2_events H call events to).0 ≡ Node.calls to.0
  unfolding on_h2_events
  on_h2_events-calls call [] to = refl
  on_h2_events-calls call (event ∷ events) (node, outcome) =
      on_h2_events-calls call events (on_h2_event H call event (node, outcome))
      ∙ on_h2_event-calls call event node outcome

  fed_to-ReturnsSound :
      (call : Call H.Pod) (p : StreamProcessor H) (node : Node H.Pod)
      (o : Option (Fed H.json H.services))
      → Held H p
      → IsBounded node.calls
      → FeedReturns H.json H.services o
      → ReturnsSound (fed_to H call p node o)
  fed_to-ReturnsSound call p node none h b ok = ok
  fed_to-ReturnsSound call p node (some fed) h b ok = (
    record { held = h; state_ok = ok },
    subst IsBounded (sym (on_h2_events-calls call fed.events _)) b,
  )

  feed_to-ReturnsSound :
      (s : ProcessorState H) (d : LlmDirection) (bytes : Bytes) (gap : H2Gap) (call : Call H.Pod)
      (p : StreamProcessor H) (node : Node H.Pod)
      → IsSound H p
      → StateOk H s p
      → IsBounded node.calls
      → ReturnsSound (feed_to H s d bytes gap call p node)
  feed_to-ReturnsSound (http2 conn) d bytes gap call p node ok state b =
      fed_to-ReturnsSound call p node _ ok.held b (
        feed-Returns H.json H.services (is_write d) bytes gap call.clock conn node.midjoin_bytes
          state)
  feed_to-ReturnsSound detecting d bytes gap call p node ok state b =
      (record { held = ok.held; state_ok = ok.state_ok }, b)
  feed_to-ReturnsSound (processing_request start parser) d bytes gap call p node ok state b =
      (record { held = ok.held; state_ok = ok.state_ok }, b)
  feed_to-ReturnsSound (processing_response start parser) d bytes gap call p node ok state b =
      (record { held = ok.held; state_ok = ok.state_ok }, b)
  feed_to-ReturnsSound finished d bytes gap call p node ok state b =
      (record { held = ok.held; state_ok = ok.state_ok }, b)

  feed_http2-ReturnsSound :
      (d : LlmDirection) (bytes : Bytes) (gap : H2Gap) (call : Call H.Pod) (p : StreamProcessor H)
      (node : Node H.Pod)
      → IsSound H p
      → IsBounded node.calls
      → ReturnsSound (feed_http2 H d bytes gap call p node)
  unfolding feed_http2
  feed_http2-ReturnsSound d bytes gap call p node ok b =
      feed_to-ReturnsSound p.state d bytes gap call p node ok ok.state_ok b

  next_lt : (f : Fragment) (b : Bool) → (if b then 0 else end_of f) < 2 ^ 32
  next_lt f true = omega arith
  next_lt f false = omega arith

  pub tracked-IsSound :
      (f : Fragment) (p : StreamProcessor H) → IsSound H p → IsSound H (tracked H f p)
  tracked-IsSound f p ok = record {
    held = (ok.held.0, ok.held.1, next_lt f (is_complete f), ok.held.3, ok.held.4);
    state_ok = ok.state_ok;
  }

  entered-IsSound : (p : StreamProcessor H) → IsSound H p → IsSound H (entered H p)
  entered-IsSound p ok =
      either-IsSound (is_detecting H p.state) _ p (record { held = ok.held; state_ok = new-ConnOk })
        ok

  pub handle_http2-ReturnsSound :
      (f : Fragment) (call : Call H.Pod) (p : StreamProcessor H) (node : Node H.Pod)
      → IsSound H p
      → IsBounded node.calls
      → ReturnsSound (handle_http2 H f call p node)
  handle_http2-ReturnsSound f call p node ok b =
      let (gap, p') =
        h2_loss H f.direction f.offset f.len (length f.bytes) f.truncated (entered H p) in
      feed_http2-ReturnsSound f.direction f.bytes gap call (tracked H f p') node
        (tracked-IsSound f p' (
          h2_loss-IsSound f.direction f.offset f.len (length f.bytes) f.truncated (entered H p)
            (entered-IsSound p ok)))
        b

  -- Nothing is written ahead while the protocol is not known.
  joined_Held :
      (s : ProcessorState H) (p : StreamProcessor H)
      → is_detecting H s ≡ true
      → StateOk H s p
      → p.next_request ≡ none
  joined_Held detecting p e h = h.0.2
  joined_Held (processing_request start parser) p e h = absurd cc
  joined_Held (processing_response start parser) p e h = absurd cc
  joined_Held (http2 conn) p e h = absurd cc
  joined_Held finished p e h = absurd cc

  pub detect_h2_midjoin-ReturnsSound :
      (f : Fragment) (call : Call H.Pod) (p : StreamProcessor H) (node : Node H.Pod)
      → is_detecting H p.state ≡ true
      → IsSound H p
      → IsBounded node.calls
      → ReturnsSound (detect_h2_midjoin H f call p node)
  unfolding detect_h2_midjoin
  detect_h2_midjoin-ReturnsSound f call p node e ok b =
      let joined = tracked H f (record p {
        write_buf = [];
        state = http2 new_midjoin;
        h2_gap_client = H2Gap.resync;
        h2_gap_server = H2Gap.resync;
      }) in
      let (gap, p') = take_h2_gap H f.direction joined in
      feed_http2-ReturnsSound f.direction (p.write_buf ++ f.bytes) gap call p' node
        (take_h2_gap-IsSound f.direction joined (record {
          held = (
            omega arith,
            ok.held.1,
            next_lt f (is_complete f),
            ok.held.3,
            subst (λ (o : Option (ℕ × ℕ)). StartsWithin o [])
                (sym (joined_Held p.state p e ok.state_ok)) tt,
          );
          state_ok = new_midjoin-ConnOk;
        }))
        b
