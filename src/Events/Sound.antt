-- ===== src/Events/Sound.antt =====
-- llm/mod.rs: an event routed to its stream is handled, and every connection stays sound.
use mathlib.Core.Path.{subst}
use honeybeepf_llm.Prelude.{
  ℕ, zero, suc, ◌≡◌, refl, sym, Bool-cases, inl, inr, Option, none, some, Bytes, length, ◌==◌,
}
use honeybeepf_llm.Prelude.Maps
use honeybeepf_llm.Prelude.Maps.{
  Map, Distinct, Every, OfSome, Every-lookup, Every-insert, Every-remove, insert-Distinct,
  remove-Distinct,
}
use honeybeepf_llm.Background.Bounds.{IsBounded}
use honeybeepf_llm.H2.Types.{UnparsedReason}
use honeybeepf_llm.Processor.Types.{
  Http, Node, Call, ProcessorState, detecting, processing_request, processing_response, http2,
  finished, StreamProcessor, is_llm,
}
use honeybeepf_llm.Processor.Settle.{Result, count_unparsed, drop_by, drop_response}
use honeybeepf_llm.Processor.Event.{is_empty}
use honeybeepf_llm.Processor.Fragment.{count_closed, close_by, close}
use honeybeepf_llm.Processor.Sound.Invariant.{IsSound, new-IsSound}
use honeybeepf_llm.Processor.Sound.Http2.{ReturnsSound}
use honeybeepf_llm.Processor.Sound.Fragment.{handle_fragment-ReturnsSound}
use honeybeepf_llm.Events.Loop.{
  EventHeader, key_of, of_process, fragment_of, Streams, Routed, close_removed, or_default,
  put_back, route_event,
}

module _ (H : Http) where
  abbrev pub EachSound : Streams H → Type 0
  EachSound streams = Every (IsSound H) streams × Distinct streams

  abbrev pub RoutedOk : Routed H → Type 0
  RoutedOk (streams, node, outcome) = EachSound streams × IsBounded node.calls

  abbrev pub ReturnsRouted : Option (Routed H) → Type 0
  ReturnsRouted none = ⊥
  ReturnsRouted (some r) = RoutedOk r

  closed-calls :
      (k : ℕ) (call : Call H.Pod) (node : Node H.Pod)
      → Node.calls (count_closed H k call node) ≡ node.calls
  unfolding count_closed count_unparsed
  closed-calls zero call node = refl
  closed-calls (suc k) call node = closed-calls k call _

  dropped-calls :
      (polled : Option Bytes) (reason : UnparsedReason) (call : Call H.Pod) (p : StreamProcessor H)
      (node : Node H.Pod)
      → Node.calls (drop_by H polled reason call p node).1 ≡ node.calls
  unfolding count_unparsed
  dropped-calls (some id) reason call p node = refl
  dropped-calls none reason call p node = refl

  drop_response-calls :
      (reason : UnparsedReason) (call : Call H.Pod) (p : StreamProcessor H) (node : Node H.Pod)
      → Node.calls (drop_response H reason call p node).1 ≡ node.calls
  unfolding drop_response
  drop_response-calls reason call p node = elim (Bool-cases (is_llm H p)) [
    | inl llm ↦ rw llm (dropped-calls p.continuation reason call _ node)
    | inr other ↦ rw other refl
  ]

  close_by-calls :
      (s : ProcessorState H) (call : Call H.Pod) (p : StreamProcessor H) (node : Node H.Pod)
      → Node.calls (close_by H s call p node).1 ≡ node.calls
  close_by-calls (http2 conn) call p node = closed-calls (length conn.streams) call _
  close_by-calls detecting call p node = drop_response-calls _ call p node
  close_by-calls finished call p node = drop_response-calls _ call p node
  close_by-calls (processing_request start parser) call p node = drop_response-calls _ call p node
  close_by-calls (processing_response start parser) call p node = drop_response-calls _ call p node

  close_removed-RoutedOk :
      (o : Option (StreamProcessor H)) (call : Call H.Pod) (streams : Streams H) (node : Node H.Pod)
      → EachSound streams
      → IsBounded node.calls
      → RoutedOk (close_removed H o call streams node)
  unfolding close
  close_removed-RoutedOk none call streams node each b = (each, b)
  close_removed-RoutedOk (some p) call streams node each b = elim (Bool-cases (is_llm H p)) [
    | inl llm ↦ rw llm (each, subst IsBounded (sym (close_by-calls p.state call p node)) b)
    | inr other ↦ rw other (each, b)
  ]

  or_default-IsSound :
      (now : ℕ) (o : Option (StreamProcessor H))
      → OfSome (IsSound H) o
      → IsSound H (or_default H now o)
  or_default-IsSound now none h = new-IsSound H now
  or_default-IsSound now (some p) h = h

  put_back-ReturnsRouted :
      (key : Bytes) (streams : Streams H) (o : Option (Result H))
      → EachSound streams
      → ReturnsSound H o
      → ReturnsRouted (put_back H key streams o)
  put_back-ReturnsRouted key streams none each h = h
  put_back-ReturnsRouted key streams (some (p, node, outcome)) each h = (
    (Every-insert (IsSound H) key p streams h.0 each.0, insert-Distinct key p streams each.1),
    h.1,
  )

  pub route_event-ReturnsRouted :
      (header : EventHeader) (bytes : Bytes) (call : Call H.Pod) (streams : Streams H)
      (node : Node H.Pod)
      → EachSound streams
      → IsBounded node.calls
      → ReturnsRouted (route_event H header bytes call streams node)
  unfolding route_event
  route_event-ReturnsRouted header bytes call streams node each b =
      let key = key_of header in
      elim (Bool-cases (header.closed == 0)) [
        | inl live ↦ elim (Bool-cases (is_empty bytes)) [
          | inl empty ↦ rw (live, empty) (each, b)
          | inr full ↦
              rw (live, full)
                (put_back-ReturnsRouted key streams _ each (
                  handle_fragment-ReturnsSound H (fragment_of header bytes)
                    (of_process H header call) (or_default H call.now (Maps.lookup key streams))
                    node
                    (or_default-IsSound call.now (Maps.lookup key streams)
                      (Every-lookup (IsSound H) key streams each.0))
                    b))
        ]
        | inr closed ↦ rw closed (
            close_removed-RoutedOk (Maps.lookup key streams) (of_process H header call)
              (Maps.remove key streams) node
              (Every-remove (IsSound H) key streams each.0, remove-Distinct key streams each.1) b)
      ]
