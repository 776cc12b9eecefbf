-- ===== src/Events/Runs.antt =====
-- llm/mod.rs and conn_filter.rs: over any run, every event is handled and every connection stays sound.
use mathlib.Core.Path.{subst}
use honeybeepf_llm.Prelude.{
  ℕ, ◌≤◌, ◌≡◌, refl, sym, Bool, true, false, Bool-cases, inl, inr, not, ◌||◌, Option, none, some,
  List, [], ◌∷◌, Bytes, length, ◌==◌, arith,
}
use honeybeepf_llm.Prelude.Maps
use honeybeepf_llm.Prelude.Maps.{
  Map, Distinct, Every, OfSome, Every-lookup, Every-insert, Every-remove, insert-Distinct,
  remove-Distinct,
}
use honeybeepf_llm.SslClass.Entry.{ClassEntry}
use honeybeepf_llm.Background.Calls.{PendingCall, is_idle, expire}
use honeybeepf_llm.Background.Bounds.{IsBounded}
use honeybeepf_llm.Processor.Types.{Http, Node, Call}
use honeybeepf_llm.Processor.Settle.{count_unparsed, give_up}
use honeybeepf_llm.Processor.Sound.Invariant.{IsSound}
use honeybeepf_llm.Events.Loop.{
  EventHeader, key_of, Streams, Routed, route_event, System, in_progress, opens_foreign_request,
  skip_if_foreign, routed, route_unless, on_event, is_retained, drop_state, retain, give_up_all,
  clean_up, Input, arrives, cleans, step, run,
}
use honeybeepf_llm.Events.Sound.{EachSound, ReturnsRouted, route_event-ReturnsRouted}

module _ {P : Type 0} where
  expired_missing :
      (k : Bytes) (now : ℕ) (calls : Map (PendingCall P))
      → Maps.contains_key k calls ≡ false
      → Maps.contains_key k (expire now calls).1 ≡ false
  unfolding expire
  expired_missing k now [] h = refl
  expired_missing k now ((j, c) ∷ calls) h = ground (arith, expired_missing k now calls)

  expired_length :
      (now : ℕ) (calls : Map (PendingCall P)) → length (expire now calls).1 ≤ length calls
  unfolding expire
  expired_length now [] = omega arith
  expired_length now ((k, c) ∷ calls) = ground (arith, expired_length now calls)

  expire-IsBounded :
      (now : ℕ) (calls : Map (PendingCall P)) → IsBounded calls → IsBounded (expire now calls).1
  unfolding expire
  expire-IsBounded now [] b = b
  expire-IsBounded now ((k, c) ∷ calls) b =
      let kept = expire-IsBounded now calls (omega (arith, b.0), b.1.1) in
      elim (Bool-cases (is_idle now c)) [
        | inl idle ↦ rw idle kept
        | inr busy ↦ rw busy (
          omega (arith, b.0, expired_length now calls),
          (expired_missing k now calls b.1.0, kept.1),
        )
      ]

module _ (H : Http) where
  -- Each connection is sound and stands under one key, and so do the background calls.
  abbrev pub SystemOk : System H → Type 0
  SystemOk s = EachSound H s.streams × IsBounded s.node.calls

  abbrev pub RunsOk : Option (System H) → Type 0
  RunsOk none = ⊥
  RunsOk (some s) = SystemOk s

  routed-RunsOk :
      (classes : Map ClassEntry) (o : Option (Routed H))
      → ReturnsRouted H o
      → RunsOk (routed H classes o)
  routed-RunsOk classes none h = h
  routed-RunsOk classes (some (streams, node, outcome)) h = h

  retain_missing :
      (k : Bytes) (now : ℕ) (streams : Streams H) (node : ℕ)
      → Maps.contains_key k streams ≡ false
      → Maps.contains_key k (retain H now streams node).0 ≡ false
  unfolding retain
  retain_missing k now [] node h = refl
  retain_missing k now ((j, p) ∷ streams) node h = elim (Bool-cases (is_retained H now p)) [
    | inl keeps ↦ rw keeps (ground (arith, retain_missing k now streams node))
    | inr drops ↦ rw drops (retain_missing k now streams (drop_state H p.state node) (ground arith))
  ]

  retain-EachSound :
      (now : ℕ) (streams : Streams H) (node : ℕ)
      → EachSound H streams
      → EachSound H (retain H now streams node).0
  unfolding retain
  retain-EachSound now [] node each = each
  retain-EachSound now ((k, p) ∷ streams) node each = elim (Bool-cases (is_retained H now p)) [
    | inl keeps ↦
        let rest = retain-EachSound now streams node (each.0.1, each.1.1) in
        rw keeps ((each.0.0, rest.0), (retain_missing k now streams node each.1.0, rest.1))
    | inr drops ↦
        rw drops (retain-EachSound now streams (drop_state H p.state node) (each.0.1, each.1.1))
  ]

  given_up-calls :
      (gone : List (PendingCall H.Pod)) (node : Node H.Pod)
      → Node.calls (give_up_all H gone node) ≡ node.calls
  unfolding give_up_all give_up count_unparsed
  given_up-calls [] node = refl
  given_up-calls (call ∷ calls) node = given_up-calls calls (give_up call node)

  clean_up-SystemOk : (now : ℕ) (s : System H) → SystemOk s → SystemOk (clean_up H now s)
  unfolding clean_up
  clean_up-SystemOk now s ok = (
    retain-EachSound now s.streams s.node.midjoin_bytes ok.0,
    subst IsBounded (sym (given_up-calls (expire now s.node.calls).0 _))
        (expire-IsBounded now s.node.calls ok.1),
  )

  module _ (has_foreign_host : Bytes → Bool) where
    skip_if_foreign-SystemOk :
        (header : EventHeader) (bytes : Bytes) (s : System H)
        → SystemOk s
        → SystemOk (skip_if_foreign H has_foreign_host header bytes s).1
    unfolding skip_if_foreign
    skip_if_foreign-SystemOk header bytes s ok =
        elim (Bool-cases (
          not (opens_foreign_request H has_foreign_host header bytes)
          || in_progress H (Maps.lookup (key_of header) s.streams))) [
            | inl stays ↦ rw stays ok
            | inr skips ↦ rw skips (
              (
                Every-remove (IsSound H) (key_of header) s.streams ok.0.0,
                remove-Distinct (key_of header) s.streams ok.0.1,
              ),
              ok.1,
            )
          ]

    route_unless-RunsOk :
        (r : Bool × System H) (header : EventHeader) (bytes : Bytes) (call : Call H.Pod)
        → SystemOk (r.1)
        → RunsOk (route_unless H has_foreign_host r header bytes call)
    route_unless-RunsOk (true, s) header bytes call ok = ok
    route_unless-RunsOk (false, s) header bytes call ok =
        routed-RunsOk s.classes (route_event H header bytes call s.streams s.node)
          (route_event-ReturnsRouted H header bytes call s.streams s.node ok.0 ok.1)

    step-RunsOk :
        (input : Input H) (s : System H) → SystemOk s → RunsOk (step H has_foreign_host input s)
    unfolding on_event
    step-RunsOk (arrives header bytes call) s ok = elim (Bool-cases (header.is_handshake == 1)) [
      | inl handshakes ↦ rw handshakes ok
      | inr other ↦ rw other (
          route_unless-RunsOk (skip_if_foreign H has_foreign_host header bytes s) header bytes call
            (skip_if_foreign-SystemOk header bytes s ok))
    ]
    step-RunsOk (cleans now) s ok = clean_up-SystemOk now s ok

    after_step :
        (o : Option (System H)) (inputs : List (Input H))
        → RunsOk o
        → ((s : System H) → SystemOk s → RunsOk (run H has_foreign_host inputs s))
        → RunsOk (elim o [ none ↦ none | some s ↦ run H has_foreign_host inputs s ])
    after_step none inputs h later = h
    after_step (some s) inputs h later = later s h

    -- From streams that are sound connections and background calls that are at most 4096, each
    -- under one key, any sequence of captured events and clean-up rounds is handled to its end,
    -- and leaves the streams and the calls so, whatever the events hold and whichever hosts are
    -- foreign.
    pub run-RunsOk :
        (inputs : List (Input H)) (s : System H)
        → SystemOk s
        → RunsOk (run H has_foreign_host inputs s)
    unfolding run
    run-RunsOk [] s ok = ok
    run-RunsOk (input ∷ inputs) s ok =
        after_step (step H has_foreign_host input s) inputs (step-RunsOk input s ok)
          (run-RunsOk inputs)
