-- ===== src/Processor/Sound/Settle.antt =====
-- processor.rs: settling a call keeps the connection sound and the background calls within their bound.
use mathlib.Core.Path.{subst}
use honeybeepf_llm.Prelude.{
  ℕ, ◌≡◌, refl, sym, ◌∙◌, Bool, true, false, Bool-cases, inl, inr, Option, none, some, Bytes, arith,
}
use honeybeepf_llm.Prelude.Maps
use honeybeepf_llm.Prelude.Maps.{Map, insert-Distinct, length-insert_known}
use honeybeepf_llm.Pricing.Types.{UsageInfo}
use honeybeepf_llm.Background.Calls.{PendingCall, insert, touch, take_call}
use honeybeepf_llm.Background.Bounds.{IsBounded, insert-IsBounded, take_call_lem}
use honeybeepf_llm.H2.Types.{UnparsedReason}
use honeybeepf_llm.Processor.Types.{
  BackgroundState, running, ended, cancelled, ProtocolParser, Http, Outcome, Node, Call, PastLimit,
  ProcessorState, finished, StreamProcessor, is_llm,
}
use honeybeepf_llm.Processor.Settle.{
  count_unparsed, record_usage, give_up, give_up_evicted, defer, settle_create, poll_state, Settled,
  settle_taken, settle_ended, settle_polled, settle_poll, settle_by, settle, drop_by, drop_response,
}
use honeybeepf_llm.Processor.Event.{parse_by, noted_state, awaiting, parse_and_settle, respond}
use honeybeepf_llm.Processor.Sound.Invariant.{KeepsNone, Held, StateOk, IsSound, KeepsSound}

touched_IsBounded :
    {P : Type 0} (id : Bytes) (now : ℕ) (calls : Map (PendingCall P)) (o : Option (PendingCall P))
    → Maps.lookup id calls ≡ o
    → IsBounded calls
    → IsBounded
        (elim o [ none ↦ calls | some c ↦ Maps.insert id (record c { last_seen = now }) calls ])
touched_IsBounded id now calls none e b = b
touched_IsBounded id now calls (some c) e b = (
  omega (arith, b.0, length-insert_known id (record c { last_seen = now }) calls (rw e refl)),
  insert-Distinct id _ calls b.1,
)

pub touch-IsBounded :
    {P : Type 0} (id : Bytes) (now : ℕ) (calls : Map (PendingCall P))
    → IsBounded calls
    → IsBounded (touch id now calls)
unfolding touch
touch-IsBounded id now calls b = touched_IsBounded id now calls (Maps.lookup id calls) refl b

give_up_evicted-IsBounded :
    {Pod : Type 0} (r : Option (PendingCall Pod) × Map (PendingCall Pod)) (node : Node Pod)
    → IsBounded r.1
    → IsBounded (Node.calls (give_up_evicted r node))
unfolding give_up count_unparsed
give_up_evicted-IsBounded (none, calls) node b = b
give_up_evicted-IsBounded (some call, calls) node b = b

settle_create-IsBounded :
    {Pod : Type 0} (usage : Option UsageInfo) (state : Option BackgroundState) (start : ℕ)
    (call : Call Pod) (node : Node Pod)
    → IsBounded node.calls
    → IsBounded (Node.calls (settle_create usage state start call node).1)
unfolding settle_create defer record_usage
settle_create-IsBounded (some usage) state start call node b = b
settle_create-IsBounded none (some (running id)) start call node b =
    give_up_evicted-IsBounded (insert id _ node.calls) node (insert-IsBounded id _ node.calls b).0
settle_create-IsBounded none (some ended) start call node b = b
settle_create-IsBounded none (some cancelled) start call node b = b
settle_create-IsBounded none none start call node b = b

module _ (H : Http) where
  -- Settled with nothing polled any more, unless it still waits.
  abbrev LeftFinished : Option Outcome → StreamProcessor H → Type 0
  LeftFinished none p = Unit
  LeftFinished (some outcome) p = p.continuation ≡ none

  abbrev SettledOk : Settled H → Type 0
  SettledOk (outcome, p, node) =
      Held H p × (p.state ≡ finished) × IsBounded node.calls × LeftFinished outcome p

  abbrev Unsettled : StreamProcessor H → Type 0
  Unsettled p = Held H p × (p.state ≡ finished) × (p.continuation ≡ none)

  settle_taken-SettledOk :
      (call : PendingCall H.Pod) (usage : Option UsageInfo) (was_cancelled : Bool)
      (p : StreamProcessor H) (node : Node H.Pod)
      → Unsettled p
      → IsBounded node.calls
      → SettledOk (settle_taken H call usage was_cancelled p node)
  unfolding record_usage give_up count_unparsed
  settle_taken-SettledOk call (some u) was_cancelled p node h b = (h.0, h.1, b, h.2)
  settle_taken-SettledOk call none true p node h b = (h.0, h.1, b, h.2)
  settle_taken-SettledOk call none false p node h b = (h.0, h.1, b, h.2)

  settle_ended-SettledOk :
      (taken : Option (PendingCall H.Pod) × Map (PendingCall H.Pod)) (usage : Option UsageInfo)
      (was_cancelled : Bool) (p : StreamProcessor H) (node : Node H.Pod)
      → Unsettled p
      → IsBounded taken.1
      → SettledOk (settle_ended H taken usage was_cancelled p node)
  settle_ended-SettledOk (none, calls) usage was_cancelled p node h b = (h.0, h.1, b, h.2)
  settle_ended-SettledOk (some call, calls) usage was_cancelled p node h b =
      settle_taken-SettledOk call usage was_cancelled p (record node { calls = calls }) h b

  settle_polled-SettledOk :
      (id : Bytes) (usage : Option UsageInfo) (state : Option BackgroundState) (now : ℕ)
      (p : StreamProcessor H) (node : Node H.Pod)
      → Unsettled p
      → IsBounded node.calls
      → SettledOk (settle_polled H id usage state now p node)
  settle_polled-SettledOk id usage (some (running i)) now p node h b =
      (h.0, h.1, touch-IsBounded id now node.calls b, h.2)
  settle_polled-SettledOk id usage (some ended) now p node h b =
      settle_ended-SettledOk (take_call id node.calls) usage false p node h
        (take_call_lem id node.calls b).0
  settle_polled-SettledOk id usage (some cancelled) now p node h b =
      settle_ended-SettledOk (take_call id node.calls) usage true p node h
        (take_call_lem id node.calls b).0
  settle_polled-SettledOk id (some u) none now p node h b = (h.0, h.1, b, h.2)
  settle_polled-SettledOk id none none now p node h b =
      (h.0, h.1, touch-IsBounded id now node.calls b, tt)

  left_finished :
      (o : Option Outcome) (p : StreamProcessor H) → p.continuation ≡ none → LeftFinished o p
  left_finished none p e = tt
  left_finished (some outcome) p e = e

  settle_by-SettledOk :
      (polled : Option Bytes) (usage : Option UsageInfo) (state : Option BackgroundState)
      (start : ℕ) (call : Call H.Pod) (p : StreamProcessor H) (node : Node H.Pod)
      → Unsettled p
      → IsBounded node.calls
      → SettledOk (settle_by H polled usage state start call p node)
  unfolding settle_poll
  settle_by-SettledOk (some id) usage state start call p node h b =
      settle_polled-SettledOk id usage (poll_state usage state) call.now p node h b
  settle_by-SettledOk none usage state start call p node h b = (
    h.0,
    h.1,
    settle_create-IsBounded usage state start call node b,
    left_finished (settle_create usage state start call node).0 p h.2,
  )

  awaiting-KeepsSound :
      (start : ℕ) (parser : ProtocolParser H.Progress) (s : Settled H)
      → SettledOk s
      → KeepsSound H (awaiting H start parser s)
  awaiting-KeepsSound start parser (none, p, node) h = (record { held = h.0; state_ok = tt }, h.2)
  awaiting-KeepsSound start parser (some outcome, p, node) h = (
    record { held = h.0; state_ok = subst (λ (s : ProcessorState H). StateOk H s p) (sym h.1) h.3 },
    h.2,
  )

  parse_by-Held :
      (o : Option (PastLimit H)) (parser : ProtocolParser H.Progress) (p : StreamProcessor H)
      → p.past_limit ≡ o
      → Held H p
      → Held H (parse_by H o parser p).1
        × (StreamProcessor.state (parse_by H o parser p).1 ≡ p.state)
  parse_by-Held none parser p e h = (h, refl)
  parse_by-Held (some limit) parser p e h = (
    (h.0, h.1, h.2, subst (λ (o : Option (PastLimit H)). KeepsNone H o p.read_buf) e h.3, h.4),
    refl,
  )

  parse_and_settle-KeepsSound :
      (start : ℕ) (parser : ProtocolParser H.Progress) (call : Call H.Pod) (p : StreamProcessor H)
      (node : Node H.Pod)
      → Held H p
      → p.state ≡ finished
      → IsBounded node.calls
      → KeepsSound H (parse_and_settle H start parser call p node)
  unfolding settle
  parse_and_settle-KeepsSound start parser call p node h e b =
      let (usage, p1) = parse_by H p.past_limit parser p in
      let parsed = parse_by-Held p.past_limit parser p refl h in
      let (state, p2) = noted_state H p1 in
      awaiting-KeepsSound start parser (settle H usage state start call p2 node) (
        settle_by-SettledOk p2.continuation usage state start call
          (record p2 { continuation = none }) node (parsed.0, parsed.1 ∙ e, refl) b)

  pub respond-KeepsSound :
      (start : ℕ) (parser : ProtocolParser H.Progress) (complete : Bool) (call : Call H.Pod)
      (p : StreamProcessor H) (node : Node H.Pod)
      → Held H p
      → IsBounded node.calls
      → KeepsSound H (respond H start parser complete call p node)
  respond-KeepsSound start parser true call p node h b =
      parse_and_settle-KeepsSound start parser call (record p { state = finished }) node h refl b
  respond-KeepsSound start parser false call p node h b = (record { held = h; state_ok = tt }, b)

  drop_by-KeepsSound :
      (polled : Option Bytes) (reason : UnparsedReason) (call : Call H.Pod) (p : StreamProcessor H)
      (node : Node H.Pod)
      → IsSound H p
      → IsBounded node.calls
      → KeepsSound H (drop_by H polled reason call p node)
  unfolding count_unparsed
  drop_by-KeepsSound (some id) reason call p node ok b = (ok, b)
  drop_by-KeepsSound none reason call p node ok b = (ok, b)

  pub drop_response-KeepsSound :
      (reason : UnparsedReason) (call : Call H.Pod) (p : StreamProcessor H) (node : Node H.Pod)
      → IsSound H p
      → IsBounded node.calls
      → KeepsSound H (drop_response H reason call p node)
  unfolding drop_response
  drop_response-KeepsSound reason call p node ok b = elim (Bool-cases (is_llm H p)) [
    | inl llm ↦ rw llm (
        drop_by-KeepsSound p.continuation reason call
          (record p { state = finished; continuation = none }) node
          (record { held = ok.held; state_ok = refl }) b)
    | inr other ↦ rw other (ok, b)
  ]
