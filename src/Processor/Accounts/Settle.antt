-- ===== src/Processor/Accounts/Settle.antt =====
-- processor.rs: settling a call counts it once, and a background call once.
use mathlib.Core.Path.{subst, ap₂}
use honeybeepf_llm.Prelude.{
  ℕ, ◌+◌, ◌≤◌, ◌≡◌, refl, sym, ap, ◌∙◌, Bool, true, false, Bool-cases, inl, inr, Option, none, some,
  Bytes, length, leb, not, ◌&&◌, arith,
}
use honeybeepf_llm.Prelude.Maps
use honeybeepf_llm.Prelude.Maps.{
  Map, length-insert_le, length-insert_known, length-remove, length-remove_le,
}
use honeybeepf_llm.Pricing.Types.{UsageInfo}
use honeybeepf_llm.Background.Calls.{
  PendingCall, max_calls, oldest, evict_at, make_room, insert, touch, take_call, new_call,
}
use honeybeepf_llm.H2.Types.{UnparsedReason}
use honeybeepf_llm.Processor.Types.{
  BackgroundState, running, ended, cancelled, ProtocolParser, Http, Outcome, Note, Node, Call,
  PastLimit, finished, StreamProcessor,
}
use honeybeepf_llm.Processor.Settle.{
  count_unparsed, record_usage, give_up, give_up_evicted, defer, settle_create, poll_state, Settled,
  settle_taken, settle_ended, settle_polled, settle_poll, settle_by, settle,
}
use honeybeepf_llm.Processor.Event.{parse_by, noted_state, awaiting, parse_and_settle, respond}
use honeybeepf_llm.Processor.Ahead.{is_http2}
use honeybeepf_llm.Processor.Closed.{unpolled, open_of}
use honeybeepf_llm.Processor.Accounts.{settled, settled-append, known, ahead, AtMost}

-- A call that is still awaited.
abbrev awaits : Option Outcome → ℕ
awaits none = 1
awaits (some outcome) = 0

module _ {P : Type 0} where
  abbrev given : Option (PendingCall P) → ℕ
  given none = 0
  given (some call) = 1

  removed_length :
      (id : Bytes) (o : Option (PendingCall P)) (calls : Map (PendingCall P))
      → Maps.lookup id calls ≡ o
      → length (Maps.remove id calls) + given o ≤ length calls
  removed_length id none calls e = omega (arith, length-remove_le id calls)
  removed_length id (some c) calls e = omega (arith, length-remove id c calls e)

  evicted_length :
      (o : Option (Bytes × PendingCall P)) (calls : Map (PendingCall P))
      → length (evict_at o calls).1 + given (evict_at o calls).0 ≤ length calls
  evicted_length none calls = omega arith
  evicted_length (some (k, c)) calls = removed_length k (Maps.lookup k calls) calls refl

  length-make_room :
      (id : Bytes) (calls : Map (PendingCall P))
      → length (make_room id calls).1 + given (make_room id calls).0 ≤ length calls
  unfolding make_room
  length-make_room id calls =
      elim (Bool-cases (leb max_calls (length calls) && not (Maps.contains_key id calls))) [
        | inl full ↦ rw full (evicted_length (oldest calls) calls)
        | inr room ↦ rw room (omega arith)
      ]

  length-insert :
      (id : Bytes) (call : PendingCall P) (calls : Map (PendingCall P))
      → length (insert id call calls).1 + given (insert id call calls).0 ≤ length calls + 1
  unfolding insert
  length-insert id call calls =
      omega (arith, length-make_room id calls, length-insert_le id call (make_room id calls).1)

  touched_length :
      (id : Bytes) (now : ℕ) (calls : Map (PendingCall P)) (o : Option (PendingCall P))
      → Maps.lookup id calls ≡ o
      → length {A = Bytes × PendingCall P}
          (elim o [ none ↦ calls | some c ↦ Maps.insert id (record c { last_seen = now }) calls ])
        ≡ length calls
  touched_length id now calls none e = refl
  touched_length id now calls (some c) e =
      length-insert_known id (record c { last_seen = now }) calls (rw e refl)

  length-touch :
      (id : Bytes) (now : ℕ) (calls : Map (PendingCall P))
      → length (touch id now calls) ≡ length calls
  unfolding touch
  length-touch id now calls = touched_length id now calls (Maps.lookup id calls) refl

  pub unparsed_known :
      (pid : ℕ) (reason : UnparsedReason) (pod : Option P) (node : Node P)
      → known (count_unparsed pid reason pod node) ≡ known node + 1
  unfolding count_unparsed
  unparsed_known pid reason pod node =
      omega (arith, settled-append node.notes (Note.unparsed_call reason pid pod))

  recorded_known :
      (usage : UsageInfo) (start pid : ℕ) (pod : Option P) (node : Node P)
      → known (record_usage usage start pid pod node) ≡ known node + 1
  unfolding record_usage
  recorded_known usage start pid pod node =
      omega (arith, settled-append node.notes (Note.request usage start pid pod))

  known-give_up :
      (call : PendingCall P) (node : Node P) → known (give_up call node) ≡ known node + 1
  unfolding give_up
  known-give_up call node =
      unparsed_known call.pid UnparsedReason.background_unfinished call.pod_info node

  evicted_known :
      (r : Option (PendingCall P) × Map (PendingCall P)) (node : Node P)
      → known (give_up_evicted r node) ≡ settled node.notes + (length (r.1) + given (r.0))
  evicted_known (none, calls) node = omega arith
  evicted_known (some call, calls) node =
      omega (arith, known-give_up call (record node { calls = calls }))

  known-defer :
      (id : Bytes) (call : PendingCall P) (node : Node P)
      → known (defer id call node) ≤ known node + 1
  unfolding defer
  known-defer id call node =
      omega
        (arith, evicted_known (insert id call node.calls) node, length-insert id call node.calls)

  create_known :
      (usage : Option UsageInfo) (state : Option BackgroundState) (start : ℕ) (call : Call P)
      (node : Node P)
      → known (settle_create usage state start call node).1
          + awaits (settle_create usage state start call node).0
        ≤ known node + 1
  unfolding settle_create
  create_known (some usage) state start call node =
      omega (arith, recorded_known usage start call.pid call.pod_info node)
  create_known none (some (running id)) start call node =
      omega (arith, known-defer id (new_call start call.pid call.pod_info call.now) node)
  create_known none (some ended) start call node = omega arith
  create_known none (some cancelled) start call node = omega arith
  create_known none none start call node = omega arith

module _ (H : Http) where
  -- Open again if it is awaited and no poll.
  abbrev reopens : Option Outcome → Option Bytes → ℕ
  reopens none polled = unpolled H polled
  reopens (some outcome) polled = 0

  abbrev SettledAtMost : ℕ → Settled H → Type 0
  SettledAtMost n (outcome, p, node) =
      (p.state ≡ finished)
      × (known node + reopens outcome p.continuation + ahead p.next_request ≤ n)

  taken_AtMost :
      (call : PendingCall H.Pod) (usage : Option UsageInfo) (was_cancelled : Bool)
      (p : StreamProcessor H) (node : Node H.Pod)
      → p.state ≡ finished
      → SettledAtMost
          (known node + 1 + ahead p.next_request)
          (settle_taken H call usage was_cancelled p node)
  taken_AtMost call (some u) was_cancelled p node e =
      (e, omega (arith, recorded_known u call.start_time call.pid call.pod_info node))
  taken_AtMost call none true p node e =
      (e, omega (arith, recorded_known _ call.start_time call.pid call.pod_info node))
  taken_AtMost call none false p node e = (e, omega (arith, known-give_up call node))

  ended_AtMost :
      (taken : Option (PendingCall H.Pod) × Map (PendingCall H.Pod)) (usage : Option UsageInfo)
      (was_cancelled : Bool) (p : StreamProcessor H) (node : Node H.Pod)
      → p.state ≡ finished
      → length (taken.1) + given (taken.0) ≤ length node.calls
      → SettledAtMost
          (known node + ahead p.next_request)
          (settle_ended H taken usage was_cancelled p node)
  ended_AtMost (none, calls) usage was_cancelled p node e le = (e, omega arith)
  ended_AtMost (some call, calls) usage was_cancelled p node e le =
      let taken = taken_AtMost call usage was_cancelled p (record node { calls = calls }) e in
      let left = settle_taken H call usage was_cancelled p (record node { calls = calls }) in
      (taken.0, omega (arith, taken.1))

  take_length :
      (id : Bytes) (node : Node H.Pod)
      → length (take_call id node.calls).1 + given (take_call id node.calls).0 ≤ length node.calls
  unfolding take_call
  take_length id node = removed_length id (Maps.lookup id node.calls) node.calls refl

  polled_AtMost :
      (id : Bytes) (usage : Option UsageInfo) (state : Option BackgroundState) (now : ℕ)
      (p : StreamProcessor H) (node : Node H.Pod)
      → p.state ≡ finished
      → SettledAtMost
          (known node + ahead p.next_request)
          (settle_polled H id usage state now p node)
  polled_AtMost id usage (some (running i)) now p node e =
      (e, omega (arith, length-touch id now node.calls))
  polled_AtMost id usage (some ended) now p node e =
      ended_AtMost (take_call id node.calls) usage false p node e (take_length id node)
  polled_AtMost id usage (some cancelled) now p node e =
      ended_AtMost (take_call id node.calls) usage true p node e (take_length id node)
  polled_AtMost id (some u) none now p node e = (e, omega arith)
  polled_AtMost id none none now p node e = (e, omega (arith, length-touch id now node.calls))

  created_AtMost :
      (r : Option Outcome × Node H.Pod) (n : ℕ) (p : StreamProcessor H)
      → p.state ≡ finished
      → p.continuation ≡ none
      → known (r.1) + awaits (r.0) ≤ n + 1
      → SettledAtMost (n + 1 + ahead p.next_request) (r.0, p, r.1)
  created_AtMost (none, node) n p e c le = (e, rw c (omega (arith, le)))
  created_AtMost (some outcome, node) n p e c le = (e, omega (arith, le))

  by_AtMost :
      (polled : Option Bytes) (usage : Option UsageInfo) (state : Option BackgroundState)
      (start : ℕ) (call : Call H.Pod) (p : StreamProcessor H) (node : Node H.Pod)
      → p.state ≡ finished
      → p.continuation ≡ none
      → SettledAtMost
          (known node + unpolled H polled + ahead p.next_request)
          (settle_by H polled usage state start call p node)
  unfolding settle_poll
  by_AtMost (some id) usage state start call p node e c =
      let polled = polled_AtMost id usage (poll_state usage state) call.now p node e in
      (polled.0, omega (arith, polled.1))
  by_AtMost none usage state start call p node e c =
      created_AtMost (settle_create usage state start call node) (known node) p e c
        (create_known usage state start call node)

  awaiting-AtMost :
      (n start : ℕ) (parser : ProtocolParser H.Progress) (s : Settled H)
      → SettledAtMost n s
      → AtMost H n (awaiting H start parser s)
  awaiting-AtMost n start parser (none, p, node) h = (h.1, refl)
  awaiting-AtMost n start parser (some outcome, p, node) h = (
    subst (λ s. known node + open_of H s p.continuation + ahead p.next_request ≤ n) (sym h.0) h.1,
    ap (is_http2 H) h.0,
  )

  -- Parsing leaves the rest alone.
  abbrev SameCall : StreamProcessor H → StreamProcessor H → Type 0
  SameCall p q =
      (q.state ≡ p.state) × (q.continuation ≡ p.continuation) × (q.next_request ≡ p.next_request)

  parse_by_same :
      (o : Option (PastLimit H)) (parser : ProtocolParser H.Progress) (p : StreamProcessor H)
      → SameCall p (parse_by H o parser p).1
  parse_by_same none parser p = (refl, refl, refl)
  parse_by_same (some limit) parser p = (refl, refl, refl)

  parse_AtMost :
      (start : ℕ) (parser : ProtocolParser H.Progress) (call : Call H.Pod) (p : StreamProcessor H)
      (node : Node H.Pod)
      → p.state ≡ finished
      → AtMost H
          (known node + unpolled H p.continuation + ahead p.next_request)
          (parse_and_settle H start parser call p node)
  unfolding settle
  parse_AtMost start parser call p node e =
      let (usage, p1) = parse_by H p.past_limit parser p in
      let same = parse_by_same p.past_limit parser p in
      let (state, p2) = noted_state H p1 in
      let settled_now =
        by_AtMost p2.continuation usage state start call (record p2 { continuation = none }) node
          (same.0 ∙ e) refl in
      awaiting-AtMost (known node + unpolled H p.continuation + ahead p.next_request) start parser
        (settle H usage state start call p2 node)
        (subst
          (λ (c : Option Bytes × Option (ℕ × ℕ)).
            SettledAtMost (known node + unpolled H (c.0) + ahead (c.1))
              (settle H usage state start call p2 node))
          (ap₂ (λ c n. (c, n)) same.1 same.2) settled_now)

  pub respond-AtMost :
      (start : ℕ) (parser : ProtocolParser H.Progress) (complete : Bool) (call : Call H.Pod)
      (p : StreamProcessor H) (node : Node H.Pod)
      → AtMost H
          (known node + unpolled H p.continuation + ahead p.next_request)
          (respond H start parser complete call p node)
  respond-AtMost start parser true call p node =
      parse_AtMost start parser call (record p { state = finished }) node refl
  respond-AtMost start parser false call p node = (omega arith, refl)
