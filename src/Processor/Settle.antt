-- ===== src/Processor/Settle.antt =====
-- processor.rs: how a call is counted, recorded, deferred or given up.
use honeybeepf_llm.Prelude.{
  ℕ, Bool, true, false, ◌||◌, Option, none, some, [], ◌∷◌, ◌++◌, Bytes, ltb, if◌then◌else◌,
}
use honeybeepf_llm.Prelude.Maps.{Map}
use honeybeepf_llm.Pricing.Types.{UsageInfo}
use honeybeepf_llm.Background.Calls.{PendingCall, new_call, insert, touch, take_call}
use honeybeepf_llm.H2.Types.{UnparsedReason}
use honeybeepf_llm.Processor.Types.{
  BackgroundState, running, ended, cancelled, Http, Outcome, Note, Node, Call, StreamProcessor,
  finished, is_llm,
}

module _ {Pod : Type 0} where
  abbrev pub noted : Note Pod → Node Pod → Node Pod
  noted note node = record node { notes = node.notes ++ note ∷ [] }

  -- Its outcome is `unparsed reason`.
  unfoldable pub count_unparsed : ℕ → UnparsedReason → Option Pod → Node Pod → Node Pod
  count_unparsed pid reason pod = noted (Note.unparsed_call reason pid pod)

  unfoldable pub record_usage : UsageInfo → ℕ → ℕ → Option Pod → Node Pod → Node Pod
  record_usage usage start pid pod = noted (Note.request usage start pid pod)

  unfoldable pub give_up : PendingCall Pod → Node Pod → Node Pod
  unfolding count_unparsed
  give_up call = count_unparsed call.pid UnparsedReason.background_unfinished call.pod_info

  abbrev pub give_up_evicted :
      Option (PendingCall Pod) × Map (PendingCall Pod) → Node Pod → Node Pod
  give_up_evicted (none, calls) node = record node { calls = calls }
  give_up_evicted (some call, calls) node = give_up call (record node { calls = calls })

  -- Its outcome is `deferred`.
  unfoldable pub defer : Bytes → PendingCall Pod → Node Pod → Node Pod
  unfolding give_up insert
  defer id call node = give_up_evicted (insert id call node.calls) node

  unfoldable pub settle_create :
      Option UsageInfo
      → Option BackgroundState
      → ℕ
      → Call Pod
      → Node Pod
      → Option Outcome × Node Pod
  unfolding record_usage defer
  settle_create (some usage) state start call node =
      (some Outcome.recorded, record_usage usage start call.pid call.pod_info node)
  settle_create none (some (running id)) start call node =
      (some Outcome.deferred, defer id (new_call start call.pid call.pod_info call.now) node)
  settle_create none _ start call node = (none, node)

-- `UsageInfo::default()`
abbrev pub no_usage : UsageInfo
no_usage = record {
  prompt_tokens = 0;
  completion_tokens = 0;
  cache_read_tokens = none;
  cache_write_tokens = none;
  cache_write_long_ttl_tokens = none;
  model = none;
  service_tier = none;
  speed = none;
  inference_geo = none;
}

-- Usage with tokens ends a call whose state is not known.
abbrev pub poll_state : Option UsageInfo → Option BackgroundState → Option BackgroundState
poll_state usage (some state) = some state
poll_state none none = none
poll_state (some u) none =
    if ltb 0 u.prompt_tokens || ltb 0 u.completion_tokens then some ended else none

module _ (H : Http) where
  abbrev pub Settled : Type 0
  Settled = Option Outcome × StreamProcessor H × Node H.Pod

  -- The call taken out, recorded with the usage it came to, or given up.
  abbrev pub settle_taken :
      PendingCall H.Pod → Option UsageInfo → Bool → StreamProcessor H → Node H.Pod → Settled
  settle_taken call (some u) was_cancelled p node =
      (some Outcome.recorded, p, record_usage u call.start_time call.pid call.pod_info node)
  settle_taken call none true p node =
      (some Outcome.recorded, p, record_usage no_usage call.start_time call.pid call.pod_info node)
  settle_taken call none false p node =
      (some (Outcome.unparsed UnparsedReason.background_unfinished), p, give_up call node)

  abbrev pub settle_ended :
      Option (PendingCall H.Pod) × Map (PendingCall H.Pod)
      → Option UsageInfo
      → Bool
      → StreamProcessor H
      → Node H.Pod
      → Settled
  settle_ended (none, calls) usage was_cancelled p node =
      (some Outcome.pending, p, record node { calls = calls })
  settle_ended (some call, calls) usage was_cancelled p node =
      settle_taken call usage was_cancelled p (record node { calls = calls })

  abbrev pub touched : Bytes → ℕ → Node H.Pod → Node H.Pod
  touched id now node = record node { calls = touch id now node.calls }

  abbrev pub settle_polled :
      Bytes
      → Option UsageInfo
      → Option BackgroundState
      → ℕ
      → StreamProcessor H
      → Node H.Pod
      → Settled
  settle_polled id usage (some (running _)) now p node =
      (some Outcome.pending, p, touched id now node)
  settle_polled id usage (some ended) now p node =
      settle_ended (take_call id node.calls) usage false p node
  settle_polled id usage (some cancelled) now p node =
      settle_ended (take_call id node.calls) usage true p node
  settle_polled id (some u) none now p node = (some Outcome.pending, p, node)
  settle_polled id none none now p node =
      (none, record p { continuation = some id }, touched id now node)

  unfoldable pub settle_poll :
      Bytes
      → Option UsageInfo
      → Option BackgroundState
      → ℕ
      → StreamProcessor H
      → Node H.Pod
      → Settled
  unfolding record_usage give_up touch take_call
  settle_poll id usage state now p node = settle_polled id usage (poll_state usage state) now p node

  abbrev pub settle_by :
      Option Bytes
      → Option UsageInfo
      → Option BackgroundState
      → ℕ
      → Call H.Pod
      → StreamProcessor H
      → Node H.Pod
      → Settled
  settle_by (some id) usage state start call p node = settle_poll id usage state call.now p node
  settle_by none usage state start call p node =
      let (outcome, node') = settle_create usage state start call node in (outcome, p, node')

  unfoldable pub settle :
      Option UsageInfo
      → Option BackgroundState
      → ℕ
      → Call H.Pod
      → StreamProcessor H
      → Node H.Pod
      → Settled
  unfolding settle_poll settle_create
  settle usage state start call p node =
      settle_by p.continuation usage state start call (record p { continuation = none }) node

  -- A processor, what is shared, and the outcome.
  abbrev pub Result : Type 0
  Result = StreamProcessor H × Node H.Pod × Outcome

  abbrev pub drop_by :
      Option Bytes → UnparsedReason → Call H.Pod → StreamProcessor H → Node H.Pod → Result
  drop_by (some id) reason call p node = (p, node, Outcome.pending)
  drop_by none reason call p node =
      (p, count_unparsed call.pid reason call.pod_info node, Outcome.unparsed reason)

  unfoldable pub drop_response :
      UnparsedReason → Call H.Pod → StreamProcessor H → Node H.Pod → Result
  unfolding is_llm count_unparsed
  drop_response reason call p node =
      if is_llm H p
      then drop_by p.continuation reason call (record p { state = finished; continuation = none })
          node
      else (p, node, Outcome.pending)
