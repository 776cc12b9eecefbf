-- ===== src/Background/Calls.antt =====
-- background.rs: `BackgroundCalls` and its operations.
use honeybeepf_llm.Prelude.{
  ℕ, ◌*◌, ◌-◌, ◌^◌, Bool, ◌&&◌, not, Option, none, some, List, [], ◌∷◌, Bytes, length, leb,
  if◌then◌else◌,
}
use honeybeepf_llm.Prelude.Maps
use honeybeepf_llm.Prelude.Maps.{Map}

abbrev pub max_calls : ℕ
max_calls = 4096

-- 3600 seconds; instants count nanoseconds.
abbrev pub idle_ttl : ℕ
idle_ttl = 3600 * 10 ^ 9

-- `P` is `PodInfo`, a type of the Kubernetes side.
pub record PendingCall (P : Type 0) : Type 0 where
  pub start_time : ℕ
  pub pid : ℕ
  pub pod_info : Option P
  pub last_seen : ℕ

module _ {P : Type 0} where
  -- `PendingCall::new`, at the instant `now`.
  abbrev pub new_call : ℕ → ℕ → Option P → ℕ → PendingCall P
  new_call start_time pid pod_info now = record {
    start_time = start_time;
    pid = pid;
    pod_info = pod_info;
    last_seen = now;
  }

  -- The first of the entries with the least `last_seen`.
  abbrev pub older : Bytes × PendingCall P → Option (Bytes × PendingCall P) → Bytes × PendingCall P
  older (k, c) none = (k, c)
  older (k, c) (some (k', c')) = if leb c.last_seen c'.last_seen then (k, c) else (k', c')

  unfoldable pub oldest : Map (PendingCall P) → Option (Bytes × PendingCall P)
  oldest [] = none
  oldest ((k, c) ∷ calls) = some (older (k, c) (oldest calls))

  -- Taken by its key, if there is an oldest one.
  abbrev pub evict_at :
      Option (Bytes × PendingCall P)
      → Map (PendingCall P)
      → Option (PendingCall P) × Map (PendingCall P)
  evict_at none calls = (none, calls)
  evict_at (some (k, c)) calls = (Maps.lookup k calls, Maps.remove k calls)

  unfoldable pub make_room :
      Bytes → Map (PendingCall P) → Option (PendingCall P) × Map (PendingCall P)
  unfolding oldest
  make_room id calls =
      if leb max_calls (length calls) && not (Maps.contains_key id calls)
      then evict_at (oldest calls) calls
      else (none, calls)

  -- The call dropped to make room, and the calls after.
  unfoldable pub insert :
      Bytes → PendingCall P → Map (PendingCall P) → Option (PendingCall P) × Map (PendingCall P)
  unfolding make_room
  insert id call calls =
      let (evicted, rest) = make_room id calls in (evicted, Maps.insert id call rest)

  abbrev pub contains : Bytes → Map (PendingCall P) → Bool
  contains = Maps.contains_key

  -- A poll at the instant `now` saw the call still running.
  unfoldable pub touch : Bytes → ℕ → Map (PendingCall P) → Map (PendingCall P)
  touch id now calls = elim (Maps.lookup id calls) [
    | none ↦ calls
    | some c ↦ Maps.insert id (record c { last_seen = now }) calls
  ]

  unfoldable pub take_call :
      Bytes → Map (PendingCall P) → Option (PendingCall P) × Map (PendingCall P)
  take_call id calls = (Maps.lookup id calls, Maps.remove id calls)

  abbrev pub is_idle : ℕ → PendingCall P → Bool
  is_idle now c = leb idle_ttl (now - c.last_seen)

  -- The calls given up, and those kept.
  unfoldable pub expire : ℕ → Map (PendingCall P) → List (PendingCall P) × Map (PendingCall P)
  expire now [] = ([], [])
  expire now ((k, c) ∷ calls) =
      let (gone, kept) = expire now calls in
      if is_idle now c then (c ∷ gone, kept) else (gone, (k, c) ∷ kept)
