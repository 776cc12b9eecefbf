-- ===== src/Background/Bounds.antt =====
-- The calls are never more than `MAX_CALLS`; room is made by the one seen least recently.
use mathlib.Core.Path.{subst}
use honeybeepf_llm.Prelude.{
  bytes_eq, bytes_eq_refl, bytes_eq→eq, ◌≤◌, ◌<◌, ◌≡◌, refl, sym, ◌∙◌, Bool, true, false,
  Bool-cases, ◌⊎◌, inl, inr, ◌&&◌, not, Option, none, some, [], ◌∷◌, Bytes, length, leb, leb→le,
  leb→gt, if◌then◌else◌, arith,
}
use honeybeepf_llm.Prelude.Maps
use honeybeepf_llm.Prelude.Maps.{
  Map, Distinct, lookup-insert, length-insert_new, length-insert_old, length-remove,
  length-remove_le, length-insert_le, length-insert_known, lookup_missing, insert-Distinct,
  remove-Distinct, missing-removed, lookup-remove_other, lookup-insert_other,
}
use honeybeepf_llm.Background.Calls.{
  PendingCall, max_calls, older, oldest, evict_at, make_room, insert, take_call,
}

full_and_new : (full known : Bool) → (full && not known) ≡ true → (full ≡ true) × (known ≡ false)
full_and_new full known e = ground arith

module _ {P : Type 0} where
  spare :
      (id : Bytes) (calls : Map (PendingCall P))
      → (leb max_calls (length calls) && not (Maps.contains_key id calls)) ≡ false
      → (length calls < max_calls) ⊎ (Maps.contains_key id calls ≡ true)
  spare id calls e = elim (Bool-cases (leb max_calls (length calls))) [
    | inl full ↦ inr (ground arith)
    | inr room ↦ inl (leb→gt max_calls (length calls) room)
  ]

  known_missing :
      (k : Bytes) (c : PendingCall P) (calls : Map (PendingCall P))
      → Maps.lookup k calls ≡ some c
      → ¬ (Maps.contains_key k calls ≡ false)
  known_missing k c calls h e = ground arith

  -- Within the bound, each id once.
  abbrev pub IsBounded : Map (PendingCall P) → Type 0
  IsBounded calls = (length calls ≤ max_calls) × Distinct calls

  -- Seen no later than any of the calls.
  abbrev pub SeenFirst : PendingCall P → Map (PendingCall P) → Type 0
  SeenFirst c [] = Unit
  SeenFirst c ((k, d) ∷ calls) =
      (PendingCall.last_seen c ≤ PendingCall.last_seen d) × SeenFirst c calls

  -- The ids but these two stand for the calls that they stood for.
  abbrev pub KeepsOthers : Bytes → Bytes → Map (PendingCall P) → Map (PendingCall P) → Type 0
  KeepsOthers id other calls after =
      (k : Bytes)
      → bytes_eq id k ≡ false
      → bytes_eq other k ≡ false
      → Maps.lookup k after ≡ Maps.lookup k calls

  -- What is given back: nothing where there was room or the id was known, and then every other call is
  -- kept; otherwise a call that was kept and seen first, and then every other call but that one is.
  abbrev pub Evicts :
      Bytes → Map (PendingCall P) → Option (PendingCall P) → Map (PendingCall P) → Type 0
  Evicts id calls none after =
      ((length calls < max_calls) ⊎ (Maps.contains_key id calls ≡ true))
      × KeepsOthers id id calls after
  Evicts id calls (some c) after =
      (length calls ≡ max_calls)
      × (Maps.contains_key id calls ≡ false)
      × SeenFirst c calls
      × ((victim : Bytes) × (Maps.lookup victim calls ≡ some c)
          × (Maps.lookup victim after ≡ none)
          × KeepsOthers id victim calls after)

  abbrev Oldest : Map (PendingCall P) → Option (Bytes × PendingCall P) → Type 0
  Oldest calls none = length calls ≡ 0
  Oldest calls (some (k, c)) = (Maps.lookup k calls ≡ some c) × SeenFirst c calls

  seen_trans :
      (c d : PendingCall P) (calls : Map (PendingCall P))
      → PendingCall.last_seen c ≤ PendingCall.last_seen d
      → SeenFirst d calls
      → SeenFirst c calls
  seen_trans c d [] le h = tt
  seen_trans c d ((k, e) ∷ calls) le h = (omega (arith, h.0), seen_trans c d calls le h.1)

  own_key :
      (k : Bytes) (c : PendingCall P) (calls : Map (PendingCall P))
      → Maps.lookup k ((k, c) ∷ calls) ≡ some c
  own_key k c calls = ground (arith, bytes_eq_refl k)

  other_key :
      (k k' : Bytes) (c c' : PendingCall P) (calls : Map (PendingCall P))
      → Maps.contains_key k calls ≡ false
      → Maps.lookup k' calls ≡ some c'
      → Maps.lookup k' ((k, c) ∷ calls) ≡ some c'
  other_key k k' c c' calls new h = elim (Bool-cases (bytes_eq k k')) [
    | inl same ↦ absurd (
        known_missing k' c' calls h
          (subst (λ (j : Bytes). Maps.contains_key j calls ≡ false) (bytes_eq→eq k k' same) new))
    | inr other ↦ rw other h
  ]

  older-Oldest :
      (k : Bytes) (c : PendingCall P) (calls : Map (PendingCall P))
      (o : Option (Bytes × PendingCall P))
      → Maps.contains_key k calls ≡ false
      → Oldest calls o
      → Oldest ((k, c) ∷ calls) (some (older (k, c) o))
  older-Oldest k c [] none new h = (own_key k c [], (omega arith, tt))
  older-Oldest k c (entry ∷ calls) none new h = absurd (omega arith)
  older-Oldest k c calls (some (k', c')) new h =
      elim (Bool-cases (leb (PendingCall.last_seen c) (PendingCall.last_seen c'))) [
        | inl e ↦
            subst (λ (b : Bool). Oldest ((k, c) ∷ calls) (some (if b then (k, c) else (k', c'))))
              (sym e) (own_key k c calls, (omega arith, seen_trans c c' calls (leb→le _ _ e) h.1))
        | inr e ↦
            subst (λ (b : Bool). Oldest ((k, c) ∷ calls) (some (if b then (k, c) else (k', c'))))
              (sym e)
              (
                other_key k k' c c' calls new h.0,
                (omega (arith, leb→gt (PendingCall.last_seen c) (PendingCall.last_seen c') e), h.1),
              )
      ]

  oldest-Oldest : (calls : Map (PendingCall P)) → Distinct calls → Oldest calls (oldest calls)
  unfolding oldest
  oldest-Oldest [] d = refl
  oldest-Oldest ((k, c) ∷ calls) d =
      older-Oldest k c calls (oldest calls) d.0 (oldest-Oldest calls d.1)

  -- After room was made, one more call fits.
  abbrev Roomy : Bytes → Map (PendingCall P) → Option (PendingCall P) × Map (PendingCall P) → Type 0
  Roomy id calls (evicted, rest) =
      IsBounded rest
      × Evicts id calls evicted rest
      × ((length rest < max_calls) ⊎ (Maps.contains_key id rest ≡ true))

  evicted-Roomy :
      (id : Bytes) (calls : Map (PendingCall P)) (o : Option (Bytes × PendingCall P))
      → IsBounded calls
      → max_calls ≤ length calls
      → Maps.contains_key id calls ≡ false
      → Oldest calls o
      → Roomy id calls (evict_at o calls)
  evicted-Roomy id calls none b full new h = absurd (omega arith)
  evicted-Roomy id calls (some (k, c)) b full new h =
      let shorter = length-remove k c calls h.0 in
      rw h.0 (
        (omega (arith, shorter), remove-Distinct k calls b.1),
        (
          omega arith,
          new,
          h.1,
          (
            k,
            h.0,
            lookup_missing k (Maps.remove k calls) (missing-removed k calls b.1),
            λ j apart other. lookup-remove_other j k calls other,
          ),
        ),
        inl (omega (arith, shorter)),
      )

  make_room-Roomy :
      (id : Bytes) (calls : Map (PendingCall P))
      → IsBounded calls
      → Roomy id calls (make_room id calls)
  unfolding make_room
  make_room-Roomy id calls b =
      elim (Bool-cases (leb max_calls (length calls) && not (Maps.contains_key id calls))) [
        | inl e ↦ rw e (
            evicted-Roomy id calls (oldest calls) b
              (leb→le max_calls (length calls) (full_and_new _ _ e).0) (full_and_new _ _ e).1
              (oldest-Oldest calls b.1))
        | inr e ↦ rw e (b, (spare id calls e, λ k apart other. refl), spare id calls e)
      ]

  inserted_length :
      (id : Bytes) (call : PendingCall P) (rest : Map (PendingCall P))
      → length rest ≤ max_calls
      → (length rest < max_calls) ⊎ (Maps.contains_key id rest ≡ true)
      → length (Maps.insert id call rest) ≤ max_calls
  inserted_length id call rest le (inl room) = omega (arith, length-insert_le id call rest)
  inserted_length id call rest le (inr known) =
      omega (arith, length-insert_known id call rest known)

  inserted-IsBounded :
      (id : Bytes) (call : PendingCall P) (rest : Map (PendingCall P))
      → IsBounded rest
      → (length rest < max_calls) ⊎ (Maps.contains_key id rest ≡ true)
      → IsBounded (Maps.insert id call rest)
  inserted-IsBounded id call rest b room =
      (inserted_length id call rest b.0 room, insert-Distinct id call rest b.1)

  -- An unknown id and a known one are not the same.
  known_apart :
      (id k : Bytes) (c : PendingCall P) (calls : Map (PendingCall P))
      → Maps.contains_key id calls ≡ false
      → Maps.lookup k calls ≡ some c
      → bytes_eq id k ≡ false
  known_apart id k c calls new h = elim (Bool-cases (bytes_eq id k)) [
    | inl same ↦ absurd (
        known_missing k c calls h
          (subst (λ (j : Bytes). Maps.contains_key j calls ≡ false) (bytes_eq→eq id k same) new))
    | inr other ↦ other
  ]

  inserted-Evicts :
      (id : Bytes) (call : PendingCall P) (calls rest : Map (PendingCall P))
      (evicted : Option (PendingCall P))
      → Evicts id calls evicted rest
      → Evicts id calls evicted (Maps.insert id call rest)
  inserted-Evicts id call calls rest none (room, keeps) =
      (room, λ k apart other. lookup-insert_other k id call rest apart ∙ keeps k apart other)
  inserted-Evicts id call calls rest (some c) (full, new, first, (victim, was, gone, keeps)) = (
    full,
    new,
    first,
    (
      victim,
      was,
      lookup-insert_other victim id call rest (known_apart id victim c calls new was) ∙ gone,
      λ k apart other. lookup-insert_other k id call rest apart ∙ keeps k apart other,
    ),
  )

  -- From at most 4096 calls with distinct ids, an insert leaves at most 4096 with distinct ids and
  -- the new call under its id. Where there was room or the id was known, it gives nothing back and
  -- every other id keeps its call or stays without one. Otherwise, with 4096 calls and an unknown
  -- id, it gives back a call seen no later than any other: one other id stood for that call and is
  -- gone, and all the rest keep theirs.
  pub insert-IsBounded :
      (id : Bytes) (call : PendingCall P) (calls : Map (PendingCall P))
      → IsBounded calls
      → IsBounded (insert id call calls).1
        × Evicts id calls (insert id call calls).0 (insert id call calls).1
        × (Maps.lookup id (insert id call calls).1 ≡ some call)
  unfolding insert
  insert-IsBounded id call calls b =
      let (evicted, rest) = make_room id calls in
      let room = make_room-Roomy id calls b in
      (
        inserted-IsBounded id call rest room.0 room.2,
        inserted-Evicts id call calls rest evicted room.1,
        lookup-insert id call rest,
      )

  pub take_call_lem :
      (id : Bytes) (calls : Map (PendingCall P))
      → IsBounded calls
      → IsBounded (take_call id calls).1 × ((take_call id (take_call id calls).1).0 ≡ none)
  unfolding take_call
  take_call_lem id calls b = (
    (omega (arith, length-remove_le id calls), remove-Distinct id calls b.1),
    lookup_missing id (Maps.remove id calls) (missing-removed id calls b.1),
  )
