-- ===== src/H2/Budget/Wrap.antt =====
-- A connection with buffered bytes that a gap in the client's direction turns speculative: its bytes
-- were never added to the node's count, and its drop takes them off.
use honeybeepf_llm.Prelude.{
  sym, ℕ, ◌-◌, ◌^◌, ◌≤◌, ◌<◌, ◌≡◌, refl, Bool, true, false, ◌||◌, Option, none, some, List, Bytes,
  ltb, if◌then◌else◌, arith,
}
use mathlib.Core.Path.{subst}
use honeybeepf_llm.Hpack.Types.{Decoder}
use honeybeepf_llm.Frame.Types.{Frame, FrameReader}
use honeybeepf_llm.Frame.Read.{read}
use honeybeepf_llm.Json.{Json}
use honeybeepf_llm.H2.Types.{conn_buffer_cap, H2Gap, Services}
use honeybeepf_llm.H2.Frames.{Feeding}
use honeybeepf_llm.H2.Conn.{
  H2Conn, reconcile_node_bytes, fetch_sub, drop_conn, reanchored, bridge, buffer_cap, Fed, feed,
  feed_read, read_out,
}
use honeybeepf_llm.H2.Budget.Frames.{Accounts}
use honeybeepf_llm.H2.Budget.Feed.{ConnOk, FeedReturns, feed-Returns}

taken_off :
    (before after node : ℕ)
    → before ≤ conn_buffer_cap
    → after ≤ conn_buffer_cap
    → node < before
    → (if ltb 0 after
        then fetch_sub (reconcile_node_bytes before after node) after
        else reconcile_node_bytes before after node)
      ≡ 2 ^ 64 - (before - node)
unfolding reconcile_node_bytes
taken_off before after node le le' lt = ground arith

no_room :
    (before node : ℕ)
    → before ≤ conn_buffer_cap
    → node < before
    → buffer_cap true 0 (2 ^ 64 - (before - node)) ≡ 0
unfolding buffer_cap
no_room before node le lt = omega arith

module _ (J : Json) {U : Type 0} (services : Services J U) where
  -- The count left by the drop is short of zero by the bytes missing from it, and a connection that
  -- is joined midway then has no room for a first byte.
  abbrev pub Blocks : ℕ → Option (Fed J services) → Type 0
  Blocks short none = ⊥
  Blocks short (some fed) =
      (drop_conn fed.conn fed.node ≡ 2 ^ 64 - short)
      × (buffer_cap true 0 (drop_conn fed.conn fed.node) ≡ 0)

  feed_read-Blocks :
      (clock : ℕ → ℕ) (conn : H2Conn J.Value) (node : ℕ) (decoder : Decoder)
      (o : Option (FrameReader × List Frame))
      → conn.buffered ≤ conn_buffer_cap
      → node < conn.buffered
      → FeedReturns J services (feed_read J services true true true clock conn node decoder o)
      → Blocks
          (conn.buffered - node)
          (feed_read J services true true true clock conn node decoder o)
  unfolding drop_conn
  feed_read-Blocks clock conn node decoder none le lt ok = ok
  feed_read-Blocks clock conn node decoder (some (reader, frames)) le lt ok =
      let after =
        Feeding.buffered (read_out J services true true true clock conn node decoder frames) in
      let left =
        taken_off conn.buffered after node le (Accounts.within_cap (ConnOk.accounts ok)) lt in
      (left, rw left (no_room conn.buffered node le lt))

  or_true : (b : Bool) → (b || true) ≡ true
  or_true true = refl
  or_true false = refl

  -- Where a sound connection buffers more bytes than the node's count holds, a client feed that
  -- anchors anew, followed by the drop of the connection, leaves the count at 2^64 less the
  -- missing bytes, and a connection joined midway then gets no room for its first byte.
  pub feed-Blocks :
      (bytes : Bytes) (clock : ℕ → ℕ) (conn : H2Conn J.Value) (node : ℕ)
      → ConnOk J services conn
      → node < conn.buffered
      → Blocks (conn.buffered - node) (feed J services true bytes H2Gap.resync clock conn node)
  unfolding feed bridge
  feed-Blocks bytes clock conn node ok lt =
      let d' = reanchored (conn.client, true) in
      subst
        (λ (m : Bool).
          FeedReturns J services
            (feed_read J services true true m clock conn node d'.decoder (read d'.reader bytes))
          → Blocks (conn.buffered - node)
              (feed_read J services true true m clock conn node d'.decoder (read d'.reader bytes)))
        (sym (or_true conn.midjoin))
        (feed_read-Blocks clock conn node d'.decoder (read d'.reader bytes)
          (Accounts.within_cap (ConnOk.accounts ok)) lt)
        (feed-Returns J services true bytes H2Gap.resync clock conn node ok)
