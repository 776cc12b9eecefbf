-- ===== src/H2/Budget/Node.antt =====
-- The node's count of speculative bytes: what a connection's feeds and its drop come to.
use honeybeepf_llm.Prelude.{
  ℕ, ◌+◌, ◌^◌, ◌≤◌, ◌<◌, ◌≡◌, Bool, true, false, Bool-cases, ◌⊎◌, inl, inr, ◌||◌, ◌&&◌, Option,
  none, some, List, Bytes, ltb, ltb→ge, if◌then◌else◌, arith,
}
use honeybeepf_llm.Json.{Json}
use honeybeepf_llm.Hpack.Types.{Decoder}
use honeybeepf_llm.Frame.Types.{Frame, FrameReader}
use honeybeepf_llm.Frame.Read.{read}
use honeybeepf_llm.H2.Frames.{Feeding}
use honeybeepf_llm.H2.Budget.Frames.{Accounts}
use honeybeepf_llm.H2.Budget.Feed.{ConnOk, FeedReturns, feed-Returns}
use honeybeepf_llm.H2.Types.{conn_buffer_cap, H2Gap, Services}
use honeybeepf_llm.H2.Conn.{
  H2Conn, reconcile_node_bytes, fetch_sub, drop_conn, reanchored, bridge, side, Fed, feed,
  feed_read, read_out,
}

-- A midjoin connection's bytes are in the node's count.
reconcile_lem :
    (before after others : ℕ)
    → others + before < 2 ^ 64
    → others + after < 2 ^ 64
    → reconcile_node_bytes before after (others + before) ≡ others + after
unfolding reconcile_node_bytes
reconcile_lem before after others lt lt' = ground arith

drop_lem : (others n : ℕ) → others + n < 2 ^ 64 → fetch_sub (others + n) n ≡ others
unfolding fetch_sub
drop_lem others n lt = omega arith

-- The bytes of a connection that belong in the node's count.
abbrev pub share : {V : Type 0} → H2Conn V → ℕ
share conn = if conn.midjoin then conn.buffered else 0

reconciled_share :
    (midjoin : Bool) (before after others node : ℕ)
    → before ≤ conn_buffer_cap
    → after ≤ conn_buffer_cap
    → others ≤ 2 ^ 63
    → node ≡ others + (if midjoin then before else 0)
    → (if midjoin then reconcile_node_bytes before after node else node)
      ≡ others + (if midjoin then after else 0)
reconciled_share true before after others node le le' fits e =
    rw e (reconcile_lem before after others (omega arith) (omega arith))
reconciled_share false before after others node le le' fits e = e

dropped_share :
    (midjoin : Bool) (n others node : ℕ)
    → n ≤ conn_buffer_cap
    → others ≤ 2 ^ 63
    → node ≡ others + (if midjoin then n else 0)
    → (if midjoin && ltb 0 n then fetch_sub node n else node) ≡ others
dropped_share true n others node le fits e = elim (Bool-cases (ltb 0 n)) [
  | inl h ↦ rw (h, e) (drop_lem others n (omega arith))
  | inr h ↦ rw h (omega (arith, ltb→ge 0 n h, e))
]
dropped_share false n others node le fits e = omega arith

module _ (J : Json) {U : Type 0} (services : Services J U) where
  -- The node's count is that of the others and the connection's share; a drop leaves the others'.
  abbrev pub Shares : ℕ → Option (Fed J services) → Type 0
  Shares others none = ⊥
  Shares others (some fed) =
      (fed.node ≡ others + share fed.conn) × (drop_conn fed.conn fed.node ≡ others)

  -- A connection that turns speculative has nothing buffered yet.
  abbrev pub KeepsMode : Bool → H2Conn J.Value → Type 0
  KeepsMode request conn = (request ≡ false) ⊎ ((conn.midjoin ≡ true) ⊎ (conn.buffered ≡ 0))

  feed_read-Shares :
      (request reanchors midjoin : Bool) (clock : ℕ → ℕ) (conn : H2Conn J.Value) (node others : ℕ)
      (decoder : Decoder) (o : Option (FrameReader × List Frame))
      → conn.buffered ≤ conn_buffer_cap
      → others ≤ 2 ^ 63
      → node ≡ others + (if midjoin then conn.buffered else 0)
      → FeedReturns J services
          (feed_read J services request reanchors midjoin clock conn node decoder o)
      → Shares others (feed_read J services request reanchors midjoin clock conn node decoder o)
  unfolding drop_conn
  feed_read-Shares request reanchors midjoin clock conn node others decoder none le fits e ok = ok
  feed_read-Shares true reanchors midjoin clock conn node others decoder (some (reader, frames)) le
        fits e ok =
      let after =
        Feeding.buffered
          (read_out J services true reanchors midjoin clock conn node decoder frames) in
      let counted =
        reconciled_share midjoin conn.buffered after others node le
          (Accounts.within_cap (ConnOk.accounts ok)) fits e in
      (
        counted,
        dropped_share midjoin after others _ (Accounts.within_cap (ConnOk.accounts ok)) fits
            counted,
      )
  feed_read-Shares false reanchors midjoin clock conn node others decoder (some (reader, frames)) le
        fits e ok =
      let after =
        Feeding.buffered
          (read_out J services false reanchors midjoin clock conn node decoder frames) in
      let counted =
        reconciled_share midjoin conn.buffered after others node le
          (Accounts.within_cap (ConnOk.accounts ok)) fits e in
      (
        counted,
        dropped_share midjoin after others _ (Accounts.within_cap (ConnOk.accounts ok)) fits
            counted,
      )

  mode_share :
      (request again : Bool) (conn : H2Conn J.Value)
      → KeepsMode request conn
      → share conn ≡ (if conn.midjoin || (again && request) then conn.buffered else 0)
  mode_share request again conn (inl e) = rw e (ground arith)
  mode_share request again conn (inr (inl e)) = ground arith
  mode_share request again conn (inr (inr e)) = ground arith

  -- Where the node's count is the bytes of others, at most 2^63, and the share of a sound
  -- connection, which is its buffered bytes if it was joined midway and else zero, it is so again
  -- after a feed, and a drop then leaves the bytes of the others; provided the feed is of the
  -- server's direction, or the connection was joined midway, or it buffers nothing before.
  pub feed-Shares :
      (request : Bool) (bytes : Bytes) (gap : H2Gap) (clock : ℕ → ℕ) (conn : H2Conn J.Value)
      (node others : ℕ)
      → ConnOk J services conn
      → KeepsMode request conn
      → others ≤ 2 ^ 63
      → node ≡ others + share conn
      → Shares others (feed J services request bytes gap clock conn node)
  unfolding feed
  feed-Shares request bytes gap clock conn node others ok keeps fits e =
      let (d, again) = bridge gap (side request conn) in
      let d' = reanchored (d, again) in
      feed_read-Shares request again (conn.midjoin || (again && request)) clock conn node others
        d'.decoder (read d'.reader bytes) (Accounts.within_cap (ConnOk.accounts ok)) fits
        (omega (arith, e, mode_share request again conn keeps))
        (feed-Returns J services request bytes gap clock conn node ok)
