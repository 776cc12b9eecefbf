-- ===== src/Frame/Scan.antt =====
-- Re-anchoring after a gap: a run of three chaining valid frame heads.
use honeybeepf_llm.Prelude.{
  ℕ, zero, suc, ◌+◌, ◌-◌, ◌*◌, Bool, false, not, ◌&&◌, ◌||◌, Option, none, some, ◌++◌, Bytes,
  length, take, drop, get_or, ltb, leb, ◌==◌, if◌then◌else◌, is_some, min, bit_and, bit_or, bit_xor,
}
use honeybeepf_llm.Frame.Types.{FrameReader}
use honeybeepf_llm.Frame.FrameType
use honeybeepf_llm.Frame.Flags
use honeybeepf_llm.Frame.Heads.{payload_len, stream_id, server, resync}

-- A head read at a scan offset.
pub data HeadScan : Type 0 where
  ok : ℕ → HeadScan
  bad short : HeadScan

pub data Candidate : Type 0 where
  anchored rejected need_more : Candidate

-- `flags.0 & !mask == 0`: no flag outside the mask, which is a byte too.
abbrev pub only : ℕ → ℕ → Bool
only flags mask = bit_and flags (bit_xor mask 0xff) == 0

abbrev pub client_stream : ℕ → Bool
client_stream stream = not (stream == 0) && bit_and stream 1 == 1

-- Whether the flags and stream id are those that the type allows.
unfoldable pub plausible_head : ℕ → ℕ → ℕ → Bool
plausible_head kind flags stream =
    if kind == FrameType.data_bytes
    then only flags (bit_or Flags.end_stream Flags.padded) && client_stream stream
    else if kind == FrameType.headers
    then only flags
        (bit_or (bit_or (bit_or Flags.end_stream Flags.end_headers) Flags.padded) Flags.priority)
      && client_stream stream
    else if kind == FrameType.priority
    then only flags 0 && client_stream stream
    else if kind == FrameType.rst_stream
    then only flags 0 && client_stream stream
    else if kind == FrameType.settings
    then only flags 0x1 && stream == 0
    else if kind == FrameType.ping
    then only flags 0x1 && stream == 0
    else if kind == FrameType.goaway
    then only flags 0 && stream == 0
    else if kind == FrameType.window_update
    then flags == 0 && (stream == 0 || bit_and stream 1 == 1)
    else if kind == FrameType.continuation
    then only flags Flags.end_headers && client_stream stream
    else false

abbrev pub scan_cap : FrameReader → ℕ
scan_cap r = min (2 * r.max_frame_size + 27) (256 * 1024)

unfoldable pub scan_push : FrameReader → Bytes → FrameReader
scan_push r input =
    let scan = r.scan ++ input in
    let over = length scan - scan_cap r in
    if ltb (scan_cap r) (length scan)
    then record r { scan = drop over scan; scan_from = r.scan_from - over }
    else record r { scan = scan }

-- `self.scan.get(off..off + 9)` and the head in it; the scan is given from `off` on.
unfoldable pub head_at : ℕ → Bytes → HeadScan
unfolding payload_len stream_id plausible_head
head_at max_frame_size bytes =
    let h = take 9 bytes in
    if ltb (length bytes) 9
    then short
    else if leb (payload_len h) max_frame_size
        && plausible_head (get_or h 3 0) (get_or h 4 0) (stream_id h 5)
    then ok (payload_len h)
    else bad

unfoldable pub head_scan : FrameReader → ℕ → HeadScan
unfolding head_at
head_scan r off = head_at r.max_frame_size (drop off r.scan)

-- The loop `for _ in 0..3`, `heads` of them left.
unfoldable pub chain_from : FrameReader → ℕ → ℕ → Candidate
unfolding head_scan
chain_from r zero at = anchored
chain_from r (suc heads) at = elim (head_scan r at) [
  | ok len ↦ chain_from r heads (at + (9 + len))
  | bad ↦ rejected
  | short ↦ need_more
]

unfoldable pub chain_at : FrameReader → ℕ → Candidate
unfolding chain_from
chain_at r off = chain_from r 3 off

abbrev pub reject : FrameReader → ℕ → FrameReader
reject r at = if at == r.scan_from then record r { scan_from = r.scan_from + 1 } else r

-- The `while` loop of `anchor`; `at` grows by one a round, so the scan's length bounds the rounds.
unfoldable pub anchor_from : ℕ → FrameReader → ℕ → FrameReader × Option ℕ
unfolding chain_at
anchor_from zero r at = (r, none)
anchor_from (suc rounds) r at =
    let next : FrameReader × Option ℕ = elim (chain_at r at) [
      | anchored ↦ (r, some at)
      | need_more ↦ anchor_from rounds r (at + 1)
      | rejected ↦ anchor_from rounds (reject r at) (at + 1)
    ] in
    if leb (at + 9) (length r.scan) then next else (r, none)

unfoldable pub anchor : FrameReader → FrameReader × Option ℕ
unfolding anchor_from
anchor r = anchor_from (length r.scan) r r.scan_from

unfoldable pub looks_like_http2 : Bytes → Bool
unfolding anchor scan_push resync server
looks_like_http2 bytes = is_some (anchor (scan_push (resync server) bytes)).1
