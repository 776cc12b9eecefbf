-- ===== src/Frame/Heads.antt =====
-- Readers as they start, frame heads, and the end of a frame.
use honeybeepf_llm.Prelude.{
  ℕ, ◌+◌, ◌-◌, ◌*◌, ◌^◌, Bool, true, false, not, ◌&&◌, ◌||◌, Option, none, some, List, [], ◌∷◌,
  ◌++◌, Bytes, get_or, replicate, ltb, leb, ◌==◌, if◌then◌else◌, is_some, bit_and, min, max,
}
use honeybeepf_llm.Frame.Types.{
  FrameReader, State, Broken, Block, Frame, Step, default_max_frame_size,
}
use honeybeepf_llm.Frame.FrameType
use honeybeepf_llm.Frame.Flags

abbrev pub has : ℕ → ℕ → Bool
has flags flag = not (bit_and flags flag == 0)

unfoldable pub server : FrameReader
server = record {
  state = State.head;
  max_frame_size = default_max_frame_size;
  head = replicate 9 0;
  head_len = 0;
  kind = 0;
  flags = 0;
  stream = 0;
  left = 0;
  front = 0;
  pad_due = false;
  pad = 0;
  block = none;
  buf = [];
  ctrl = replicate 4 0;
  ctrl_len = 0;
  scan = [];
  scan_from = 0;
}

unfoldable pub client : FrameReader
unfolding server
client = record server { state = State.preface 0 }

-- `size.clamp(DEFAULT_MAX_FRAME_SIZE, (1 << 24) - 1)`.
unfoldable pub set_max_frame_size : FrameReader → ℕ → FrameReader
set_max_frame_size r size = record r {
  max_frame_size = min (max size default_max_frame_size) (2 ^ 24 - 1);
}

abbrev pub broken_state : State → Option Broken
broken_state (State.broken why) = some why
broken_state _ = none

unfoldable pub broken : FrameReader → Option Broken
broken r = broken_state r.state

unfoldable pub resync : FrameReader → FrameReader
resync r = record r { block = none; buf = []; scan = []; scan_from = 0; state = State.scan }

abbrev pub is_payload : State → Bool
is_payload State.payload = true
is_payload _ = false

-- The reader, and whether the gap was skipped.
unfoldable pub skip_gap : FrameReader → ℕ → FrameReader × Bool
skip_gap r n =
    if is_payload r.state
      && r.kind == FrameType.data_bytes
      && r.front == 0
      && leb n (r.left - r.pad)
    then (record r { left = r.left - n }, true)
    else (r, false)

-- `u32::from_be_bytes(…) & 0x7fff_ffff` of the four bytes from `i`.
unfoldable pub stream_id : Bytes → ℕ → ℕ
stream_id h i =
    bit_and
      (get_or h i 0 * 2 ^ 24
        + get_or h (i + 1) 0 * 2 ^ 16
        + get_or h (i + 2) 0 * 2 ^ 8
        + get_or h (i + 3) 0)
      0x7fff_ffff

-- `h[0] << 16 | h[1] << 8 | h[2]`, bytes side by side.
unfoldable pub payload_len : Bytes → ℕ
payload_len h = get_or h 0 0 * 2 ^ 16 + get_or h 1 0 * 2 ^ 8 + get_or h 2 0

abbrev pub continues : Option Block → ℕ → ℕ → Bool
continues none kind stream = false
continues (some b) kind stream = kind == FrameType.continuation && stream == b.stream

abbrev pub same : Bool → Bool → Bool
same true b = b
same false b = not b

-- The first rule that the head breaks, if any.
unfoldable pub check_head : FrameReader → ℕ → ℕ → ℕ → ℕ → Option Broken
check_head r len kind stream front =
    let in_block = continues r.block kind stream in
    if ltb r.max_frame_size len
    then some Broken.too_large
    else if not (same (is_some r.block) in_block) || kind == FrameType.continuation && not in_block
    then some Broken.continuation
    else if (kind == FrameType.data_bytes
          || kind == FrameType.headers
          || kind == FrameType.continuation)
        && stream == 0
    then some Broken.no_stream
    else if kind == FrameType.push_promise
    then some Broken.push_promise
    else if ltb len front
    then some Broken.bad_padding
    else none

-- The block's events at its END_HEADERS.
abbrev pub block_events : Block → Bytes → List Frame
block_events b buf =
    (if b.too_large then Frame.headers_too_large b.stream else Frame.headers b.stream buf)
    ∷ (if b.end_stream then Frame.stream_end b.stream ∷ [] else [])

abbrev pub end_block : FrameReader → Option Block → Step
end_block r none = (r, [])
end_block r (some b) = (record r { block = none }, block_events b r.buf)

unfoldable pub finish_frame : FrameReader → Step
unfolding stream_id
finish_frame r =
    let ended =
      if r.kind == FrameType.data_bytes && has r.flags Flags.end_stream
      then Frame.stream_end r.stream ∷ []
      else [] in
    let resets =
      if r.kind == FrameType.rst_stream && not (r.stream == 0)
      then Frame.reset r.stream ∷ []
      else [] in
    let leaves =
      if r.kind == FrameType.goaway && r.ctrl_len == 4
      then Frame.goaway (stream_id r.ctrl 0) ∷ []
      else [] in
    let r' = record r { state = State.head } in
    let (r'', blocks) =
      if (r.kind == FrameType.headers || r.kind == FrameType.continuation)
        && has r.flags Flags.end_headers
      then end_block r' r'.block
      else (r', []) in
    (r'', ended ++ (resets ++ (leaves ++ blocks)))

-- The fields that a head which passed the check sets.
abbrev pub opened : FrameReader → ℕ → ℕ → ℕ → ℕ → ℕ → Bool → FrameReader
opened r len kind flags stream front padded =
    let r' = record r {
      state = State.payload;
      kind = kind;
      flags = flags;
      stream = stream;
      left = len;
      front = front;
      pad_due = padded;
      pad = 0;
    } in
    let r'' =
      if kind == FrameType.headers
      then record r' {
        buf = [];
        block = some (record {
          stream = stream;
          end_stream = has flags Flags.end_stream;
          too_large = false;
        });
      }
      else r' in
    if kind == FrameType.goaway then record r'' { ctrl = replicate 4 0; ctrl_len = 0 } else r''

abbrev pub open_or_break : FrameReader → Option Broken → ℕ → FrameReader → Step
open_or_break r (some why) len r' = (record r { state = State.broken why }, [])
open_or_break r none len r' = if len == 0 then finish_frame r' else (r', [])

abbrev pub is_padded : ℕ → ℕ → Bool
is_padded kind flags =
    (kind == FrameType.data_bytes || kind == FrameType.headers) && has flags Flags.padded

abbrev pub front_len : ℕ → ℕ → ℕ
front_len kind flags =
    (if is_padded kind flags then 1 else 0)
    + (if kind == FrameType.headers && has flags Flags.priority then 5 else 0)

unfoldable pub start_frame : FrameReader → Step
unfolding check_head finish_frame stream_id payload_len
start_frame r =
    let len = payload_len r.head in
    let kind = get_or r.head 3 0 in
    let flags = get_or r.head 4 0 in
    let stream = stream_id r.head 5 in
    let front = front_len kind flags in
    open_or_break r (check_head r len kind stream front) len
      (opened r len kind flags stream front (is_padded kind flags))
