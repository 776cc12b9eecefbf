-- ===== src/Frame/Payload.antt =====
-- `FrameReader::payload`: the bytes of a frame behind its head.
use honeybeepf_llm.Prelude.{
  ℕ, ◌+◌, ◌-◌, Bool, true, false, ◌&&◌, ◌||◌, Option, none, some, List, [], ◌∷◌, ◌++◌, Bytes,
  length, take, drop, ltb, ◌==◌, if◌then◌else◌, min,
}
use honeybeepf_llm.Frame.Types.{FrameReader, State, Broken, Block, Frame, Step, max_header_block}
use honeybeepf_llm.Frame.FrameType

-- `dest[at..at + src.len()].copy_from_slice(src)`.
unfoldable pub copy_at : Bytes → ℕ → Bytes → Bytes
copy_at dest at src = take at dest ++ (src ++ drop (at + length src) dest)

-- One byte of the front: the pad length if it is due, or a byte of the priority fields.
abbrev pub eat : FrameReader → ℕ → FrameReader
eat r b =
    let r' = if r.pad_due then record r { pad = b; pad_due = false } else r in
    record r' { front = r.front - 1; left = r.left - 1 }

-- Past the loop over the front, or returned from within it; with the input not yet used.
pub data Front : Type 0 where
  done : FrameReader → Bytes → Front
  broke : FrameReader → Bytes → Front

abbrev pub eaten : FrameReader → Bytes → Front → Front
eaten r bs rest =
    if r.front == 0 && ltb r.left r.pad
    then broke (record r { state = State.broken Broken.bad_padding }) bs
    else rest

unfoldable pub eat_front : FrameReader → Bytes → Front
eat_front r [] = done r []
eat_front r (b ∷ bs) =
    let rest = eat_front (eat r b) bs in
    if r.front == 0 then done r (b ∷ bs) else eaten (eat r b) bs rest

-- Content bytes due: padding is the payload's tail.
abbrev pub content_due : FrameReader → ℕ
content_due r = if ltb 0 r.front then 0 else r.left - r.pad

abbrev pub gather : FrameReader → Option Block → Bytes → FrameReader
gather r none bytes = r
gather r (some b) bytes =
    let over = ltb max_header_block (length r.buf + length bytes) in
    if b.too_large
    then r
    else if over
    then record r { block = some (record b { too_large = true }) }
    else record r { block = some (record b { too_large = false }); buf = r.buf ++ bytes }

abbrev pub gather_ctrl : FrameReader → Bytes → FrameReader
gather_ctrl r bytes =
    let n = min (length bytes) (4 - r.ctrl_len) in
    record r { ctrl = copy_at r.ctrl r.ctrl_len (take n bytes); ctrl_len = r.ctrl_len + n }

-- The `match` on the frame's type.
unfoldable pub content : FrameReader → Bytes → Step
unfolding copy_at
content r bytes =
    if r.kind == FrameType.data_bytes && ltb 0 (length bytes)
    then (r, Frame.data_bytes r.stream bytes ∷ [])
    else if r.kind == FrameType.headers || r.kind == FrameType.continuation
    then (gather r r.block bytes, [])
    else if r.kind == FrameType.goaway && ltb 0 (length bytes) && ltb r.ctrl_len 4
    then (gather_ctrl r bytes, [])
    else (r, [])

-- The padding that follows, once the content is whole.
abbrev pub skip_pad : Bool → FrameReader → Bytes → FrameReader × Bytes
skip_pad false r rest = (r, rest)
skip_pad true r rest =
    let n = min r.left (length rest) in (record r { left = r.left - n }, drop n rest)

abbrev pub take_content : FrameReader → Bytes → FrameReader × Bytes × List Frame
take_content r input =
    let due = content_due r in
    let n = min due (length input) in
    let (r', frames) = content r (take n input) in
    let (r'', rest) = skip_pad (n == due) (record r' { left = r'.left - n }) (drop n input) in
    (r'', rest, frames)

abbrev pub after_front : Front → FrameReader × Bytes × List Frame
after_front (broke r rest) = (r, rest, [])
after_front (done r rest) = take_content r rest

-- The reader, the input it did not use, and the events.
unfoldable pub payload : FrameReader → Bytes → FrameReader × Bytes × List Frame
unfolding eat_front content
payload r input = after_front (eat_front r input)
