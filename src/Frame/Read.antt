-- ===== src/Frame/Read.antt =====
-- `FrameReader::read`: the state machine over one read's bytes.
use honeybeepf_llm.Prelude.{
  ℕ, zero, suc, ◌+◌, ◌-◌, ◌&&◌, Option, none, some, List, [], ◌∷◌, ◌++◌, Bytes, length, take, drop,
  bytes_eq, ◌==◌, if◌then◌else◌, min,
}
use honeybeepf_llm.Frame.Types.{FrameReader, State, Broken, Frame, Step, preface_bytes}
use honeybeepf_llm.Frame.Heads.{start_frame, finish_frame, is_payload}
use honeybeepf_llm.Frame.Payload.{copy_at, payload}
use honeybeepf_llm.Frame.Scan.{scan_push, anchor}

-- One round of the loop: `return`, or the input that the next round reads.
pub data Turn : Type 0 where
  stop : FrameReader → Turn
  go : FrameReader → Bytes → List Frame → Turn

abbrev pub go_on : Step → Bytes → Turn
go_on (r, frames) rest = go r rest frames

-- The bytes kept past the anchor are read next, in place of the input.
abbrev pub resume : FrameReader × Option ℕ → Turn
resume (r, none) = stop r
resume (r, some at) = go (record r { state = State.head; scan = [] }) (drop at r.scan) []

abbrev pub preface_turn : ℕ → FrameReader → Bytes → Turn
preface_turn seen r input =
    let n = min (length preface_bytes - seen) (length input) in
    let next = if seen + n == length preface_bytes then State.head else State.preface (seen + n) in
    if bytes_eq (take n input) (take n (drop seen preface_bytes))
    then go (record r { state = next }) (drop n input) []
    else stop (record r { state = State.broken Broken.preface })

abbrev pub head_turn : FrameReader → Bytes → Turn
head_turn r input =
    let n = min (9 - r.head_len) (length input) in
    let r' = record r {
      head = copy_at r.head r.head_len (take n input);
      head_len = r.head_len + n;
    } in
    if r.head_len + n == 9
    then go_on (start_frame (record r' { head_len = 0 })) (drop n input)
    else go r' (drop n input) []

abbrev pub after_payload : FrameReader × Bytes × List Frame → Turn
after_payload (r, rest, frames) =
    let (r', more) = if r.left == 0 && is_payload r.state then finish_frame r else (r, []) in
    go r' rest (frames ++ more)

unfoldable pub turn : State → FrameReader → Bytes → Turn
unfolding copy_at payload start_frame finish_frame scan_push anchor
turn (State.broken why) r input = stop r
turn State.scan r input = resume (anchor (scan_push r input))
turn (State.preface seen) r input = preface_turn seen r input
turn State.head r input = head_turn r input
turn State.payload r input = after_payload (payload r input)

abbrev pub behind : List Frame → Option Step → Option Step
behind frames none = none
behind frames (some (r, more)) = some (r, frames ++ more)

-- `none` is no value of the program: the rounds ran out.
unfoldable pub read_loop : ℕ → FrameReader → Bytes → Option Step
unfolding turn
read_loop rounds r [] = some (r, [])
read_loop zero r (b ∷ bs) = none
read_loop (suc rounds) r (b ∷ bs) = elim (turn r.state r (b ∷ bs)) [
  | stop r' ↦ some (r', [])
  | go r' rest frames ↦ behind frames (read_loop rounds r' rest)
]

-- A round uses a byte, except where it leaves a scan or ends a frame whose payload was skipped.
unfoldable pub read : FrameReader → Bytes → Option Step
unfolding read_loop
read r input = read_loop (length r.scan + length input + 2) r input
