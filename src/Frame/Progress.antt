-- ===== src/Frame/Progress.antt =====
-- Every round of `read` keeps the invariant and uses input, so `read` comes to an end.
use honeybeepf_llm.Prelude.{
  ℕ, ◌≤◌, ◌<◌, ◌≡◌, refl, inl, inr, Bool, true, false, Option, none, some, [], ◌==◌, if◌then◌else◌,
  arith, Bool-cases, replicate, get_or,
}
use honeybeepf_llm.Frame.Types.{FrameReader, State, Broken, Block}
use honeybeepf_llm.Frame.FrameType
use honeybeepf_llm.Frame.Heads.{
  finish_frame, start_frame, check_head, open_or_break, opened, front_len, is_padded, payload_len,
  stream_id,
}
use honeybeepf_llm.Frame.Invariant.{
  IsValid, moved-IsValid, finish_frame-IsValid, with_buf-IsValid, with_ctrl-IsValid,
}

-- A state in which the next round uses a byte: no scan, and a payload has bytes due.
abbrev pub Ready : State → ℕ → Type 0
Ready State.payload left = 0 < left
Ready State.scan left = ⊥
Ready State.head left = Unit
Ready (State.preface seen) left = Unit
Ready (State.broken why) left = Unit

abbrev pub Sound : FrameReader → Type 0
Sound r = IsValid r × Ready r.state r.left

pub Ready-head : (r : FrameReader) → r.state ≡ State.head → Ready r.state r.left
Ready-head r e = rw e tt

abbrev opened_as : Bool → Bool → FrameReader → Block → FrameReader
opened_as is_headers is_goaway r' b =
    let r'' = if is_headers then record r' { buf = []; block = some b } else r' in
    if is_goaway then record r'' { ctrl = replicate 4 0; ctrl_len = 0 } else r''

opened_as-IsValid :
    (is_headers is_goaway : Bool) (r : FrameReader) (b : Block)
    → r.state ≡ State.payload
    → IsValid r
    → IsValid (opened_as is_headers is_goaway r b)
      × ((opened_as is_headers is_goaway r b).state ≡ State.payload)
      × ((opened_as is_headers is_goaway r b).left ≡ r.left)
opened_as-IsValid true true r b e v = (
  with_ctrl-IsValid (record r { buf = []; block = some b }) (replicate 4 0) 0 refl (omega arith)
      (with_buf-IsValid r (some b) [] (omega arith) v),
  e,
  refl,
)
opened_as-IsValid true false r b e v = (with_buf-IsValid r (some b) [] (omega arith) v, e, refl)
opened_as-IsValid false true r b e v =
    (with_ctrl-IsValid r (replicate 4 0) 0 refl (omega arith) v, e, refl)
opened_as-IsValid false false r b e v = (v, e, refl)

-- What a head must satisfy to be accepted.
pub check_head-none :
    (r : FrameReader) (len kind stream front : ℕ)
    → check_head r len kind stream front ≡ none
    → (front ≤ len) × (len ≤ r.max_frame_size)
unfolding check_head
check_head-none r len kind stream front e = ground arith

open-Sound :
    (r : FrameReader) (why : Option Broken) (len : ℕ) (r' : FrameReader)
    → IsValid r
    → (why ≡ none → IsValid r' × (r'.state ≡ State.payload) × (r'.left ≡ len))
    → Sound (open_or_break r why len r').0
open-Sound r (some why) len r' v h = (
  moved-IsValid r (record r { state = State.broken why }) v refl refl refl refl refl refl refl tt,
  tt,
)
open-Sound r none len r' v h =
    let (v', s, l) = h refl in
    elim (Bool-cases (len == 0)) [
      | inl e ↦
          rw e (let (w, at) = finish_frame-IsValid r' v' in (w, Ready-head (finish_frame r').0 at))
      | inr e ↦ rw e (v', rw s (ground arith))
    ]

pub start_frame-Sound : (r : FrameReader) → IsValid r → Sound (start_frame r).0
unfolding start_frame
start_frame-Sound r v =
    let len = payload_len r.head in
    let kind = get_or r.head 3 0 in
    let flags = get_or r.head 4 0 in
    let stream = stream_id r.head 5 in
    let front = front_len kind flags in
    open-Sound r (check_head r len kind stream front) len
      (opened r len kind flags stream front (is_padded kind flags)) v
      (λ e. opened_as-IsValid (kind == FrameType.headers) (kind == FrameType.goaway) _ _ refl (
        moved-IsValid r
          (record r {
            state = State.payload;
            kind = kind;
            flags = flags;
            stream = stream;
            left = len;
            front = front;
            pad_due = is_padded kind flags;
            pad = 0;
          })
          v refl refl refl refl refl refl refl (check_head-none r len kind stream front e).0))
