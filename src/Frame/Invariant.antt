-- ===== src/Frame/Invariant.antt =====
-- What stays true of a reader: its arrays keep their sizes, its buffers stay bounded, and no
-- counter of a payload goes below zero.
use honeybeepf_llm.Prelude.{
  ℕ, ◌+◌, ◌-◌, ◌*◌, ◌^◌, ◌≤◌, ◌<◌, ◌≡◌, refl, Bool, true, false, ◌&&◌, Option, none, some, [], ◌++◌,
  Bytes, length, take, drop, length-append, length-take, length-drop, ◌==◌, if◌then◌else◌, arith,
  ==→eq,
}
use honeybeepf_llm.Frame.Types.{
  FrameReader, State, Block, Step, max_header_block, default_max_frame_size,
}
use honeybeepf_llm.Frame.FrameType
use honeybeepf_llm.Frame.Heads.{
  server, client, set_max_frame_size, resync, skip_gap, finish_frame, end_block, is_payload,
}
use honeybeepf_llm.Frame.Payload.{copy_at}

abbrev pub StateOk : State → ℕ → ℕ → Type 0
StateOk State.payload front left = front ≤ left
StateOk (State.preface seen) front left = seen < 24
StateOk _ front left = Unit

pub record IsValid (r : FrameReader) : Type 0 where
  pub head_size : length r.head ≡ 9
  pub head_len_lt : r.head_len < 9
  pub ctrl_size : length r.ctrl ≡ 4
  pub ctrl_len_le : r.ctrl_len ≤ 4
  pub buf_le : length r.buf ≤ max_header_block
  pub scan_le : length r.scan ≤ 256 * 1024
  pub frame_size_ge : default_max_frame_size ≤ r.max_frame_size
  pub frame_size_le : r.max_frame_size ≤ 2 ^ 24 - 1
  pub state_ok : StateOk r.state r.front r.left

pub server-IsValid : IsValid server
unfolding server
server-IsValid = omega arith

pub client-IsValid : IsValid client
unfolding client
client-IsValid = omega arith

pub set_max_frame_size-IsValid :
    (r : FrameReader) (size : ℕ) → IsValid r → IsValid (set_max_frame_size r size)
unfolding set_max_frame_size
set_max_frame_size-IsValid r size v = record {
  head_size = v.head_size;
  head_len_lt = v.head_len_lt;
  ctrl_size = v.ctrl_size;
  ctrl_len_le = v.ctrl_len_le;
  buf_le = v.buf_le;
  scan_le = v.scan_le;
  frame_size_ge = omega arith;
  frame_size_le = omega arith;
  state_ok = v.state_ok;
}

pub resync-IsValid : (r : FrameReader) → IsValid r → IsValid (resync r)
unfolding resync
resync-IsValid r v = record {
  head_size = v.head_size;
  head_len_lt = v.head_len_lt;
  ctrl_size = v.ctrl_size;
  ctrl_len_le = v.ctrl_len_le;
  buf_le = omega arith;
  scan_le = omega arith;
  frame_size_ge = v.frame_size_ge;
  frame_size_le = v.frame_size_le;
  state_ok = tt;
}

-- The same reader in a state that needs nothing more.
pub moved-IsValid :
    (r r' : FrameReader)
    → IsValid r
    → r'.head ≡ r.head
    → r'.head_len ≡ r.head_len
    → r'.ctrl ≡ r.ctrl
    → r'.ctrl_len ≡ r.ctrl_len
    → r'.buf ≡ r.buf
    → r'.scan ≡ r.scan
    → r'.max_frame_size ≡ r.max_frame_size
    → StateOk r'.state r'.front r'.left
    → IsValid r'
moved-IsValid r r' v e1 e2 e3 e4 e5 e6 e7 ok = record {
  head_size = rw e1 v.head_size;
  head_len_lt = rw e2 v.head_len_lt;
  ctrl_size = rw e3 v.ctrl_size;
  ctrl_len_le = rw e4 v.ctrl_len_le;
  buf_le = rw e5 v.buf_le;
  scan_le = rw e6 v.scan_le;
  frame_size_ge = rw e7 v.frame_size_ge;
  frame_size_le = rw e7 v.frame_size_le;
  state_ok = ok;
}

less_left :
    (s : State) (front left n : ℕ) → front ≡ 0 → StateOk s front left → StateOk s front (left - n)
less_left State.payload front left n e h = omega arith
less_left (State.preface seen) front left n e h = h
less_left State.head front left n e h = tt
less_left State.scan front left n e h = tt
less_left (State.broken why) front left n e h = tt

skipped :
    (r : FrameReader) (n : ℕ) (inside : Bool)
    → (inside ≡ true → r.front ≡ 0)
    → IsValid r
    → IsValid
        (if◌then◌else◌ {A = FrameReader × Bool} inside
          (record r { left = r.left - n }, true)
          (r, false)).0
skipped r n true h v =
    moved-IsValid r (record r { left = r.left - n }) v refl refl refl refl refl refl refl
      (less_left r.state r.front r.left n (h refl) v.state_ok)
skipped r n false h v = v

inside_front : (a b c d : Bool) → (a && b && c && d) ≡ true → c ≡ true
inside_front a b c d e = ground arith

-- `skip_gap` keeps a valid reader valid, whether or not it skips the gap.
pub skip_gap-IsValid : (r : FrameReader) (n : ℕ) → IsValid r → IsValid (skip_gap r n).0
unfolding skip_gap
skip_gap-IsValid r n v =
    skipped r n _
      (λ e.
        ==→eq _ _
          (inside_front (is_payload r.state) (r.kind == FrameType.data_bytes) (r.front == 0) _ e))
      v

pub length-copy_at :
    (dest : Bytes) (at : ℕ) (src : Bytes)
    → at + length src ≤ length dest
    → length (copy_at dest at src) ≡ length dest
unfolding copy_at
length-copy_at dest at src h = omega (
  arith,
  length-append (take at dest) (src ++ drop (at + length src) dest),
  length-append src (drop (at + length src) dest),
  length-take at dest (omega arith),
  length-drop (at + length src) dest,
)

closed :
    (ends : Bool) (r : FrameReader) (b : Option Block)
    → r.state ≡ State.head
    → IsValid r
    → let (r', frames) = if◌then◌else◌ {A = Step} ends (end_block r b) (r, []) in
      IsValid r' × (r'.state ≡ State.head)
closed true r none e v = (v, e)
closed true r (some b) e v =
    (moved-IsValid r (record r { block = none }) v refl refl refl refl refl refl refl v.state_ok, e)
closed false r b e v = (v, e)

-- Ending a frame leaves a reader that waits for a head.
pub finish_frame-IsValid :
    (r : FrameReader)
    → IsValid r
    → IsValid (finish_frame r).0 × ((finish_frame r).0.state ≡ State.head)
unfolding finish_frame
finish_frame-IsValid r v =
    closed _ (record r { state = State.head }) r.block refl
      (moved-IsValid r (record r { state = State.head }) v refl refl refl refl refl refl refl tt)

pub with_buf-IsValid :
    (r : FrameReader) (b : Option Block) (bytes : Bytes)
    → length bytes ≤ max_header_block
    → IsValid r
    → IsValid (record r { block = b; buf = bytes })
with_buf-IsValid r b bytes h v = record {
  head_size = v.head_size;
  head_len_lt = v.head_len_lt;
  ctrl_size = v.ctrl_size;
  ctrl_len_le = v.ctrl_len_le;
  buf_le = h;
  scan_le = v.scan_le;
  frame_size_ge = v.frame_size_ge;
  frame_size_le = v.frame_size_le;
  state_ok = v.state_ok;
}

pub with_ctrl-IsValid :
    (r : FrameReader) (bytes : Bytes) (n : ℕ)
    → length bytes ≡ 4
    → n ≤ 4
    → IsValid r
    → IsValid (record r { ctrl = bytes; ctrl_len = n })
with_ctrl-IsValid r bytes n h k v = record {
  head_size = v.head_size;
  head_len_lt = v.head_len_lt;
  ctrl_size = h;
  ctrl_len_le = k;
  buf_le = v.buf_le;
  scan_le = v.scan_le;
  frame_size_ge = v.frame_size_ge;
  frame_size_le = v.frame_size_le;
  state_ok = v.state_ok;
}

pub with_head-IsValid :
    (r : FrameReader) (bytes : Bytes) (n : ℕ)
    → length bytes ≡ 9
    → n < 9
    → IsValid r
    → IsValid (record r { head = bytes; head_len = n })
with_head-IsValid r bytes n h k v = record {
  head_size = h;
  head_len_lt = k;
  ctrl_size = v.ctrl_size;
  ctrl_len_le = v.ctrl_len_le;
  buf_le = v.buf_le;
  scan_le = v.scan_le;
  frame_size_ge = v.frame_size_ge;
  frame_size_le = v.frame_size_le;
  state_ok = v.state_ok;
}

pub with_scan-IsValid :
    (r : FrameReader) (bytes : Bytes) (n : ℕ)
    → length bytes ≤ 256 * 1024
    → IsValid r
    → IsValid (record r { scan = bytes; scan_from = n })
with_scan-IsValid r bytes n h v = record {
  head_size = v.head_size;
  head_len_lt = v.head_len_lt;
  ctrl_size = v.ctrl_size;
  ctrl_len_le = v.ctrl_len_le;
  buf_le = v.buf_le;
  scan_le = h;
  frame_size_ge = v.frame_size_ge;
  frame_size_le = v.frame_size_le;
  state_ok = v.state_ok;
}
