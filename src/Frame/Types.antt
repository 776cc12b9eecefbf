-- ===== src/Frame/Types.antt =====
-- The types of h2/frame.rs.
use honeybeepf_llm.Prelude.{ℕ, ◌*◌, Bool, Option, List, Bytes}
use honeybeepf_llm.Hpack.Types.{codes}

-- `PREFACE`, the client connection preface.
abbrev pub preface_bytes : Bytes
preface_bytes = codes "PRI * HTTP/2.0\r\n\r\nSM\r\n\r\n"

abbrev pub default_max_frame_size : ℕ
default_max_frame_size = 16384

abbrev pub max_header_block : ℕ
max_header_block = 64 * 1024

-- The events that the reader emits.
pub data Frame : Type 0 where
  headers : ℕ → Bytes → Frame
  headers_too_large : ℕ → Frame
  data_bytes : ℕ → Bytes → Frame
  stream_end : ℕ → Frame
  reset : ℕ → Frame
  goaway : ℕ → Frame

pub data Broken : Type 0 where
  preface too_large no_stream bad_padding continuation push_promise : Broken

pub data State : Type 0 where
  preface : ℕ → State
  head payload scan : State
  broken : Broken → State

pub record Block : Type 0 where
  pub stream : ℕ
  pub end_stream : Bool
  pub too_large : Bool

pub record FrameReader : Type 0 where
  pub state : State
  pub max_frame_size : ℕ
  pub head : Bytes
  pub head_len : ℕ
  pub kind : ℕ
  pub flags : ℕ
  pub stream : ℕ
  pub left : ℕ
  pub front : ℕ
  pub pad_due : Bool
  pub pad : ℕ
  pub block : Option Block
  pub buf : Bytes
  pub ctrl : Bytes
  pub ctrl_len : ℕ
  pub scan : Bytes
  pub scan_from : ℕ

-- What a `&mut self` method that reports through `on` comes to: the reader, and the events in order.
abbrev pub Step : Type 0
Step = FrameReader × List Frame
