-- ===== src/Frame/FrameType.antt =====
-- `FrameType` of h2/frame.rs: a frame's type is a byte, and an unknown one is skipped.
use honeybeepf_llm.Prelude.{ℕ}

abbrev pub data_bytes : ℕ
data_bytes = 0

abbrev pub headers : ℕ
headers = 1

abbrev pub priority : ℕ
priority = 2

abbrev pub rst_stream : ℕ
rst_stream = 3

abbrev pub settings : ℕ
settings = 4

abbrev pub push_promise : ℕ
push_promise = 5

abbrev pub ping : ℕ
ping = 6

abbrev pub goaway : ℕ
goaway = 7

abbrev pub window_update : ℕ
window_update = 8

abbrev pub continuation : ℕ
continuation = 9
