-- ===== src/H2/Types.antt =====
-- http/h2/conn.rs: the bounds of a connection, its events, and what it is given.
use honeybeepf_llm.Prelude.{ℕ, ◌*◌, ◌^◌, Bool, Bytes}
use honeybeepf_llm.Json.{Json}
use honeybeepf_llm.Hpack.Types.{Decoder}
use honeybeepf_llm.Frame.Types.{FrameReader}
use honeybeepf_llm.H2.Stream.{Readers}

abbrev pub max_streams : ℕ
max_streams = 128

abbrev pub conn_buffer_cap : ℕ
conn_buffer_cap = 32 * 1024 * 1024

-- 300 seconds; instants count nanoseconds.
abbrev pub stream_idle : ℕ
stream_idle = 300 * 10 ^ 9

abbrev pub midjoin_conn_cap : ℕ
midjoin_conn_cap = 1024 * 1024

abbrev pub midjoin_node_cap : ℕ
midjoin_node_cap = 64 * 1024 * 1024

-- `UnparsedReason` in processor.rs.
pub data UnparsedReason : Type 0 where
  capture_lost next_request connection_closed request_too_large response_too_large : UnparsedReason
  background_unfinished headers_lost : UnparsedReason

-- `H2Gap` in processor.rs.
pub data H2Gap : Type 0 where
  no_gap : H2Gap
  skip : ℕ → H2Gap
  resync : H2Gap

pub data H2Event (U : Type 0) : Type 0 where
  detected : Bytes → H2Event U
  -- The usage, the start, and whether the host is unknown.
  recorded : U → ℕ → Bool → H2Event U
  unparsed : UnparsedReason → H2Event U
  resynced : H2Event U

pub record Dir : Type 0 where
  pub reader : FrameReader
  pub decoder : Decoder

-- `find_provider(host, path).is_some()` of the registry, and the readers of response bodies.
pub record Services (J : Json) (U : Type 0) : Type 0 where
  pub serves : Bytes → Bytes → Bool
  pub readers : Readers J U
