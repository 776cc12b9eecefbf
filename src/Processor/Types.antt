-- ===== src/Processor/Types.antt =====
-- processor.rs: the state of a connection, what is noted of its calls, and the parsers it works with.
use honeybeepf_llm.Prelude.{ℕ, ◌*◌, Bool, Option, none, List, [], Bytes}
use honeybeepf_llm.Prelude.Maps.{Map}
use honeybeepf_llm.Pricing.Types.{UsageInfo}
use honeybeepf_llm.Json.{Json}
use honeybeepf_llm.Background.Calls.{PendingCall}
use honeybeepf_llm.H2.Types.{H2Gap, UnparsedReason, Services}
use honeybeepf_llm.H2.Conn.{H2Conn}

abbrev pub max_request_buffer_size : ℕ
max_request_buffer_size = 8 * 1024 * 1024

abbrev pub detection_buffer_threshold : ℕ
detection_buffer_threshold = 4096

abbrev pub max_ssl_buf_size : ℕ
max_ssl_buf_size = 4096

abbrev pub max_ssl_capture : ℕ
max_ssl_capture = max_ssl_buf_size * 4

-- `LlmDirection` of the common crate.
pub data LlmDirection : Type 0 where
  read_side write_side handshake unknown : LlmDirection

abbrev pub is_read : LlmDirection → Bool
is_read LlmDirection.read_side = Bool.true
is_read _ = Bool.false

abbrev pub is_write : LlmDirection → Bool
is_write LlmDirection.write_side = Bool.true
is_write _ = Bool.false

unfoldable pub capture_limit : LlmDirection → ℕ
capture_limit LlmDirection.read_side = max_ssl_capture
capture_limit _ = max_ssl_buf_size

-- `BackgroundState` of body.rs.
pub data BackgroundState : Type 0 where
  running : Bytes → BackgroundState
  ended cancelled : BackgroundState

-- The trait `ProtocolParser`, over the type of what earlier reads left.
pub record ProtocolParser (P : Type 0) : Type 0 where
  pub detect_request : Bytes → Option Bytes
  pub parse_response_from : Bytes → P → Option UsageInfo × P
  pub writes_during_response : Bool

-- What the processor is given by the modules under http/, and the pod's type.
pub record Http : Type 1 where
  pub Pod : Type 0
  pub json : Json
  pub services : Services json UsageInfo
  -- `ResponseProgress`
  pub Progress : Type 0
  pub default_progress : Progress
  pub take_background : Progress → Option BackgroundState × Progress
  pub http11 : ProtocolParser Progress
  pub http2 : ProtocolParser Progress
  -- Of `Http11Parser`.
  pub retrieved_response_id : Bytes → Option Bytes
  pub is_complete_response : Bytes → Bool
  pub starts_with_response_head : Bytes → Bool
  pub is_request_head : Bytes → Bool
  -- `JsonEnds`, its usage taken out.
  pub Ends : Type 0
  pub ends_start : Bytes → Option Ends
  pub ends_feed : Ends → Bytes → Ends × Bool
  pub ends_take : Ends → Option UsageInfo × Ends
  -- `SseStream`
  pub Stream : Type 0
  pub stream_start : Bytes → Option Stream
  pub stream_feed : Stream → Bytes → Stream × Bool
  pub stream_usage : Stream → Option UsageInfo

pub data Outcome : Type 0 where
  pending recorded deferred : Outcome
  unparsed : UnparsedReason → Outcome

-- One line of the metrics: what `record_llm_request` and the other exports are called with.
pub data Note (Pod : Type 0) : Type 0 where
  -- The usage, the start, the process and the pod.
  request : UsageInfo → ℕ → ℕ → Option Pod → Note Pod
  unparsed_call : UnparsedReason → ℕ → Option Pod → Note Pod
  h2_midjoin h2_resynced : Option Pod → Note Pod

-- What all connections share: the background calls, `MIDJOIN_NODE_BYTES` and the metrics.
pub record Node (Pod : Type 0) : Type 0 where
  pub calls : Map (PendingCall Pod)
  pub midjoin_bytes : ℕ
  pub notes : List (Note Pod)

-- What comes with a fragment: the instant, those of a connection's feed, the process and its pod.
pub record Call (Pod : Type 0) : Type 0 where
  pub now : ℕ
  pub clock : ℕ → ℕ
  pub pid : ℕ
  pub pod_info : Option Pod

module _ (H : Http) where
  pub data ProcessorState : Type 0 where
    detecting : ProcessorState
    processing_request processing_response : ℕ → ProtocolParser H.Progress → ProcessorState
    http2 : H2Conn H.json.Value → ProcessorState
    finished : ProcessorState

  pub data PastLimit : Type 0 where
    json_ends : H.Ends → PastLimit
    sse : H.Stream → PastLimit

  pub record StreamProcessor : Type 0 where
    pub state : ProcessorState
    pub write_buf : Bytes
    pub read_buf : Bytes
    pub read_progress : H.Progress
    pub past_limit : Option PastLimit
    pub last_activity : ℕ
    pub frag_next : ℕ
    pub frag_dir : LlmDirection
    pub next_request : Option (ℕ × ℕ)
    pub continuation : Option Bytes
    pub h2_gap_client : H2Gap
    pub h2_gap_server : H2Gap

  -- `StreamProcessor::new` at the instant `now`.
  unfoldable pub new_processor : ℕ → StreamProcessor
  new_processor now = record {
    state = detecting;
    write_buf = [];
    read_buf = [];
    read_progress = H.default_progress;
    past_limit = none;
    last_activity = now;
    frag_next = 0;
    frag_dir = LlmDirection.unknown;
    next_request = none;
    continuation = none;
    h2_gap_client = H2Gap.no_gap;
    h2_gap_server = H2Gap.no_gap;
  }

  abbrev pub is_llm_state : ProcessorState → Bool
  is_llm_state detecting = Bool.false
  is_llm_state finished = Bool.false
  is_llm_state _ = Bool.true

  unfoldable pub is_llm : StreamProcessor → Bool
  is_llm p = is_llm_state p.state
