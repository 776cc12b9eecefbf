-- ===== src/Tests/Processors.antt =====
-- Runs of processor.rs, and the theorems on it at concrete inputs.
use honeybeepf_llm.Prelude.{
  ◌+◌, ℕ, ◌≡◌, refl, true, false, none, some, [], ◌∷◌, Bytes, if◌then◌else◌, arith,
}
use honeybeepf_llm.Pricing.Types.{UsageInfo}
use honeybeepf_llm.Hpack.Types.{codes}
use honeybeepf_llm.ByteUtils.Search.{starts_with}
use honeybeepf_llm.Processor.Types.{
  LlmDirection, ProtocolParser, Http, Node, Call, StreamProcessor, processing_request,
  new_processor, is_llm,
}
use honeybeepf_llm.Processor.Fragment.{Fragment, enters_http2, joins_midway, handle_fragment, close}
use honeybeepf_llm.Processor.Sound.Invariant.{new-IsSound}
use honeybeepf_llm.Processor.Sound.Http2.{ReturnsSound}
use honeybeepf_llm.Processor.Sound.Fragment.{handle_fragment-ReturnsSound}
use honeybeepf_llm.Processor.Closed.{open_calls, Counts, close-Counts}
use honeybeepf_llm.Processor.Accounts.{accounted}
use honeybeepf_llm.Processor.Accounts.Handled.{writes}
use honeybeepf_llm.Processor.Accounts.Fragment.{SettlesAtMost, handle_fragment-SettlesAtMost}
use honeybeepf_llm.Prelude.Maps
use honeybeepf_llm.Events.Loop.{EventHeader, System, arrives, cleans, skip_if_foreign, run}
use honeybeepf_llm.Events.Runs.{RunsOk, run-RunsOk}
use honeybeepf_llm.Events.Filter.{skip_if_foreign-lookup}
use honeybeepf_llm.Tests.Conns.{texts}

abbrev seven_tokens : UsageInfo
seven_tokens = record {
  prompt_tokens = 3;
  completion_tokens = 4;
  cache_read_tokens = none;
  cache_write_tokens = none;
  cache_write_long_ttl_tokens = none;
  model = some (codes "m");
  service_tier = none;
  speed = none;
  inference_geo = none;
}

-- Requests begin with "POST", responses with "HTTP/1.", and each response reports seven tokens.
abbrev posts : ProtocolParser ℕ
posts = record {
  detect_request = λ buf. if starts_with buf (codes "POST") then some buf else none;
  parse_response_from = λ buf progress. (some seven_tokens, progress);
  writes_during_response = false;
}

abbrev example_http : Http
example_http = record {
  Pod = ℕ;
  json = texts;
  services = record {
    serves = λ host path. true;
    readers = record {
      parse_response_json = λ text. none;
      parse_response_json_value = λ v. none;
      decode = λ coding buf. none;
    };
  };
  Progress = ℕ;
  default_progress = 0;
  take_background = λ progress. (none, progress);
  http11 = posts;
  http2 = posts;
  retrieved_response_id = λ buf. none;
  is_complete_response = λ buf. false;
  starts_with_response_head = λ buf. starts_with buf (codes "HTTP/1.");
  is_request_head = λ buf. starts_with buf (codes "POST");
  Ends = Bytes;
  ends_start = λ buf. none;
  ends_feed = λ ends buf. (ends, false);
  ends_take = λ ends. (none, ends);
  Stream = Bytes;
  stream_start = λ buf. none;
  stream_feed = λ stream buf. (stream, false);
  stream_usage = λ stream. none;
}

abbrev a_write : Fragment
a_write = record {
  direction = LlmDirection.write_side;
  bytes = codes "POST /v1";
  offset = 0;
  len = 8;
  truncated = false;
}

abbrev at_nine : Call ℕ
at_nine = record { now = 9; clock = λ n. n; pid = 12; pod_info = none }

abbrev no_calls : Node ℕ
no_calls = record { calls = []; midjoin_bytes = 0; notes = [] }

handle_fragment-ReturnsSound_example :
    ReturnsSound example_http
      (handle_fragment example_http a_write at_nine (new_processor example_http 5) no_calls)
handle_fragment-ReturnsSound_example =
    handle_fragment-ReturnsSound example_http a_write at_nine (new_processor example_http 5)
      no_calls (new-IsSound example_http 5) (omega arith, tt)

-- A request was detected on this connection.
abbrev one_request : StreamProcessor example_http
one_request = record (new_processor example_http 5) {
  state = processing_request 5 posts;
  write_buf = codes "POST /v1";
}

one_open : open_calls example_http one_request ≡ 1
unfolding new_processor
one_open = refl

close-Counts_example :
    Counts example_http
      (open_calls example_http one_request)
      at_nine
      []
      (close example_http at_nine one_request no_calls)
close-Counts_example = close-Counts example_http at_nine one_request no_calls

abbrev a_response : Fragment
a_response = record {
  direction = LlmDirection.read_side;
  bytes = codes "HTTP/1.1 200 OK";
  offset = 0;
  len = 15;
  truncated = false;
}

not_http2 : enters_http2 example_http a_response one_request ≡ false
unfolding new_processor
not_http2 = refl

not_midway : joins_midway example_http a_response one_request ≡ false
unfolding new_processor
not_midway = refl

handle_fragment-SettlesAtMost_example :
    SettlesAtMost example_http
      (accounted example_http one_request no_calls + writes example_http LlmDirection.read_side)
      (handle_fragment example_http a_response at_nine one_request no_calls)
handle_fragment-SettlesAtMost_example =
    handle_fragment-SettlesAtMost example_http a_response at_nine one_request no_calls not_http2
      not_midway

abbrev a_header : EventHeader
a_header = record {
  pid = 12;
  timestamp = 70000;
  ssl_ptr = 4096;
  rw = 1;
  len = 8;
  offset = 0;
  is_handshake = 0;
  truncated = 0;
  closed = 0;
}

abbrev at_start : System example_http
at_start = record { streams = []; node = no_calls; classes = [] }

run-RunsOk_example : RunsOk example_http (
    run example_http
      (λ bytes. false)
      (arrives a_header (codes "POST /v1") at_nine ∷ cleans 40 ∷ [])
      at_start)
run-RunsOk_example =
    run-RunsOk example_http (λ bytes. false)
      (arrives a_header (codes "POST /v1") at_nine ∷ cleans 40 ∷ []) at_start
      ((tt, tt), (omega arith, tt))

-- One connection has a call in progress.
abbrev one_call : System example_http
one_call = record at_start { streams = (12 ∷ 4096 ∷ [], one_request) ∷ [] }

found_call : Maps.lookup (12 ∷ 4096 ∷ []) one_call.streams ≡ some one_request
found_call = refl

in_call : is_llm example_http one_request ≡ true
unfolding is_llm new_processor
in_call = refl

skip_if_foreign-lookup_example :
    Maps.lookup (12 ∷ 4096 ∷ []) (
      System.streams
        (skip_if_foreign example_http (λ bytes. true) a_header (codes "POST /v1") one_call).1)
    ≡ some one_request
skip_if_foreign-lookup_example =
    skip_if_foreign-lookup example_http (λ bytes. true) a_header (codes "POST /v1") one_call
      (12 ∷ 4096 ∷ []) one_request found_call in_call
