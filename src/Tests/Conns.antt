-- ===== src/Tests/Conns.antt =====
-- Runs of sse.rs, eventstream.rs, background.rs and http/h2, and the theorems on them at concrete inputs.
use honeybeepf_llm.Prelude.{
  ℕ, ◌+◌, ◌≡◌, refl, true, false, inl, none, some, [], ◌∷◌, ◌++◌, Bytes, bytes_eq, arith,
}
use honeybeepf_llm.Hpack.Types.{codes}
use honeybeepf_llm.Frame.Types.{preface_bytes}
use honeybeepf_llm.Frame.Invariant.{client-IsValid, server-IsValid}
use honeybeepf_llm.Text.{lines, from_utf8_lossy}
use honeybeepf_llm.ByteUtils.Search.{find_pattern}
use honeybeepf_llm.Json.{Json}
use honeybeepf_llm.Sse
use honeybeepf_llm.Sse.Split.{feed_bytes, feed-feed_bytes}
use honeybeepf_llm.EventStream.Base64.{encode, decode_base64, decode_base64-encode}
use honeybeepf_llm.EventStream.Cursor
use honeybeepf_llm.EventStream.Rounds.{IsOver, read_messages-IsOver}
use honeybeepf_llm.EventStream.Split.{feed-append}
use honeybeepf_llm.Background.Calls.{PendingCall, new_call, insert}
use honeybeepf_llm.Background.Bounds.{IsBounded, Evicts, insert-IsBounded}
use honeybeepf_llm.Prelude.Maps
use honeybeepf_llm.H2.Stream.{held, buffered}
use honeybeepf_llm.H2.Types.{H2Gap, Services}
use honeybeepf_llm.H2.Conn.{H2Conn, new, feed}
use honeybeepf_llm.H2.Budget.Feed.{ConnOk, FeedReturns, feed-Returns}
use honeybeepf_llm.H2.Budget.Node.{share, Shares, feed-Shares}
use honeybeepf_llm.H2.Budget.Wrap.{Blocks, feed-Blocks}
use honeybeepf_llm.H2.Settled.{SettlesOnce, feed-SettlesOnce}

-- Texts in place of JSON values: no text is an object.
abbrev pub texts : Json
texts = record {
  Value = Bytes;
  from_str = λ text. some text;
  chunk_delta = λ text.
      some (record { usage = some text; message = none; response = none; interaction = none });
  is_null = λ v. bytes_eq v (codes "null");
  as_str = λ v. some v;
  as_array = λ v. none;
  as_object = λ v. none;
  object = λ m. [];
  array = λ vs. [];
}

feed-feed_bytes_example :
    Sse.feed texts Sse.default (codes "data: 1\nda")
    ≡ feed_bytes texts Sse.default (codes "data: 1\nda")
feed-feed_bytes_example = feed-feed_bytes texts Sse.default (codes "data: 1\nda")

abbrev example_host : Services texts Bytes
example_host = record {
  serves = λ host path. bytes_eq host (codes "api.openai.com");
  readers = record {
    parse_response_json = λ text. some text;
    parse_response_json_value = λ v. some v;
    decode = λ coding buf. none;
  };
}

-- An event stream ends with its last line, and then its first event is the usage.
read_to_done :
    Sse.parse_sse_body texts (λ v. some v) (codes "data: 1\n\ndata: [DONE]\n") ≡ some (codes "1")
unfolding Sse.parse_sse_body lines from_utf8_lossy find_pattern
read_to_done = refl

new-ConnOk : ConnOk texts example_host new
unfolding new
new-ConnOk = record {
  client_ok = client-IsValid;
  server_ok = server-IsValid;
  accounts = record { counted = refl; within_cap = omega arith; few = omega arith; each_ok = tt };
}

feed-Returns_example :
    FeedReturns texts example_host
      (feed texts example_host true preface_bytes H2Gap.no_gap (λ n. n) new 0)
feed-Returns_example =
    feed-Returns texts example_host true preface_bytes H2Gap.no_gap (λ n. n) new 0 new-ConnOk

not_shared : 7 ≡ 7 + share (new {V = Bytes})
unfolding new
not_shared = refl

whole : H2Conn.midjoin (new {V = Bytes}) ≡ false
unfolding new
whole = refl

feed-Shares_example :
    Shares texts example_host 7
      (feed texts example_host false (0 ∷ 0 ∷ 5 ∷ []) (H2Gap.skip 4) (λ n. n) new 7)
feed-Shares_example =
    feed-Shares texts example_host false (0 ∷ 0 ∷ 5 ∷ []) (H2Gap.skip 4) (λ n. n) new 7 7 new-ConnOk
      (inl refl) (omega arith) not_shared

feed-SettlesOnce_example :
    SettlesOnce texts example_host 0
      (feed texts example_host true preface_bytes H2Gap.no_gap (λ n. n) new 0)
unfolding new
feed-SettlesOnce_example =
    feed-SettlesOnce texts example_host true preface_bytes (λ n. n) new 0 new-ConnOk whole

-- Stream 1 holds three bytes of a response.
abbrev one_response : H2Conn Bytes
one_response = record new {
  streams =
      (
        1,
        record {
          start = 0;
          last = 0;
          body = buffered [] false (123 ∷ 34 ∷ 109 ∷ []) false;
          got_data = true;
          speculative = false;
        },
      )
      ∷ [];
  buffered = 3;
}

one_response-ConnOk : ConnOk texts example_host one_response
unfolding new held
one_response-ConnOk = record {
  client_ok = client-IsValid;
  server_ok = server-IsValid;
  accounts = record {
    counted = refl;
    within_cap = omega arith;
    few = omega arith;
    each_ok = ((omega arith, λ h. cc), tt);
  };
}

feed-Blocks_example :
    Blocks texts example_host 3
      (feed texts example_host true [] H2Gap.resync (λ n. n) one_response 0)
feed-Blocks_example =
    feed-Blocks texts example_host [] (λ n. n) one_response 0 one_response-ConnOk (omega arith)

-- Every checksum is zero.
abbrev no_checksums : Cursor.Codecs texts
no_checksums = record {
  crc32 = λ bytes. 0;
  from_slice = λ bytes. some bytes;
  chunk_bytes = λ bytes. some bytes;
}

-- A message of sixteen bytes, without headers or payload.
abbrev empty_message : Bytes
empty_message = 0 ∷ 0 ∷ 0 ∷ 16 ∷ 0 ∷ 0 ∷ 0 ∷ 0 ∷ 0 ∷ 0 ∷ 0 ∷ 0 ∷ 0 ∷ 0 ∷ 0 ∷ 0 ∷ []

two_messages :
    (Cursor.read_messages texts no_checksums Cursor.default
      (empty_message ++ empty_message ++ 0 ∷ [])).1
    ≡ 0 ∷ []
unfolding Cursor.read_messages
two_messages = refl

feed-append_example :
    Cursor.feed texts no_checksums Cursor.default (empty_message ++ 0 ∷ 0 ∷ [])
    ≡ Cursor.feed texts no_checksums
        (Cursor.feed texts no_checksums Cursor.default empty_message)
        (0 ∷ 0 ∷ [])
feed-append_example = feed-append texts no_checksums Cursor.default empty_message (0 ∷ 0 ∷ [])

read_messages-IsOver_example :
    IsOver texts no_checksums
      (empty_message ++ 0 ∷ [])
      (Cursor.read_messages texts no_checksums Cursor.default (empty_message ++ 0 ∷ []))
read_messages-IsOver_example =
    read_messages-IsOver texts no_checksums Cursor.default (empty_message ++ 0 ∷ [])

decode_base64-encode_example : decode_base64 (encode (codes "Hi, all")) ≡ (codes "Hi, all", true)
decode_base64-encode_example = decode_base64-encode (codes "Hi, all") (omega arith)

abbrev a_call : PendingCall ℕ
a_call = new_call 3 12 none 5

insert-IsBounded_example :
    IsBounded (insert (codes "resp_1") a_call []).1
    × Evicts
        (codes "resp_1")
        []
        (insert (codes "resp_1") a_call []).0
        (insert (codes "resp_1") a_call []).1
    × (Maps.lookup (codes "resp_1") (insert (codes "resp_1") a_call []).1 ≡ some a_call)
insert-IsBounded_example = insert-IsBounded (codes "resp_1") a_call [] (omega arith)
