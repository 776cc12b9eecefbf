-- ===== src/Lib.antt =====
-- The verification library of honeybeepf-llm, an eBPF agent that reads LLM calls out of the traffic
-- that a host encrypts.
--
-- The kernel probes send the plaintext of SSL calls to userspace, less the connections that the class
-- in an SSL_CLASS entry drops. Userspace takes a connection as HTTP/1.1 or HTTP/2: the frame reader cuts
-- one direction's bytes into header blocks and data, the HPACK decoder turns header blocks into fields,
-- the chunk walk follows HTTP/1.1 bodies. A connection's streams gather response bodies, and event
-- streams are read as they pass. What usage a response reports is priced by the price table.
-- Paths below are from the repository's root, under honeybeepf-llm/.
--
-- Prelude: names of the libraries, Boolean tests on native numbers, lists with native lengths, bits.
-- Hpack (honeybeepf-llm-core/src/h2/hpack.rs and huffman.rs): a decoder is the record Decoder; the
--   methods of `impl Decoder` are functions of the same names in Hpack/Table and Hpack/Decode, in a
--   monad M that threads the decoder and the fields passed to the callback. Hpack/Integer and
--   Hpack/Strings are decode_int and decode_string, Hpack/Huffman the canonical code. Hpack/Reference
--   is the decoder that RFC 7541 prescribes; Tracks relates the two tables.
-- Frame (honeybeepf-llm-core/src/h2/frame.rs): a reader is the record FrameReader; Frame/Heads has the
--   constructors, start_frame, check_head and finish_frame, Frame/Payload the payload, Frame/Scan the
--   re-anchoring, Frame/Read the loop. Frames passed to the callback are returned as a list. Frame/Runs
--   tells on the bytes what a run of valid heads is, apart from the code of the scan.
-- H2 (honeybeepf-llm/src/probes/builtin/llm/http/h2): H2/Stream is stream.rs, H2/StreamMap the BTreeMap of
--   streams; H2/Types, H2/Blocks, H2/Frames and H2/Conn are conn.rs. What on_frame changes through its
--   arguments is the record Feeding, with the events passed to the callback as a list; feed also takes
--   and returns MIDJOIN_NODE_BYTES. H2/Budget is about the bytes that are counted.
-- Sse (http/sse.rs beside it), over Text, which is what Rust's str gives it, and Json, what serde_json does.
-- EventStream (http/eventstream.rs): Message is next_message and header, Base64 is decode_base64, Cursor
--   the methods of EventStreamCursor.
-- Background (background.rs in llm): the map of BackgroundCalls as a list of its entries.
-- Processor (processor.rs in llm): the record StreamProcessor with a function for each method, which takes
--   and returns what connections share, the record Node: the background calls, MIDJOIN_NODE_BYTES and
--   the metrics as a list of notes. Processor/Ahead looks at the response in progress, Processor/Event is
--   handle_event, Processor/Fragment handle_fragment and close. A fragment comes with one instant, and
--   with those of H2Conn::feed. Processor/Sound is the invariant of a connection, Processor/Accounts
--   counts its calls, and Processor/Closed is its end.
-- Events (mod.rs and conn_filter.rs in llm): the record System holds the streams, what they share and the
--   kernel's SSL_CLASS map; Events/Loop has route_event, skip_if_foreign, on_event, which is the handler of
--   SSL_EVENTS, and clean_up, a round of the clean-up task. A run is a list of inputs, in the order in
--   which they take the locks.
-- Chunked (honeybeepf-llm-core/src/chunked.rs): ChunkWalk::walk a round at a time; the slices passed to
--   the callback are returned as a list. Utf8 is what Rust's str gives it. Chunked/Sent is a body in the
--   chunked coding, as a server sends it.
-- ByteUtils (honeybeepf-llm-core/src/byte_utils.rs): searches, decode_chunked_body and the
--   extraction of JSON objects.
-- JsonEnds (honeybeepf-llm/src/probes/builtin/llm/http/json_ends.rs): BodyWalk over the chunk walk, and
--   the two ends of a body that JsonEnds::feed keeps.
-- SslClass (honeybeepf-llm-common/src/ssl_class.rs): entries and their transitions; SslClass/Spec is
--   the state machine that they keep.
-- Pricing (honeybeepf-llm-core/src/pricing): rates of a model, the checks of its prices, and the cost
--   of a call. The operations on f64 are a parameter, the record Floats, and so is the test in_range
--   of a price.
--
-- Loops are structural where they go over a list or count down, and on fuel otherwise. A block of n
-- bytes gets n rounds, since each representation takes a byte; a read gets the bytes kept for a scan,
-- the input's and two more; a walk of n bytes gets 4n + 4, since a round uses a byte or leads to a
-- state with fewer idle rounds ahead; a line search and a search for objects get a round for each byte
-- and one more, as does the loop over messages; a cut line gets one for each byte of the read. What runs
-- out of fuel is `stuck` or `none`, except that read_rounds, evict_over_size, evict_over_cap, find_from,
-- all_from, nth_from, line_from, header_from and anchor_from stop with an ordinary value; each of these is
-- given no fewer rounds than it can use. usize is a 64-bit word.
--
-- Parameters stand for serde_json (the record Json), flate2's checksum, the providers' registry, what
-- body.rs and encoding.rs make of a whole body (Readers), and the parsers of HTTP/1.1 and of HTTP/2 bodies
-- that the processor calls (Http); an instant is a number.
--
-- Not modelled: JSON bodies and provider rules (values of serde_json), HTTP/1.1 exchanges above the
-- bodies (http/h1.rs), the merging of price files, the kernel programs beyond the classes, the log, and
-- the agent's I/O.
pub mod Prelude
pub mod Hpack
pub mod Frame
pub mod SslClass
pub mod Utf8
pub mod Text
pub mod Json
pub mod H2
pub mod EventStream
pub mod Background
pub mod Sse
pub mod Processor
pub mod Events
pub mod Chunked
pub mod ByteUtils
pub mod JsonEnds
pub mod Pricing
mod Tests
