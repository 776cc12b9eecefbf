-- ===== src/Tests/Bodies.antt =====
-- Runs of chunked.rs and byte_utils.rs, and the theorems on them and on h2/frame.rs at concrete inputs.
use honeybeepf_llm.Prelude.{
  arith, ◌≡◌, refl, true, some, [], ◌∷◌, ◌++◌, Bytes, is_some, get_or, take, ◌*◌, List, length, ◌≤◌,
  none,
}
use honeybeepf_llm.Chunked.Types.{ChunkState, basic}
use honeybeepf_llm.Chunked.Walk.{walk}
use honeybeepf_llm.Chunked.Ends.{UsesAtMost, walk_ends}
use honeybeepf_llm.Chunked.Seen.{seen, walk_on, concat}
use honeybeepf_llm.Chunked.Split.{walk-append}
use honeybeepf_llm.ByteUtils.Search.{find_pattern, trimmed_end, decode_chunked_body}
use honeybeepf_llm.ByteUtils.FirstMatch.{first_match, find_pattern-first_match}
use honeybeepf_llm.ByteUtils.Ends.{TrimsTo, trimmed_end-TrimsTo}
use honeybeepf_llm.ByteUtils.Decoded.{decode_chunked_body-sent}
use honeybeepf_llm.Chunked.Sent.{Chunk, sent, contents}
use honeybeepf_llm.ByteUtils.Braces.{extract_h2_json_nth, extract_h2_json_all}
use honeybeepf_llm.ByteUtils.Objects.{extract_h2_json_nth-extract_h2_json_all}
use honeybeepf_llm.JsonEnds.Walk.{start, feed, keep_all, head_keep, tail_keep, last_bytes}
use honeybeepf_llm.JsonEnds.Ends.{keep_all-last_bytes}
use honeybeepf_llm.JsonEnds.Returns.{feed-is_some}
use honeybeepf_llm.Frame.Heads.{server, resync}
use honeybeepf_llm.Frame.Types.{FrameReader}
use honeybeepf_llm.Frame.Scan.{anchor}
use honeybeepf_llm.Frame.Anchor.{FindsFirstRun, anchor-FindsFirstRun}
use honeybeepf_llm.Frame.Read.{read}
use honeybeepf_llm.Frame.Invariant.{server-IsValid, resync-IsValid}
use honeybeepf_llm.Frame.Returns.{Returns, read-Returns}

-- A chunk of three bytes cut in its data, and the rest of the body.
abbrev first_part : Bytes
first_part = 51 ∷ 13 ∷ 10 ∷ 97 ∷ []

abbrev second_part : Bytes
second_part = 98 ∷ 99 ∷ 13 ∷ 10 ∷ 48 ∷ 13 ∷ 10 ∷ 13 ∷ 10 ∷ []

walked :
    seen (walk basic ChunkState.size (first_part ++ second_part))
    ≡ some (ChunkState.ended, 13, 97 ∷ 98 ∷ 99 ∷ [])
unfolding walk basic
walked = refl

walk-append_example :
    seen (walk basic ChunkState.size (first_part ++ second_part))
    ≡ walk_on (walk basic) first_part second_part (walk basic ChunkState.size first_part)
walk-append_example = walk-append basic ChunkState.size first_part second_part

walk_ends_example : UsesAtMost 4 (walk basic ChunkState.size first_part)
walk_ends_example = walk_ends basic ChunkState.size first_part

find_pattern-first_match_example :
    find_pattern first_part (13 ∷ 10 ∷ []) ≡ first_match first_part (13 ∷ 10 ∷ [])
find_pattern-first_match_example = find_pattern-first_match first_part (13 ∷ 10 ∷ [])

trimmed_end-TrimsTo_example : TrimsTo (97 ∷ 32 ∷ 10 ∷ []) 3 (trimmed_end 3 (97 ∷ 32 ∷ 10 ∷ []))
trimmed_end-TrimsTo_example = trimmed_end-TrimsTo 3 (97 ∷ 32 ∷ 10 ∷ [])

-- The chunk "hello", its size with a leading zero, and one of ten bytes with the size "a".
abbrev hello : Chunk
hello = record { digit = 0; digits = 5 ∷ []; content = 104 ∷ 101 ∷ 108 ∷ 108 ∷ 111 ∷ [] }

abbrev letters : Chunk
letters = record {
  digit = 10;
  digits = [];
  content = 97 ∷ 98 ∷ 99 ∷ 100 ∷ 101 ∷ 102 ∷ 103 ∷ 104 ∷ 105 ∷ 106 ∷ [];
}

decode_chunked_body-sent_example :
    decode_chunked_body (sent (hello ∷ letters ∷ [])) ≡ some (contents (hello ∷ letters ∷ []))
decode_chunked_body-sent_example = decode_chunked_body-sent hello (letters ∷ []) (
  ((omega arith, (omega arith, tt)), refl, omega arith, omega arith, omega arith),
  (((omega arith, tt), refl, omega arith, omega arith, omega arith), tt),
)

read-Returns_example : Returns (read (resync server) (3 ∷ 0 ∷ 0 ∷ 0 ∷ 4 ∷ 1 ∷ 0 ∷ 0 ∷ 0 ∷ 0 ∷ []))
read-Returns_example =
    read-Returns (resync server) (3 ∷ 0 ∷ 0 ∷ 0 ∷ 4 ∷ 1 ∷ 0 ∷ 0 ∷ 0 ∷ 0 ∷ [])
      (resync-IsValid server server-IsValid)

abbrev two_objects : Bytes
two_objects = 0 ∷ 123 ∷ 34 ∷ 125 ∷ 34 ∷ 125 ∷ 1 ∷ 123 ∷ 125 ∷ 123 ∷ []

extract_h2_json_nth-extract_h2_json_all_example :
    extract_h2_json_nth two_objects 1 ≡ get_or (extract_h2_json_all two_objects) 1 []
extract_h2_json_nth-extract_h2_json_all_example =
    extract_h2_json_nth-extract_h2_json_all two_objects 1

objects : extract_h2_json_all two_objects ≡ (123 ∷ 34 ∷ 125 ∷ 34 ∷ 125 ∷ []) ∷ (123 ∷ 125 ∷ []) ∷ []
unfolding extract_h2_json_all
objects = refl

abbrev slices : List Bytes
slices = (1 ∷ 2 ∷ []) ∷ (3 ∷ []) ∷ []

keep_all-last_bytes_example :
    ((keep_all ([], []) slices).0 ≡ take head_keep (concat slices))
    × (last_bytes (keep_all ([], []) slices).1 ≡ last_bytes (concat slices))
    × (length (keep_all ([], []) slices).1 ≤ 2 * tail_keep)
keep_all-last_bytes_example = keep_all-last_bytes slices

feed-is_some_example : is_some (feed (start none) first_part) ≡ true
feed-is_some_example = feed-is_some (start none) first_part

-- Two stray bytes, then PING, SETTINGS and DATA.
abbrev scanned : FrameReader
scanned = record (resync server) {
  scan =
      3 ∷ 0 ∷ 0 ∷ 0 ∷ 0 ∷ 6 ∷ 0 ∷ 0 ∷ 0 ∷ 0 ∷ 0 ∷ 0 ∷ 0 ∷ 0 ∷ 4 ∷ 1 ∷ 0 ∷ 0 ∷ 0 ∷ 0 ∷ 0 ∷ 0 ∷ 1 ∷ 0
      ∷ 0 ∷ 0 ∷ 0 ∷ 0 ∷ 3 ∷ 9 ∷ [];
}

anchored_at : (anchor scanned).1 ≡ some 2
unfolding anchor resync server
anchored_at = refl

anchor-FindsFirstRun_example : FindsFirstRun scanned scanned.scan_from (anchor scanned)
anchor-FindsFirstRun_example = anchor-FindsFirstRun scanned
