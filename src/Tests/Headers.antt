-- ===== src/Tests/Headers.antt =====
-- Runs of h2/hpack.rs and h2/huffman.rs, and the theorems on them at concrete inputs.
use honeybeepf_llm.Prelude.{
  ◌^◌, ◌≤◌, ◌<◌, ◌≡◌, refl, true, false, some, [], ◌∷◌, ◌++◌, Bytes, length, arith, min, ltb, ◌||◌,
}
use honeybeepf_llm.Hpack.Types.{HpackError, ok, Entry, Decoder, Run, max_table_size}
use honeybeepf_llm.Hpack.Table.{new, forget, evict, insert}
use honeybeepf_llm.Hpack.Integer.{decode_int, continue_int}
use honeybeepf_llm.Hpack.Integer.Bounds.{decode_int_takes}
use honeybeepf_llm.Hpack.Integer.RoundTrip.{encode_int, decode_int-encode_int}
use honeybeepf_llm.Hpack.Strings.{decode_string}
use honeybeepf_llm.Hpack.Strings.Bounds.{decode_string-error, decode_string_takes}
use honeybeepf_llm.Hpack.Huffman
use honeybeepf_llm.Hpack.Huffman.Encode.{bits, code_words, decode-code_words}
use honeybeepf_llm.Hpack.Huffman.Decode.{Encodes, decode-Encodes}
use honeybeepf_llm.Hpack.Huffman.Code.{code_bits, bits_of}
use honeybeepf_llm.Hpack.Table.Fit.{total, fit, evict-fit}
use honeybeepf_llm.Hpack.Table.Invariant.{IsValid, new-IsValid, insert-IsValid}
use honeybeepf_llm.Hpack.Decode
use honeybeepf_llm.Hpack.Decode.Rules.{Ends}
use honeybeepf_llm.Hpack.Decode.Progress.{decode-Ends}
use honeybeepf_llm.Hpack.Reference
use honeybeepf_llm.Hpack.Reference.Tracks.{Tracks, forget-Tracks}
use honeybeepf_llm.Hpack.Reference.Lookups.{InStep, Same}
use honeybeepf_llm.Hpack.Reference.Rules.{FollowsAt}
use honeybeepf_llm.Hpack.Reference.Blocks.{decode_follows, decode_follows-forget}

-- `:method: GET`, then `a: b` as a literal with indexing, then the entry it made.
abbrev block : Bytes
block = 0x82 ∷ 0x40 ∷ 1 ∷ 97 ∷ 1 ∷ 98 ∷ 0xbe ∷ []

abbrev table : Reference.Table
table = record { entries = []; max_size = 4096; limit = 4096 }

abbrev fresh : Run
fresh = record { decoder = new; fields = [] }

abbrev forgotten : Run
forgotten = record { decoder = forget new; fields = [] }

abbrev start : Reference.State
start = record { table = table; headers = [] }

limit_new : new.limit ≡ 4096
unfolding new
limit_new = refl

decode_follows-forget_example :
    FollowsAt Same (Decode.decode block forgotten) (Reference.decode block start)
decode_follows-forget_example =
    decode_follows-forget block new table new-IsValid limit_new (omega arith)

abbrev in_step : InStep forgotten start
in_step = record {
  table = forget-Tracks new table new-IsValid limit_new (omega arith);
  fields = tt;
}

decode_follows_example :
    FollowsAt Same (Decode.decode block forgotten) (Reference.decode block start)
decode_follows_example = decode_follows block forgotten start in_step

decode-Ends_example :
    Ends
      (λ _ t. IsValid t.decoder)
      (λ t. IsValid t.decoder × (t.decoder.forgotten ≡ true) × (t.decoder.entries ≡ []))
      (Decode.decode block fresh)
decode-Ends_example = decode-Ends block fresh new-IsValid

abbrev entry : Entry
entry = record { name = some (97 ∷ []); value = 98 ∷ [] }

insert-IsValid_example : IsValid (insert new entry)
insert-IsValid_example = insert-IsValid new entry new-IsValid

abbrev tracked : Tracks (forget new) table
tracked = forget-Tracks new table new-IsValid limit_new (omega arith)

decode_int_takes_example : (1337 < 2 ^ 32) × (1 ≤ 3) × (3 ≤ 3) × (3 ≤ 6)
unfolding decode_int continue_int
decode_int_takes_example =
    decode_int_takes (0x1f ∷ 0x9a ∷ 0x0a ∷ []) 5 {v = 1337} {used = 3} (omega arith) refl

decode_int-encode_int_example :
    decode_int (encode_int 1 1337 5 ++ (7 ∷ [])) 5 ≡ ok (1337, length (encode_int 1 1337 5))
decode_int-encode_int_example =
    decode_int-encode_int 1 1337 5 (7 ∷ []) (omega arith) (omega arith) (omega arith)

decode_string-error_example : (decode_string (2 ∷ 97 ∷ []) (98 ∷ [])).0 ≡ 98 ∷ []
unfolding decode_string decode_int
decode_string-error_example =
    decode_string-error (2 ∷ 97 ∷ []) (98 ∷ []) {e = HpackError.truncated} refl

decode_string_takes_example : (1 ≤ 2) × (2 ≤ 3)
unfolding decode_string decode_int
decode_string_takes_example = decode_string_takes (1 ∷ 97 ∷ 5 ∷ []) [] {used = 2} refl

abbrev header : Reference.Header
header = (97 ∷ [], 98 ∷ [])

-- The code of `a` is 00011, padded with three ones.
decode-code_words_example : Huffman.decode (0x1f ∷ []) [] ≡ ([] ++ (97 ∷ []), ok tt)
unfolding bits code_words code_bits bits_of
decode-code_words_example =
    decode-code_words (0x1f ∷ []) (97 ∷ []) [] 3 (omega arith) (omega arith) refl

decode_a : Huffman.decode (0x1f ∷ []) [] ≡ (97 ∷ [], ok tt)
unfolding Huffman.decode Huffman.canonical
decode_a = refl

decode-Encodes_example : (text : Bytes) × (97 ∷ [] ≡ [] ++ text) × Encodes (0x1f ∷ []) text
decode-Encodes_example = decode-Encodes (0x1f ∷ []) [] {out' = 97 ∷ []} decode_a

-- One entry of 34 bytes in a table that holds 10.
abbrev full : Decoder
full = record {
  entries = entry ∷ [];
  size = 34;
  max_size = 10;
  limit = 4096;
  forgotten = false;
  name = [];
  value = [];
}

evict-fit_example : evict full ≡ record full {
  entries = fit (min full.max_size max_table_size) full.entries;
  size = total (fit (min full.max_size max_table_size) full.entries);
  forgotten = full.forgotten || ltb max_table_size (total (fit full.max_size full.entries));
}
unfolding total
evict-fit_example = evict-fit full refl
