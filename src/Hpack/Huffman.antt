-- ===== src/Hpack/Huffman.antt =====
-- h2/huffman.rs: the HPACK Huffman code (RFC 7541 §5.2), decoded from its code lengths alone.
pub mod Code
pub mod Encode
pub mod Entries
pub mod Decode
use honeybeepf_llm.Prelude.{
  ℕ, zero, suc, ◌+◌, ◌-◌, ◌*◌, ◌/◌, ◌%◌, ◌^◌, Bool, true, false, ◌||◌, not, List, [], ◌∷◌, ◌++◌,
  Bytes, length, ltb, leb, ◌==◌, if◌then◌else◌, get_or, set, replicate,
}
use honeybeepf_llm.Hpack.Types.{Outcome, ok, err, HpackError, huffman}

-- Code length in bits of each symbol, 0 to 255 then EOS.
abbrev pub lengths : List ℕ
lengths =
    13 ∷ 23 ∷ 28 ∷ 28 ∷ 28 ∷ 28 ∷ 28 ∷ 28 ∷ 28 ∷ 24 ∷ 30 ∷ 28 ∷ 28 ∷ 30 ∷ 28 ∷ 28 ∷ 28 ∷ 28 ∷ 28
    ∷ 28 ∷ 28 ∷ 28 ∷ 30 ∷ 28 ∷ 28 ∷ 28 ∷ 28 ∷ 28 ∷ 28 ∷ 28 ∷ 28 ∷ 28 ∷ 6 ∷ 10 ∷ 10 ∷ 12 ∷ 13 ∷ 6 ∷ 8
    ∷ 11 ∷ 10 ∷ 10 ∷ 8 ∷ 11 ∷ 8 ∷ 6 ∷ 6 ∷ 6 ∷ 5 ∷ 5 ∷ 5 ∷ 6 ∷ 6 ∷ 6 ∷ 6 ∷ 6 ∷ 6 ∷ 6 ∷ 7 ∷ 8 ∷ 15 ∷ 6
    ∷ 12 ∷ 10 ∷ 13 ∷ 6 ∷ 7 ∷ 7 ∷ 7 ∷ 7 ∷ 7 ∷ 7 ∷ 7 ∷ 7 ∷ 7 ∷ 7 ∷ 7 ∷ 7 ∷ 7 ∷ 7 ∷ 7 ∷ 7 ∷ 7 ∷ 7 ∷ 7
    ∷ 7 ∷ 7 ∷ 7 ∷ 8 ∷ 7 ∷ 8 ∷ 13 ∷ 19 ∷ 13 ∷ 14 ∷ 6 ∷ 15 ∷ 5 ∷ 6 ∷ 5 ∷ 6 ∷ 5 ∷ 6 ∷ 6 ∷ 6 ∷ 5 ∷ 7 ∷ 7
    ∷ 6 ∷ 6 ∷ 6 ∷ 5 ∷ 6 ∷ 7 ∷ 6 ∷ 5 ∷ 5 ∷ 6 ∷ 7 ∷ 7 ∷ 7 ∷ 7 ∷ 7 ∷ 15 ∷ 11 ∷ 14 ∷ 13 ∷ 28 ∷ 20 ∷ 22
    ∷ 20 ∷ 20 ∷ 22 ∷ 22 ∷ 22 ∷ 23 ∷ 22 ∷ 23 ∷ 23 ∷ 23 ∷ 23 ∷ 23 ∷ 24 ∷ 23 ∷ 24 ∷ 24 ∷ 22 ∷ 23 ∷ 24
    ∷ 23 ∷ 23 ∷ 23 ∷ 23 ∷ 21 ∷ 22 ∷ 23 ∷ 22 ∷ 23 ∷ 23 ∷ 24 ∷ 22 ∷ 21 ∷ 20 ∷ 22 ∷ 22 ∷ 23 ∷ 23 ∷ 21
    ∷ 23 ∷ 22 ∷ 22 ∷ 24 ∷ 21 ∷ 22 ∷ 23 ∷ 23 ∷ 21 ∷ 21 ∷ 22 ∷ 21 ∷ 23 ∷ 22 ∷ 23 ∷ 23 ∷ 20 ∷ 22 ∷ 22
    ∷ 22 ∷ 23 ∷ 22 ∷ 22 ∷ 23 ∷ 26 ∷ 26 ∷ 20 ∷ 19 ∷ 22 ∷ 23 ∷ 22 ∷ 25 ∷ 26 ∷ 26 ∷ 26 ∷ 27 ∷ 27 ∷ 26
    ∷ 24 ∷ 25 ∷ 19 ∷ 21 ∷ 26 ∷ 27 ∷ 27 ∷ 26 ∷ 27 ∷ 24 ∷ 21 ∷ 21 ∷ 26 ∷ 26 ∷ 28 ∷ 27 ∷ 27 ∷ 27 ∷ 20
    ∷ 24 ∷ 20 ∷ 21 ∷ 22 ∷ 21 ∷ 21 ∷ 23 ∷ 22 ∷ 22 ∷ 25 ∷ 25 ∷ 24 ∷ 24 ∷ 26 ∷ 23 ∷ 26 ∷ 27 ∷ 26 ∷ 26
    ∷ 27 ∷ 27 ∷ 27 ∷ 27 ∷ 27 ∷ 28 ∷ 27 ∷ 27 ∷ 27 ∷ 27 ∷ 27 ∷ 26 ∷ 30 ∷ []

abbrev pub eos : ℕ
eos = 256

abbrev pub max_len : ℕ
max_len = 30

-- Symbols sorted by code length, then by symbol; and per length the first code, its place in
-- `symbols`, and how many codes have that length.
pub record Canonical : Type 0 where
  pub symbols : List ℕ
  pub first_code : List ℕ
  pub first_index : List ℕ
  pub count : List ℕ

-- `c.count[LENGTHS[s]] += 1` for every symbol.
unfoldable pub count_lengths : List ℕ → List ℕ → List ℕ
count_lengths [] count = count
count_lengths (len ∷ rest) count = count_lengths rest (set count len (get_or count len 0 + 1))

-- The loop over the lengths, `rounds` of them left; shifting a `u32` left drops its top bit.
unfoldable pub lay_out : ℕ → ℕ → ℕ → ℕ → Canonical → Canonical
lay_out zero code index len c = c
lay_out (suc rounds) code index len c =
    let n = get_or c.count len 0 in
    lay_out rounds ((code + n) * 2 % 2 ^ 32) (index + n) (len + 1) (record c {
      first_code = set c.first_code len code;
      first_index = set c.first_index len index;
    })

-- The loop that places the symbols; `s` is the symbol whose length is at the head of the list.
unfoldable pub place : ℕ → List ℕ → List ℕ → List ℕ → List ℕ
place s [] next symbols = symbols
place s (len ∷ rest) next symbols =
    place (s + 1) rest (set next len (get_or next len 0 + 1)) (set symbols (get_or next len 0) s)

unfoldable pub canonical : Canonical
unfolding count_lengths lay_out place
canonical =
    let c = lay_out max_len 0 0 1 (record {
      symbols = replicate 257 0;
      first_code = replicate (max_len + 1) 0;
      first_index = replicate (max_len + 1) 0;
      count = count_lengths lengths (replicate (max_len + 1) 0);
    }) in
    record c { symbols = place 0 lengths c.first_index c.symbols }

-- Between two bits: the bits of the symbol in progress, how many they are, and the bytes pushed;
-- or the error that `decode` has returned, with what it had pushed.
pub data Walk : Type 0 where
  going : ℕ → ℕ → Bytes → Walk
  failed : Bytes → Walk

-- One round of the inner loop. The shifted code has a free low bit, so `|` adds the new one.
unfoldable pub push_bit : Canonical → Walk → ℕ → Walk
push_bit c (failed out) bit = failed out
push_bit c (going code len out) bit =
    let code' = code * 2 % 2 ^ 32 + bit in
    let len' = len + 1 in
    let offset = (code' + 2 ^ 32 - get_or c.first_code len' 0) % 2 ^ 32 in
    let symbol = get_or c.symbols (get_or c.first_index len' 0 + offset) 0 in
    if ltb offset (get_or c.count len' 0)
    then (if symbol == eos then failed out else going 0 0 (out ++ (symbol % 256) ∷ []))
    else (if len' == max_len then failed out else going code' len' out)

-- `for shift in (0..8).rev()`, with `shift` bits of the byte left.
unfoldable pub push_byte : Canonical → ℕ → ℕ → Walk → Walk
push_byte c zero byte w = w
push_byte c (suc shift) byte w = push_byte c shift byte (push_bit c w (byte / 2 ^ shift % 2))

unfoldable pub push_bytes : Canonical → Bytes → Walk → Walk
push_bytes c [] w = w
push_bytes c (byte ∷ rest) w = push_bytes c rest (push_byte c 8 byte w)

-- The padding test behind the loop: up to seven bits, all ones.
unfoldable pub finish : Walk → Bytes × Outcome (Unit {0})
finish (failed out) = (out, err huffman)
finish (going code len out) =
    if ltb 7 len || not (code == 2 ^ len - 1) then (out, err huffman) else (out, ok tt)

-- Appends the decoded `input` to `out`; what an error leaves in `out` is there too.
unfoldable pub decode : Bytes → Bytes → Bytes × Outcome (Unit {0})
unfolding push_bytes push_byte push_bit finish
decode input out = finish (push_bytes canonical input (going 0 0 out))
