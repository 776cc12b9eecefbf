-- ===== src/Hpack/Strings.antt =====
-- `decode_string` of h2/hpack.rs: string literals (RFC 7541 §5.2).
pub mod Bounds
use honeybeepf_llm.Prelude.{
  ℕ, zero, suc, ◌+◌, ◌≤◌, ◌<◌, ◌≡◌, refl, ◌∙◌, ap, ◌⊎◌, inl, inr, Bool, true, false, not, List, [],
  ◌∷◌, ◌++◌, Bytes, length, take, drop, take-append, leb, ◌==◌, if◌then◌else◌, bit_and, arith,
  append-nil, length-append,
}
use honeybeepf_llm.Hpack.Types.{Outcome, ok, err, stuck, and_then, HpackError, truncated, huffman}
use honeybeepf_llm.Hpack.Integer.{decode_int}
use honeybeepf_llm.Hpack.Integer.Bounds.{decode_int_takes, decode_int-ne-stuck}
use honeybeepf_llm.Hpack.Huffman

-- `input.first().is_some_and(|b| b & 0x80 != 0)`.
abbrev pub huffman_flag : Bytes → Bool
huffman_flag [] = false
huffman_flag (first ∷ rest) = not (bit_and first 0x80 == 0)

-- After a failed Huffman decode `out` is cut back to its length before.
abbrev pub append_huffman : Bytes × Outcome (Unit {0}) → Bytes → ℕ → Bytes × Outcome ℕ
append_huffman (out', ok _) out end = (out', ok end)
append_huffman (out', err e) out end = (take (length out) out', err e)
append_huffman (out', stuck) out end = (take (length out) out', stuck)

-- The bytes of the literal are those from `used` up to `end`.
abbrev pub append_literal : Bool → Bytes → Bytes → ℕ → ℕ → Bytes × Outcome ℕ
append_literal coded input out len used =
    let end = used + len in
    let bytes = take len (drop used input) in
    if leb end (length input)
    then (if coded
        then append_huffman (Huffman.decode bytes out) out end
        else (out ++ bytes, ok end))
    else (out, err truncated)

-- The length and what follows; the pair is `out` afterwards and the bytes that the literal took.
abbrev pub with_length : Bool → Bytes → Bytes → Outcome (ℕ × ℕ) → Bytes × Outcome ℕ
with_length coded input out (ok (len, used)) = append_literal coded input out len used
with_length coded input out (err e) = (out, err e)
with_length coded input out stuck = (out, stuck)

unfoldable pub decode_string : Bytes → Bytes → Bytes × Outcome ℕ
decode_string input out = with_length (huffman_flag input) input out (decode_int input 7)
