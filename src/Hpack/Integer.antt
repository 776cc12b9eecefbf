-- ===== src/Hpack/Integer.antt =====
-- `decode_int` of h2/hpack.rs: prefix-coded integers (RFC 7541 §5.1).
pub mod Bounds
pub mod RoundTrip
use honeybeepf_llm.Prelude.{
  ℕ, zero, suc, ◌+◌, ◌-◌, ◌*◌, ◌^◌, ◌<◌, Bool, true, false, List, [], ◌∷◌, Bytes, length, ltb, leb,
  ◌==◌, if◌then◌else◌, bit_and,
}
use honeybeepf_llm.Hpack.Types.{Outcome, ok, err, stuck, HpackError, truncated, integer_overflow}

abbrev pub u32_max : ℕ
u32_max = 2 ^ 32 - 1

-- Behind the loop: the input ran out, or five continuation bytes did.
abbrev pub past_end : ℕ → Outcome (ℕ × ℕ)
past_end len = if ltb 5 len then err integer_overflow else err truncated

-- The loop over the continuation bytes: `rounds` of `take(5)` are left, the byte at hand is byte
-- `i` of an input of `len` bytes.
unfoldable pub continue_int : ℕ → ℕ → ℕ → ℕ → Bytes → Outcome (ℕ × ℕ)
continue_int zero len i value bytes = past_end len
continue_int (suc rounds) len i value [] = past_end len
continue_int (suc rounds) len i value (byte ∷ bytes) =
    let value' = value + bit_and byte 0x7f * 2 ^ (7 * (i - 1)) in
    let rest = continue_int rounds len (i + 1) value' bytes in
    if bit_and byte 0x80 == 0
    then (if leb value' u32_max then ok (value', i + 1) else err integer_overflow)
    else rest

-- The value, and the bytes it took.
unfoldable pub decode_int : Bytes → ℕ → Outcome (ℕ × ℕ)
decode_int [] prefix = err truncated
decode_int (first ∷ rest) prefix =
    let max = 2 ^ prefix - 1 in
    let value = bit_and first max in
    if ltb value max then ok (value, 1) else continue_int 5 (length (first ∷ rest)) 1 value rest
