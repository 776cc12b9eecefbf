-- ===== src/Hpack/Integer/Bounds.antt =====
-- How much `decode_int` reads, and how large its result is.
use honeybeepf_llm.Prelude.{
  ℕ, zero, suc, ◌+◌, ◌-◌, ◌*◌, ◌^◌, ◌≤◌, ◌<◌, ◌≡◌, ◌≢◌, [], ◌∷◌, Bytes, length, bit_and, arith,
}
use honeybeepf_llm.Hpack.Types.{ok, stuck}
use honeybeepf_llm.Hpack.Integer.{decode_int, continue_int}

continue_int_takes :
    (rounds len i value : ℕ) (bytes : Bytes) {v used : ℕ}
    → continue_int rounds len i value bytes ≡ ok (v, used)
    → (v < 2 ^ 32) × (i < used) × (used ≤ i + length bytes) × (used ≤ i + rounds)
unfolding continue_int
continue_int_takes zero len i value bytes e = ground arith
continue_int_takes (suc rounds) len i value [] e = ground arith
continue_int_takes (suc rounds) len i value (byte ∷ bytes) {v} {used} e = ground (
  arith,
  continue_int_takes rounds len (i + 1) (value + bit_and byte 0x7f * 2 ^ (7 * (i - 1))) bytes
      {v = v} {used = used},
)

pow-le : (p : ℕ) → p ≤ 8 → 2 ^ p ≤ 256
pow-le zero h = omega arith
pow-le (suc zero) h = omega arith
pow-le (suc (suc zero)) h = omega arith
pow-le (suc (suc (suc zero))) h = omega arith
pow-le (suc (suc (suc (suc zero)))) h = omega arith
pow-le (suc (suc (suc (suc (suc zero))))) h = omega arith
pow-le (suc (suc (suc (suc (suc (suc zero)))))) h = omega arith
pow-le (suc (suc (suc (suc (suc (suc (suc zero))))))) h = omega arith
pow-le (suc (suc (suc (suc (suc (suc (suc (suc zero)))))))) h = omega arith
pow-le (suc (suc (suc (suc (suc (suc (suc (suc (suc n))))))))) h = absurd (omega arith)

-- Where `decode_int` succeeds with a prefix of at most 8 bits, the value is below 2^32 and the
-- bytes it took are one at least, six at most, and no more than the input has.
pub decode_int_takes :
    (input : Bytes) (prefix : ℕ) {v used : ℕ}
    → prefix ≤ 8
    → decode_int input prefix ≡ ok (v, used)
    → (v < 2 ^ 32) × (1 ≤ used) × (used ≤ length input) × (used ≤ 6)
unfolding decode_int
decode_int_takes [] prefix h e = ground arith
decode_int_takes (first ∷ rest) prefix {v} {used} h e = ground (
  arith,
  pow-le prefix h,
  continue_int_takes 5 (length (first ∷ rest)) 1 (bit_and first (2 ^ prefix - 1)) rest {v = v}
      {used = used},
)

pub continue_int-ne-stuck :
    (rounds len i value : ℕ) (bytes : Bytes) → continue_int rounds len i value bytes ≢ stuck
unfolding continue_int
continue_int-ne-stuck zero len i value bytes = ground arith
continue_int-ne-stuck (suc rounds) len i value [] = ground arith
continue_int-ne-stuck (suc rounds) len i value (byte ∷ bytes) = ground (
  arith,
  continue_int-ne-stuck rounds len (i + 1) (value + bit_and byte 0x7f * 2 ^ (7 * (i - 1))) bytes,
)

pub decode_int-ne-stuck : (input : Bytes) (prefix : ℕ) → decode_int input prefix ≢ stuck
unfolding decode_int
decode_int-ne-stuck [] prefix = ground arith
decode_int-ne-stuck (first ∷ rest) prefix =
    ground (
      arith,
      continue_int-ne-stuck 5 (length (first ∷ rest)) 1 (bit_and first (2 ^ prefix - 1)) rest,
    )
