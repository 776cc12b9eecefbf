-- ===== src/Hpack/Integer/RoundTrip.antt =====
-- `decode_int` against the encoder that RFC 7541 §5.1 gives.
use honeybeepf_llm.Prelude.{
  ℕ, zero, suc, ◌+◌, ◌-◌, ◌*◌, ◌/◌, ◌%◌, ◌^◌, ◌≤◌, ◌<◌, ◌≡◌, ap, ◌∙◌, [], ◌∷◌, ◌++◌, Bytes, length,
  ltb, if◌then◌else◌, arith, low_seven, top_bit, mask_byte,
}
use native.Mathlib.Nat.{mod-eq_of_lt, mul-add-mod_self_right, pow-suc}
use native.Mathlib.Numerals.{towards_suc}
use honeybeepf_llm.Hpack.Types.{ok}
use honeybeepf_llm.Hpack.Integer.{decode_int, continue_int}

-- Seven-bit groups, least significant first, the top bit set on all but the last; `k` bounds how
-- many follow the first.
unfoldable pub groups : ℕ → ℕ → Bytes
groups zero w = w ∷ []
groups (suc k) w =
    let more = groups k (w / 128) in if ltb w 128 then w ∷ [] else (w % 128 + 128) ∷ more

-- An integer behind the bits `high` of its first byte.
unfoldable pub encode_int : ℕ → ℕ → ℕ → Bytes
encode_int high v prefix =
    let max = 2 ^ prefix - 1 in
    if ltb v max
    then (high * 2 ^ prefix + v) ∷ []
    else (high * 2 ^ prefix + max) ∷ groups 4 (v - max)

pow_seven : (n : ℕ) → 2 ^ n * 128 ≡ 2 ^ (n + 7)
pow_seven n = simp towards_suc (omega arith)

-- The seven low bits of a number and the others, at their places from bit `n` on.
group_value : (n v : ℕ) → 2 ^ (n + 7) * (v / 128) + 2 ^ n * (v % 128) ≡ v * 2 ^ n
group_value n v =
    let whole : (v / 128 * 128 + v % 128) * 2 ^ n ≡ v * 2 ^ n = ap (λ k. k * 2 ^ n) (omega arith) in
    rw⁻¹ (pow_seven n) (omega (arith, whole))

next_shift : (j : ℕ) → 7 * (suc j + 1 - 1) ≡ 7 * (suc j - 1) + 7
next_shift j = omega arith

continue_last :
    (k len j acc w : ℕ) (rest : Bytes)
    → w < 128
    → acc + w * 2 ^ (7 * (suc j - 1)) < 2 ^ 32
    → continue_int (suc k) len (suc j) acc (w ∷ rest)
      ≡ ok (acc + w * 2 ^ (7 * (suc j - 1)), suc j + 1)
unfolding continue_int
continue_last k len j acc w rest h fits = ground (arith, low_seven w, top_bit w)

continue_group :
    (k len j acc g : ℕ) (rest : Bytes)
    → g < 128
    → continue_int (suc k) len (suc j) acc ((g + 128) ∷ rest)
      ≡ continue_int k len (suc j + 1) (acc + g * 2 ^ (7 * (suc j - 1))) rest
unfolding continue_int
continue_group k len j acc g rest h = ground (arith, low_seven (g + 128), top_bit (g + 128))

continue_groups :
    (k len j acc w : ℕ) (rest : Bytes)
    → w < 128 ^ suc k
    → acc + w * 2 ^ (7 * (suc j - 1)) < 2 ^ 32
    → continue_int (suc k) len (suc j) acc (groups k w ++ rest)
      ≡ ok (acc + w * 2 ^ (7 * (suc j - 1)), suc j + length (groups k w))
unfolding groups
continue_groups zero len j acc w rest h fits = continue_last zero len j acc w rest h fits
continue_groups (suc k) len j acc w rest h fits = ground (
  arith,
  continue_last (suc k) len j acc w rest,
  group_value (7 * (suc j - 1)) w,
  next_shift j,
  continue_group (suc k) len j acc (w % 128) (groups k (w / 128) ++ rest),
  continue_groups k len (suc j) (acc + w % 128 * 2 ^ (7 * (suc j - 1))) (w / 128) rest
      (omega arith),
)

pow-pos : (p : ℕ) → 0 < 2 ^ p
pow-pos zero = omega arith
pow-pos (suc p) = simp pow-suc (omega (arith, pow-pos p))

mod_high : (h p x : ℕ) → x < p → (h * p + x) % p ≡ x
mod_high h p x lt = mul-add-mod_self_right h p x ∙ mod-eq_of_lt lt

-- For a prefix of at most 8 bits and high bits that fit above it in a byte, `decode_int` reads
-- back every value below 2^32 that RFC 7541's encoder wrote, whatever follows, and reports the
-- bytes that the encoding takes.
pub decode_int-encode_int :
    (high v prefix : ℕ) (rest : Bytes)
    → v < 2 ^ 32
    → prefix ≤ 8
    → high * 2 ^ prefix + 2 ^ prefix ≤ 256
    → decode_int (encode_int high v prefix ++ rest) prefix
      ≡ ok (v, length (encode_int high v prefix))
unfolding decode_int encode_int
decode_int-encode_int high v prefix rest hv hp hh = ground (
  arith,
  pow-pos prefix,
  mod_high high (2 ^ prefix) v,
  mod_high high (2 ^ prefix) (2 ^ prefix - 1),
  mask_byte prefix (high * 2 ^ prefix + v),
  mask_byte prefix (high * 2 ^ prefix + (2 ^ prefix - 1)),
  continue_groups 4 (suc (length (groups 4 (v - (2 ^ prefix - 1)) ++ rest))) 0 (2 ^ prefix - 1)
      (v - (2 ^ prefix - 1)) rest,
)
