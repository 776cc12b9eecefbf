-- ===== src/Text.antt =====
-- Rust's `String::from_utf8_lossy`, `str::lines` and `str::trim`: a text is its list of characters.
pub mod Lines
use honeybeepf_llm.Prelude.{
  ℕ, zero, suc, ◌+◌, ◌*◌, ◌%◌, Bool, true, false, ◌&&◌, ◌||◌, List, [], ◌∷◌, ◌++◌, Bytes, leb, ◌==◌,
  if◌then◌else◌,
}
use honeybeepf_llm.Utf8.{Utf8, whole, bad, after, start, within}

-- Between characters, or in one with its continuation bytes due, the range of the next, and its bits.
pub data Pending : Type 0 where
  idle : Pending
  due : ℕ → ℕ → ℕ → ℕ → Pending

abbrev pub replacement : ℕ
replacement = 0xfffd

-- The bits that a first byte gives a character of so many further bytes.
abbrev pub lead_bits : ℕ → ℕ → ℕ
lead_bits zero b = b
lead_bits (suc zero) b = b % 32
lead_bits (suc (suc zero)) b = b % 16
lead_bits (suc (suc (suc n))) b = b % 8

abbrev pub begun : Utf8 → ℕ → Bytes × Pending
begun whole b = (b ∷ [], idle)
begun bad b = (replacement ∷ [], idle)
begun (after n low high) b = ([], due n low high (lead_bits n b))

abbrev pub continued : ℕ → ℕ → Bytes × Pending
continued zero bits = (bits ∷ [], idle)
continued (suc n) bits = ([], due (suc n) 0x80 0xbf bits)

abbrev pub one_less : ℕ → ℕ
one_less zero = zero
one_less (suc n) = n

abbrev pub after_bad : Bytes × Pending → Bytes × Pending
after_bad (text, next) = (replacement ∷ text, next)

-- The characters that a byte completes. A byte that cannot continue one starts the next.
unfoldable pub lossy_step : Pending → ℕ → Bytes × Pending
unfolding start
lossy_step idle b = begun (start b) b
lossy_step (due n low high bits) b =
    if within low high b
    then continued (one_less n) (bits * 64 + b % 64)
    else after_bad (begun (start b) b)

abbrev pub flush : Pending → Bytes
flush idle = []
flush (due n low high bits) = replacement ∷ []

unfoldable pub lossy_from : Pending → Bytes → Bytes
unfolding lossy_step
lossy_from p [] = flush p
lossy_from p (b ∷ bs) = (lossy_step p b).0 ++ lossy_from ((lossy_step p b).1) bs

unfoldable pub from_utf8_lossy : Bytes → Bytes
unfolding lossy_from
from_utf8_lossy bytes = lossy_from idle bytes

abbrev pub begins_line_end : Bytes → Bool
begins_line_end [] = false
begins_line_end (c ∷ cs) = c == 10

abbrev pub prepend : ℕ → List Bytes → List Bytes
prepend c [] = (c ∷ []) ∷ []
prepend c (line ∷ later) = (c ∷ line) ∷ later

-- A line end is `\n` or `\r\n`.
unfoldable pub lines : Bytes → List Bytes
lines [] = []
lines (c ∷ cs) =
    let later = lines cs in
    if c == 10 then [] ∷ later else if c == 13 && begins_line_end cs then later else prepend c later

-- Unicode's White_Space.
abbrev pub is_whitespace : ℕ → Bool
is_whitespace c =
    within 9 13 c
    || c == 32
    || c == 0x85
    || c == 0xa0
    || c == 0x1680
    || within 0x2000 0x200a c
    || c == 0x2028
    || c == 0x2029
    || c == 0x202f
    || c == 0x205f
    || c == 0x3000

unfoldable pub trim_start : Bytes → Bytes
trim_start [] = []
trim_start (c ∷ cs) = let later = trim_start cs in if is_whitespace c then later else c ∷ cs

abbrev pub keep_front : ℕ → Bytes → Bytes
keep_front c [] = if is_whitespace c then [] else c ∷ []
keep_front c (d ∷ ds) = c ∷ d ∷ ds

unfoldable pub trim_end : Bytes → Bytes
trim_end [] = []
trim_end (c ∷ cs) = keep_front c (trim_end cs)

unfoldable pub trim : Bytes → Bytes
unfolding trim_start trim_end
trim text = trim_end (trim_start text)
