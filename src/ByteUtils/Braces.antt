-- ===== src/ByteUtils/Braces.antt =====
-- byte_utils.rs: balanced JSON objects in an HTTP/2 byte stream.
use honeybeepf_llm.Prelude.{
  ℕ, zero, suc, ◌+◌, ◌-◌, Bool, true, false, not, ◌&&◌, Option, none, some, List, [], ◌∷◌, Bytes,
  length, take, drop, ◌==◌, if◌then◌else◌,
}
use honeybeepf_llm.Utf8.{from_utf8_lossy}
use honeybeepf_llm.Chunked.Walk.{position}

-- A depth, which an unopened brace takes below zero.
pub data ℤ : Type 0 where
  pos negsuc : ℕ → ℤ

abbrev pub up : ℤ → ℤ
up (pos n) = pos (suc n)
up (negsuc zero) = pos zero
up (negsuc (suc n)) = negsuc n

abbrev pub down : ℤ → ℤ
down (pos (suc n)) = pos n
down (pos zero) = negsuc zero
down (negsuc n) = negsuc (suc n)

abbrev pub is_zero : ℤ → Bool
is_zero (pos zero) = true
is_zero _ = false

-- The bytes from index `i` on; the index of the brace that closes the first one.
unfoldable pub balanced_from : ℕ → ℤ → Bool → Bool → Bytes → Option ℕ
balanced_from i depth in_string escape [] = none
balanced_from i depth in_string true (b ∷ bs) = balanced_from (i + 1) depth in_string false bs
balanced_from i depth in_string false (b ∷ bs) =
    let escaped = balanced_from (i + 1) depth in_string true bs in
    let quoted = balanced_from (i + 1) depth (not in_string) false bs in
    let same = balanced_from (i + 1) depth in_string false bs in
    let opened = balanced_from (i + 1) (up depth) in_string false bs in
    let closed = balanced_from (i + 1) (down depth) in_string false bs in
    if b == 92 && in_string
    then escaped
    else if b == 34
    then quoted
    else if in_string
    then same
    else if b == 123
    then opened
    else if b == 125
    then if is_zero (down depth) then some i else closed
    else same

unfoldable pub find_balanced_brace : Bytes → ℕ → Option ℕ
unfolding balanced_from
find_balanced_brace bytes start = balanced_from start (pos zero) false false (drop start bytes)

-- `text[start..=end]`
abbrev pub slice : Bytes → ℕ → ℕ → Bytes
slice text start end = take (end + 1 - start) (drop start text)

-- One round of either loop: no brace is left, or the search goes on, behind an object if there is one.
pub data Search : Type 0 where
  over : Search
  at : Option Bytes → ℕ → Search

unfoldable pub search_round : Bytes → ℕ → Search
unfolding position find_balanced_brace
search_round text search_pos = elim (position 123 (drop search_pos text)) [
  | none ↦ over
  | some offset ↦ elim (find_balanced_brace text (search_pos + offset)) [
    | some end ↦ at (some (slice text (search_pos + offset) end)) (end + 1)
    | none ↦ at none (search_pos + offset + 1)
  ]
]

-- Each round moves on by a byte at least, so the text's length bounds the rounds.
unfoldable pub all_from : ℕ → Bytes → ℕ → List Bytes
unfolding search_round
all_from zero text search_pos = []
all_from (suc rounds) text search_pos = elim (search_round text search_pos) [
  | over ↦ []
  | at none next ↦ all_from rounds text next
  | at (some object) next ↦ object ∷ all_from rounds text next
]

unfoldable pub extract_h2_json_all : Bytes → List Bytes
unfolding all_from from_utf8_lossy
extract_h2_json_all buffer = let text = from_utf8_lossy buffer in all_from (length text + 1) text 0

unfoldable pub nth_from : ℕ → Bytes → ℕ → ℕ → ℕ → Bytes
unfolding search_round
nth_from zero text search_pos n count = []
nth_from (suc rounds) text search_pos n count = elim (search_round text search_pos) [
  | over ↦ []
  | at none next ↦ nth_from rounds text next n count
  | at (some object) next ↦
      let later = nth_from rounds text next n (count + 1) in if count == n then object else later
]

unfoldable pub extract_h2_json_nth : Bytes → ℕ → Bytes
unfolding nth_from from_utf8_lossy
extract_h2_json_nth buffer n =
    let text = from_utf8_lossy buffer in nth_from (length text + 1) text 0 n 0

unfoldable pub extract_h2_json_payload : Bytes → Bytes
unfolding extract_h2_json_nth
extract_h2_json_payload buffer = extract_h2_json_nth buffer 0
