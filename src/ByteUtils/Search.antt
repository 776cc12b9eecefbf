-- ===== src/ByteUtils/Search.antt =====
-- byte_utils.rs: `find_pattern`, `trim_trailing_whitespace` and `decode_chunked_body`.
use honeybeepf_llm.Prelude.{
  ℕ, zero, suc, ◌+◌, Bool, true, false, not, ◌&&◌, ◌||◌, Option, none, some, [], ◌∷◌, Bytes, length,
  take, drop, get_or, ◌==◌, if◌then◌else◌, is_some,
}
use honeybeepf_llm.Chunked.Types.{ChunkState, basic}
use honeybeepf_llm.Chunked.Walk.{position, walk}
use honeybeepf_llm.Chunked.Seen.{concat}

-- `haystack.starts_with(needle)`
abbrev pub starts_with : Bytes → Bytes → Bool
starts_with haystack [] = true
starts_with [] (n ∷ ns) = false
starts_with (b ∷ bs) (n ∷ ns) = (b == n) && starts_with bs ns

-- The `while` loop; each round passes a byte, so the length bounds the rounds.
unfoldable pub find_from : ℕ → Bytes → ℕ → Bytes → ℕ → Option ℕ
unfolding position
find_from zero haystack first rest from = none
find_from (suc rounds) haystack first rest from = elim (position first (drop from haystack)) [
  | none ↦ none
  | some i ↦
      let next = find_from rounds haystack first rest (from + i + 1) in
      if starts_with (drop (from + i + 1) haystack) rest then some (from + i) else next
]

unfoldable pub find_pattern : Bytes → Bytes → Option ℕ
unfolding find_from
find_pattern haystack [] = some 0
find_pattern haystack (first ∷ rest) = find_from (length haystack + 1) haystack first rest 0

abbrev pub contains_pattern : Bytes → Bytes → Bool
contains_pattern haystack needle = is_some (find_pattern haystack needle)

-- `u8::is_ascii_whitespace`
abbrev pub is_ascii_whitespace : ℕ → Bool
is_ascii_whitespace b = b == 9 || b == 10 || b == 12 || b == 13 || b == 32

-- The loop's last `end`.
unfoldable pub trimmed_end : ℕ → Bytes → ℕ
trimmed_end zero buf = zero
trimmed_end (suc end) buf =
    let shorter = trimmed_end end buf in
    if is_ascii_whitespace (get_or buf end 0) then shorter else suc end

unfoldable pub trim_trailing_whitespace : Bytes → Bytes
unfolding trimmed_end
trim_trailing_whitespace buf = take (trimmed_end (length buf) buf) buf

-- `none` is no value of the program: it stands for a walk that does not end.
unfoldable pub decode_chunked_body : Bytes → Option Bytes
unfolding find_pattern walk basic
decode_chunked_body buffer =
    if not (contains_pattern buffer (13 ∷ 10 ∷ []))
    then some buffer
    else elim (walk basic ChunkState.size buffer) [
      | none ↦ none
      | some (s, used, slices) ↦
          if length (concat slices) == 0 then some buffer else some (concat slices)
    ]
