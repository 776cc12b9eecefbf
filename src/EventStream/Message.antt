-- ===== src/EventStream/Message.antt =====
-- http/eventstream.rs: a message's lengths and checksums, and its headers.
use honeybeepf_llm.Prelude.{
  ℕ, zero, suc, ◌+◌, ◌-◌, ◌*◌, Bool, ◌&&◌, ◌||◌, not, Option, none, some, [], ◌∷◌, Bytes, length,
  take, drop, get_or, bytes_eq, ltb, leb, ◌==◌, if◌then◌else◌,
}

abbrev pub prelude_len : ℕ
prelude_len = 12

abbrev pub crc_len : ℕ
crc_len = 4

abbrev pub max_message_len : ℕ
max_message_len = 16 * 1024 * 1024

abbrev pub header_string : ℕ
header_string = 7

pub data Frame : Type 0 where
  partial_frame broken_frame : Frame
  -- The length, the headers and the payload.
  message : ℕ → Bytes → Bytes → Frame

-- `u32::from_be_bytes` of the four bytes at a place.
unfoldable pub word : Bytes → ℕ → ℕ
word bytes at =
    get_or bytes at 0 * 16777216
    + get_or bytes (at + 1) 0 * 65536
    + get_or bytes (at + 2) 0 * 256
    + get_or bytes (at + 3) 0

-- `crc32` stands for flate2's checksum.
module _ (crc32 : Bytes → ℕ) where
  -- The message of this length, once it has arrived.
  unfoldable pub checked_message : Bytes → ℕ → ℕ → Frame
  unfolding word
  checked_message buf total headers_len =
      let checked = take (total - crc_len) buf in
      let body = drop prelude_len checked in
      if crc32 checked == word buf (total - crc_len)
      then message total (take headers_len body) (drop headers_len body)
      else broken_frame

  unfoldable pub prelude_ok : Bytes → Bool
  unfolding word
  prelude_ok buf =
      crc32 (take 8 buf) == word buf 8
      && leb (prelude_len + crc_len) (word buf 0)
      && leb (word buf 0) max_message_len
      && leb (word buf 4) (word buf 0 - prelude_len - crc_len)

  unfoldable pub next_message : Bytes → Frame
  unfolding word checked_message prelude_ok
  next_message buf =
      if ltb (length buf) prelude_len
      then partial_frame
      else if not (prelude_ok buf)
      then broken_frame
      else if ltb (length buf) (word buf 0)
      then partial_frame
      else checked_message buf (word buf 0) (word buf 4)

-- The length of a header's value by its kind; `none` where the function returns `None`.
abbrev pub value_len : ℕ → Bytes → Option ℕ
value_len kind rest =
    if kind == 0 || kind == 1
    then some 0
    else if kind == 2
    then some 1
    else if kind == 3
    then some 2
    else if kind == 4
    then some 4
    else if kind == 5 || kind == 8
    then some 8
    else if kind == 9
    then some 16
    else if kind == 6 || kind == header_string
    then (if ltb (length rest) 2
        then none
        else some (2 + (get_or rest 0 0 * 256 + get_or rest 1 0)))
    else none

-- A header's key, kind and value, with what follows.
pub data Split : Type 0 where
  malformed : Split
  split : Bytes → ℕ → Bytes → Bytes → Split

abbrev pub split_value : Bytes → ℕ → Bytes → Option ℕ → Split
split_value key kind rest none = malformed
split_value key kind rest (some n) =
    if ltb (length rest) n then malformed else split key kind (take n rest) (drop n rest)

abbrev pub split_kind : Bytes → Bytes → Split
split_kind key [] = malformed
split_kind key (kind ∷ rest) = split_value key kind rest (value_len kind rest)

unfoldable pub split_header : ℕ → Bytes → Split
split_header name_len rest =
    if ltb (length rest) name_len
    then malformed
    else split_kind (take name_len rest) (drop name_len rest)

-- `value.get(2..)` of a string's value, which has its length in front.
abbrev pub string_value : ℕ → Bytes → Option Bytes
string_value kind value =
    if kind == header_string
    then (if ltb (length value) 2 then none else some (drop 2 value))
    else none

-- A round takes two bytes at least, so the length bounds the rounds.
unfoldable pub header_from : ℕ → Bytes → Bytes → Option Bytes
unfolding split_header
header_from rounds [] name = none
header_from zero (name_len ∷ rest) name = none
header_from (suc rounds) (name_len ∷ rest) name = elim (split_header name_len rest) [
  | malformed ↦ none
  | split key kind value rest' ↦
      let later = header_from rounds rest' name in
      if bytes_eq key name then string_value kind value else later
]

unfoldable pub header : Bytes → Bytes → Option Bytes
unfolding header_from
header headers name = header_from (length headers) headers name
