-- ===== src/Utf8.antt =====
-- Rust's `str` on bytes, as far as the program reads text from slices: `from_utf8`, `trim` and
-- `usize::from_str_radix` with radix 16.
use honeybeepf_llm.Prelude.{
  ℕ, zero, suc, ◌+◌, ◌-◌, ◌*◌, ◌^◌, Bool, true, false, ◌&&◌, ◌||◌, Option, none, some, [], ◌∷◌,
  ◌++◌, Bytes, ltb, leb, ◌==◌, if◌then◌else◌,
}

abbrev pub within : ℕ → ℕ → ℕ → Bool
within low high b = leb low b && leb b high

-- What a character still needs: `after n low high` is `n` continuation bytes, the first in the range.
pub data Utf8 : Type 0 where
  whole bad : Utf8
  after : ℕ → ℕ → ℕ → Utf8

-- A character's first byte, without overlong forms, surrogates and values above U+10FFFF.
unfoldable pub start : ℕ → Utf8
start b =
    if ltb b 0x80
    then whole
    else if within 0xc2 0xdf b
    then after 1 0x80 0xbf
    else if b == 0xe0
    then after 2 0xa0 0xbf
    else if b == 0xed
    then after 2 0x80 0x9f
    else if within 0xe1 0xef b
    then after 2 0x80 0xbf
    else if b == 0xf0
    then after 3 0x90 0xbf
    else if within 0xf1 0xf3 b
    then after 3 0x80 0xbf
    else if b == 0xf4
    then after 3 0x80 0x8f
    else bad

unfoldable pub next : Utf8 → ℕ → Utf8
unfolding start
next whole b = start b
next bad b = bad
next (after zero low high) b = bad
next (after (suc zero) low high) b = if within low high b then whole else bad
next (after (suc (suc n)) low high) b = if within low high b then after (suc n) 0x80 0xbf else bad

abbrev is_whole : Utf8 → Bool
is_whole whole = true
is_whole bad = false
is_whole (after n low high) = false

unfoldable pub run : Utf8 → Bytes → Utf8
unfolding next
run s [] = s
run s (b ∷ bs) = run (next s b) bs

-- `str::from_utf8(bytes).is_ok()`
unfoldable pub is_utf8 : Bytes → Bool
unfolding run
is_utf8 bytes = is_whole (run whole bytes)

-- U+FFFD.
abbrev replacement : Bytes
replacement = 0xef ∷ 0xbf ∷ 0xbd ∷ []

-- `String::from_utf8_lossy`, `pending` the bytes of the character in progress: the longest piece that
-- begins a character but does not go on is replaced, and the byte behind it begins anew.
unfoldable pub lossy_from : Utf8 → Bytes → Bytes → Bytes
unfolding next
lossy_from s pending [] = if is_whole s then [] else replacement
lossy_from s pending (b ∷ bs) =
    let anew = lossy_from whole [] bs in
    elim (next s b) [
      | whole ↦ pending ++ (b ∷ anew)
      | after n low high ↦ lossy_from (after n low high) (pending ++ (b ∷ [])) bs
      | bad ↦
          if is_whole s
          then replacement ++ anew
          else replacement ++ elim (next whole b) [
            | whole ↦ b ∷ anew
            | bad ↦ replacement ++ anew
            | after n low high ↦ lossy_from (after n low high) (b ∷ []) bs
          ]
    ]

unfoldable pub from_utf8_lossy : Bytes → Bytes
unfolding lossy_from
from_utf8_lossy bytes = lossy_from whole [] bytes

-- The characters of White_Space: one byte each, or the bytes of one.
abbrev pub is_space : ℕ → Bool
is_space b = within 9 13 b || b == 32

abbrev two_space : ℕ → ℕ → Bool
two_space a b = a == 0xc2 && (b == 0x85 || b == 0xa0)

abbrev three_space : ℕ → ℕ → ℕ → Bool
three_space a b c =
    (a == 0xe1 && b == 0x9a && c == 0x80)
    || (a == 0xe2 && b == 0x80 && (within 0x80 0x8a c || c == 0xa8 || c == 0xa9 || c == 0xaf))
    || (a == 0xe2 && b == 0x81 && c == 0x9f)
    || (a == 0xe3 && b == 0x80 && c == 0x80)

-- The bytes of the space that a text begins with; 0 if it begins with none.
abbrev pub space_front : Bytes → ℕ
space_front [] = 0
space_front (a ∷ []) = if is_space a then 1 else 0
space_front (a ∷ b ∷ []) = if is_space a then 1 else if two_space a b then 2 else 0
space_front (a ∷ b ∷ c ∷ bs) =
    if is_space a then 1 else if two_space a b then 2 else if three_space a b c then 3 else 0

-- The same of a reversed text, whose last character comes first.
abbrev pub space_back : Bytes → ℕ
space_back [] = 0
space_back (a ∷ []) = if is_space a then 1 else 0
space_back (b ∷ a ∷ []) = if is_space b then 1 else if two_space a b then 2 else 0
space_back (c ∷ b ∷ a ∷ bs) =
    if is_space c then 1 else if two_space b c then 2 else if three_space a b c then 3 else 0

abbrev pub reverse : Bytes → Bytes
reverse [] = []
reverse (b ∷ bs) = reverse bs ++ (b ∷ [])

-- Drops spaces from the front, each `due` bytes long.
unfoldable pub trim_front : (Bytes → ℕ) → ℕ → Bytes → Bytes
trim_front space due [] = []
trim_front space zero (b ∷ bs) =
    let n = space (b ∷ bs) in
    let rest = trim_front space (n - 1) bs in if n == 0 then b ∷ bs else rest
trim_front space (suc due) (b ∷ bs) = trim_front space due bs

-- `str::trim`
unfoldable pub trim : Bytes → Bytes
unfolding trim_front
trim bytes = reverse (trim_front space_back 0 (reverse (trim_front space_front 0 bytes)))

unfoldable pub hex_digit : ℕ → Option ℕ
hex_digit b =
    if within 48 57 b
    then some (b - 48)
    else if within 65 70 b
    then some (b - 55)
    else if within 97 102 b
    then some (b - 87)
    else none

-- `none` for a byte that is no digit and for a value of more than 64 bits.
unfoldable pub hex_from : ℕ → Bytes → Option ℕ
unfolding hex_digit
hex_from value [] = some value
hex_from value (b ∷ bs) = elim (hex_digit b) [
  | none ↦ none
  | some d ↦
      let rest = hex_from (value * 16 + d) bs in
      if ltb (value * 16 + d) (2 ^ 64) then rest else none
]

-- `usize::from_str_radix(text, 16).ok()`: one `+` may stand before the digits, of which there is one at least.
unfoldable pub from_hex : Bytes → Option ℕ
unfolding hex_from
from_hex [] = none
from_hex (b ∷ []) = hex_from 0 (b ∷ [])
from_hex (b ∷ c ∷ bs) = if b == 43 then hex_from 0 (c ∷ bs) else hex_from 0 (b ∷ c ∷ bs)
