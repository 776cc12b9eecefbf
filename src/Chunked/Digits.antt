-- ===== src/Chunked/Digits.antt =====
-- chunked.rs: chunk sizes in hexadecimal digits, as a size line reads them.
use honeybeepf_llm.Prelude.{
  ℕ, ◌+◌, ◌*◌, ◌^◌, ◌≤◌, ◌<◌, ◌≡◌, refl, ap, ◌∙◌, false, some, List, [], ◌∷◌, ◌++◌, Bytes, ltb,
  ◌==◌, if◌then◌else◌, arith, lt→ltb,
}
use honeybeepf_llm.Utf8.{
  is_utf8, trim, from_hex, hex_from, hex_digit, reverse, space_front, space_back, trim_front, run,
  start, next, whole,
}
use honeybeepf_llm.Chunked.Walk.{size_of}

-- A digit's character, in lower case.
abbrev pub hex_char : ℕ → ℕ
hex_char d = if ltb d 10 then 48 + d else 87 + d

abbrev pub hex_text : List ℕ → Bytes
hex_text [] = []
hex_text (d ∷ ds) = hex_char d ∷ hex_text ds

-- The number with these digits after a value.
abbrev pub number : ℕ → List ℕ → ℕ
number v [] = v
number v (d ∷ ds) = number (v * 16 + d) ds

abbrev pub AreDigits : List ℕ → Type 0
AreDigits [] = Unit
AreDigits (d ∷ ds) = (d < 16) × AreDigits ds

-- Bytes in the range of digits and letters.
abbrev pub AreChars : Bytes → Type 0
AreChars [] = Unit
AreChars (b ∷ bs) = (48 ≤ b) × (b < 103) × AreChars bs

pub hex_text-AreChars : (ds : List ℕ) → AreDigits ds → AreChars (hex_text ds)
hex_text-AreChars [] h = tt
hex_text-AreChars (d ∷ ds) (lt, h) = (ground arith, ground arith, hex_text-AreChars ds h)

hex_digit-hex_char : (d : ℕ) → d < 16 → hex_digit (hex_char d) ≡ some d
unfolding hex_digit
hex_digit-hex_char d lt = ground arith

number_ge : (v : ℕ) (ds : List ℕ) → v ≤ number v ds
number_ge v [] = omega arith
number_ge v (d ∷ ds) = omega (arith, number_ge (v * 16 + d) ds)

hex_from-hex_text :
    (v : ℕ) (ds : List ℕ)
    → AreDigits ds
    → number v ds < 2 ^ 64
    → hex_from v (hex_text ds) ≡ some (number v ds)
unfolding hex_from
hex_from-hex_text v [] h small = refl
hex_from-hex_text v (d ∷ ds) (lt, h) small =
    rw
      (
        hex_from,
        hex_digit-hex_char d lt,
        lt→ltb (v * 16 + d) (2 ^ 64) (omega (arith, number_ge (v * 16 + d) ds)),
      )
      (hex_from-hex_text (v * 16 + d) ds h small)

run-AreChars : (bs : Bytes) → AreChars bs → run whole bs ≡ whole
unfolding run next start
run-AreChars [] h = refl
run-AreChars (b ∷ bs) (low, high, h) = rw (lt→ltb b 0x80 (omega arith)) (run-AreChars bs h)

append-AreChars : (xs ys : Bytes) → AreChars xs → AreChars ys → AreChars (xs ++ ys)
append-AreChars [] ys h k = k
append-AreChars (x ∷ xs) ys (low, high, h) k = (low, high, append-AreChars xs ys h k)

reverse-AreChars : (bs : Bytes) → AreChars bs → AreChars (reverse bs)
reverse-AreChars [] h = tt
reverse-AreChars (b ∷ bs) (low, high, h) =
    append-AreChars (reverse bs) (b ∷ []) (reverse-AreChars bs h) (low, high, tt)

reverse-append : (xs : Bytes) (b : ℕ) → reverse (xs ++ (b ∷ [])) ≡ b ∷ reverse xs
reverse-append [] b = refl
reverse-append (x ∷ xs) b = rw (reverse-append xs b) refl

reverse-reverse : (bs : Bytes) → reverse (reverse bs) ≡ bs
reverse-reverse [] = refl
reverse-reverse (b ∷ bs) = reverse-append (reverse bs) b ∙ ap (◌∷◌ b) (reverse-reverse bs)

space_front_none : (bs : Bytes) → AreChars bs → space_front bs ≡ 0
space_front_none [] h = refl
space_front_none (a ∷ []) (low, high, h) = ground arith
space_front_none (a ∷ b ∷ []) (low, high, h) = ground arith
space_front_none (a ∷ b ∷ c ∷ bs) (low, high, h) = ground arith

space_back_none : (bs : Bytes) → AreChars bs → space_back bs ≡ 0
space_back_none [] h = refl
space_back_none (a ∷ []) (low, high, h) = ground arith
space_back_none (b ∷ a ∷ []) (low, high, (low', high', h)) = ground arith
space_back_none (c ∷ b ∷ a ∷ bs) (low, high, (low', high', (low'', high'', h))) = ground arith

trim_front_none : (space : Bytes → ℕ) (bs : Bytes) → space bs ≡ 0 → trim_front space 0 bs ≡ bs
unfolding trim_front
trim_front_none space [] e = refl
trim_front_none space (b ∷ bs) e = rw e refl

trim-AreChars : (bs : Bytes) → AreChars bs → trim bs ≡ bs
unfolding trim
trim-AreChars bs h =
    rw
      (
        trim_front_none space_front bs (space_front_none bs h),
        trim_front_none space_back (reverse bs)
            (space_back_none (reverse bs) (reverse-AreChars bs h)),
      )
      (reverse-reverse bs)

from_hex-hex_text :
    (d : ℕ) (ds : List ℕ)
    → AreDigits (d ∷ ds)
    → number 0 (d ∷ ds) < 2 ^ 64
    → from_hex (hex_text (d ∷ ds)) ≡ some (number 0 (d ∷ ds))
unfolding from_hex
from_hex-hex_text d [] h small = hex_from-hex_text 0 (d ∷ []) h small
from_hex-hex_text d (e ∷ ds) (lt, h) small =
    rw (no_plus d lt) (hex_from-hex_text 0 (d ∷ e ∷ ds) (lt, h) small)
  where
    no_plus : (d : ℕ) → d < 16 → (hex_char d == 43) ≡ false
    no_plus d lt = ground arith

-- A size line of digits is read as the number that they write.
pub size_of-hex_text :
    (d : ℕ) (ds : List ℕ)
    → AreDigits (d ∷ ds)
    → number 0 (d ∷ ds) < 2 ^ 64
    → size_of (hex_text (d ∷ ds)) ≡ some (number 0 (d ∷ ds))
unfolding is_utf8
size_of-hex_text d ds h small =
    let chars = hex_text-AreChars (d ∷ ds) h in
    rw (run-AreChars (hex_text (d ∷ ds)) chars, trim-AreChars (hex_text (d ∷ ds)) chars)
      (from_hex-hex_text d ds h small)
