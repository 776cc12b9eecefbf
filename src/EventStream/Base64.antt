-- ===== src/EventStream/Base64.antt =====
-- http/eventstream.rs: `decode_base64`, and its round trip with the encoder of RFC 4648.
use honeybeepf_llm.Prelude.{
  ℕ, ◌+◌, ◌-◌, ◌*◌, ◌/◌, ◌%◌, ◌^◌, ◌<◌, ◌≡◌, refl, sym, append-nil, append_assoc, ap, ◌∙◌, Bool,
  true, false, Option, none, some, [], ◌∷◌, ◌++◌, Bytes, IsByte, All, ltb, leb, ◌==◌, if◌then◌else◌,
  arith,
}
use honeybeepf_llm.Utf8.{within}

unfoldable pub sextet : ℕ → Option ℕ
sextet c =
    if within 65 90 c
    then some (c - 65)
    else if within 97 122 c
    then some (c - 97 + 26)
    else if within 48 57 c
    then some (c - 48 + 52)
    else if c == 43
    then some 62
    else if c == 47
    then some 63
    else none

-- The bits and the count held, and the bytes put out.
pub record Held : Type 0 where
  pub bits : ℕ
  pub held : ℕ
  pub out : Bytes

-- `bits << 6 | sextet` on 32 bits; a sextet fills the six bits made free.
unfoldable pub take_sextet : Held → ℕ → Held
take_sextet h s =
    let bits = (h.bits * 64) % 2 ^ 32 + s in
    let held = h.held + 6 in
    if leb 8 held
    then record { bits = bits; held = held - 8; out = h.out ++ (bits / 2 ^ (held - 8) % 256) ∷ [] }
    else record { bits = bits; held = held; out = h.out }

-- A pad ends the text, a character outside the alphabet fails it.
abbrev pub decoded_char : Bool → Option ℕ → Bytes → (ℕ → Bytes × Bool) → Bytes × Bool
decoded_char true s out go_on = (out, true)
decoded_char false none out go_on = (out, false)
decoded_char false (some s) out go_on = go_on s

-- The bytes put out, and whether every character was of the alphabet.
unfoldable pub decode_from : Held → Bytes → Bytes × Bool
unfolding sextet take_sextet
decode_from h [] = (h.out, true)
decode_from h (c ∷ cs) =
    decoded_char (c == 61) (sextet c) h.out (λ s. decode_from (take_sextet h s) cs)

unfoldable pub decode_base64 : Bytes → Bytes × Bool
unfolding decode_from
decode_base64 text = decode_from (record { bits = 0; held = 0; out = [] }) text

abbrev digit : ℕ → ℕ
digit n =
    if ltb n 26
    then n + 65
    else if ltb n 52
    then n - 26 + 97
    else if ltb n 62
    then n - 52 + 48
    else if n == 62
    then 43
    else 47

-- The encoder of RFC 4648, with its padding.
unfoldable pub encode : Bytes → Bytes
encode [] = []
encode (a ∷ []) = digit (a / 4) ∷ digit (a % 4 * 16) ∷ 61 ∷ 61 ∷ []
encode (a ∷ b ∷ []) = digit (a / 4) ∷ digit (a % 4 * 16 + b / 16) ∷ digit (b % 16 * 4) ∷ 61 ∷ []
encode (a ∷ b ∷ c ∷ rest) =
    digit (a / 4)
    ∷ digit (a % 4 * 16 + b / 16)
    ∷ digit (b % 16 * 4 + c / 64)
    ∷ digit (c % 64)
    ∷ encode rest

sextet-digit : (n : ℕ) → n < 64 → sextet (digit n) ≡ some n
unfolding sextet
sextet-digit n h = ground arith

digit_not_pad : (n : ℕ) → n < 64 → (digit n == 61) ≡ false
digit_not_pad n h = ground arith

decode_digit :
    (h : Held) (n : ℕ) (cs : Bytes)
    → n < 64
    → decode_from h (digit n ∷ cs) ≡ decode_from (take_sextet h n) cs
unfolding decode_from
decode_digit h n cs lt =
    ap
      (λ (o : Option ℕ).
        decoded_char (digit n == 61) o h.out (λ s. decode_from (take_sextet h s) cs))
      (sextet-digit n lt)
    ∙ ap (λ (b : Bool). decoded_char b (some n) h.out (λ s. decode_from (take_sextet h s) cs))
        (digit_not_pad n lt)

decode_pad : (h : Held) (cs : Bytes) → decode_from h (61 ∷ cs) ≡ (h.out, true)
unfolding decode_from
decode_pad h cs = refl

-- The byte that the bits held give, once eight are held.
abbrev first_byte : ℕ → ℕ → ℕ → ℕ
first_byte bits s0 s1 = (((bits * 64) % 2 ^ 32 + s0) * 64 % 2 ^ 32 + s1) / 16 % 256

first_byte_lem :
    (bits a low : ℕ) → a < 256 → low < 16 → first_byte bits (a / 4) (a % 4 * 16 + low) ≡ a
first_byte_lem bits a low ha hl = omega arith

second_byte_lem :
    (bits hi b low : ℕ)
    → hi < 4
    → b < 256
    → low < 4
    → ((bits * 64 % 2 ^ 32 + (hi * 16 + b / 16)) * 64 % 2 ^ 32 + (b % 16 * 4 + low)) / 4 % 256 ≡ b
second_byte_lem bits hi b low hh hb hl = omega arith

third_byte_lem :
    (bits hi c : ℕ)
    → hi < 16
    → c < 256
    → ((bits * 64 % 2 ^ 32 + (hi * 4 + c / 64)) * 64 % 2 ^ 32 + c % 64) / 1 % 256 ≡ c
third_byte_lem bits hi c hh hc = omega arith

-- The bits after one more sextet.
abbrev more : ℕ → ℕ → ℕ
more bits s = bits * 64 % 2 ^ 32 + s

abbrev fresh : ℕ → Bytes → Held
fresh bits out = record { bits = bits; held = 0; out = out }

two_chars :
    (bits : ℕ) (out : Bytes) (a low : ℕ) (cs : Bytes)
    → a < 256
    → low < 16
    → decode_from (fresh bits out) (digit (a / 4) ∷ digit (a % 4 * 16 + low) ∷ cs)
      ≡ decode_from
          (record {
            bits = more (more bits (a / 4)) (a % 4 * 16 + low);
            held = 4;
            out = out ++ a ∷ [];
          })
          cs
unfolding take_sextet
two_chars bits out a low cs ha hl =
    decode_digit (fresh bits out) (a / 4) (digit (a % 4 * 16 + low) ∷ cs) (omega arith)
    ∙ (decode_digit (record { bits = more bits (a / 4); held = 6; out = out }) (a % 4 * 16 + low) cs
          (omega arith)
        ∙ ap
            (λ (x : ℕ).
              decode_from
                (record {
                  bits = more (more bits (a / 4)) (a % 4 * 16 + low);
                  held = 4;
                  out = out ++ x ∷ [];
                })
                cs)
            (first_byte_lem bits a low ha hl))

third_char :
    (bits : ℕ) (out : Bytes) (hi b low : ℕ) (cs : Bytes)
    → hi < 4
    → b < 256
    → low < 4
    → decode_from
        (record { bits = more bits (hi * 16 + b / 16); held = 4; out = out })
        (digit (b % 16 * 4 + low) ∷ cs)
      ≡ decode_from
          (record {
            bits = more (more bits (hi * 16 + b / 16)) (b % 16 * 4 + low);
            held = 2;
            out = out ++ b ∷ [];
          })
          cs
unfolding take_sextet
third_char bits out hi b low cs hh hb hl =
    decode_digit (record { bits = more bits (hi * 16 + b / 16); held = 4; out = out })
      (b % 16 * 4 + low) cs (omega arith)
    ∙ ap
        (λ (x : ℕ).
          decode_from
            (record {
              bits = more (more bits (hi * 16 + b / 16)) (b % 16 * 4 + low);
              held = 2;
              out = out ++ x ∷ [];
            })
            cs)
        (second_byte_lem bits hi b low hh hb hl)

fourth_char :
    (bits : ℕ) (out : Bytes) (hi c : ℕ) (cs : Bytes)
    → hi < 16
    → c < 256
    → decode_from
        (record { bits = more bits (hi * 4 + c / 64); held = 2; out = out })
        (digit (c % 64) ∷ cs)
      ≡ decode_from (fresh (more (more bits (hi * 4 + c / 64)) (c % 64)) (out ++ c ∷ [])) cs
unfolding take_sextet
fourth_char bits out hi c cs hh hc =
    decode_digit (record { bits = more bits (hi * 4 + c / 64); held = 2; out = out }) (c % 64) cs
      (omega arith)
    ∙ ap
        (λ (x : ℕ).
          decode_from (fresh (more (more bits (hi * 4 + c / 64)) (c % 64)) (out ++ x ∷ [])) cs)
        (third_byte_lem bits hi c hh hc)

add_zero : (n : ℕ) → n ≡ n + 0
add_zero n = omega arith

three_more :
    (out : Bytes) (a b c : ℕ) (rest : Bytes)
    → (((out ++ a ∷ []) ++ b ∷ []) ++ c ∷ []) ++ rest ≡ out ++ a ∷ b ∷ c ∷ rest
three_more out a b c rest = simp append_assoc refl

abbrev after_two : ℕ → Bytes → ℕ → ℕ → Held
after_two bits out a b = record {
  bits = more (more bits (a / 4)) (a % 4 * 16 + b / 16);
  held = 4;
  out = out ++ a ∷ [];
}

decode_from-encode :
    (bits : ℕ) (out bytes : Bytes)
    → All IsByte bytes
    → decode_from (fresh bits out) (encode bytes) ≡ (out ++ bytes, true)
unfolding encode decode_from
decode_from-encode bits out [] h =
    ap (λ (o : Bytes). let r : Bytes × Bool = (o, true) in r) (sym (append-nil out))
decode_from-encode bits out (a ∷ []) h =
    ap (λ (x : ℕ). decode_from (fresh bits out) (digit (a / 4) ∷ digit x ∷ 61 ∷ 61 ∷ []))
      (add_zero (a % 4 * 16))
    ∙ two_chars bits out a 0 (61 ∷ 61 ∷ []) h.0 (omega arith)
decode_from-encode bits out (a ∷ b ∷ []) h =
    two_chars bits out a (b / 16) (digit (b % 16 * 4) ∷ 61 ∷ []) h.0 (omega (arith, h.1.0))
    ∙ (ap (λ (x : ℕ). decode_from (after_two bits out a b) (digit x ∷ 61 ∷ []))
          (add_zero (b % 16 * 4))
        ∙ (third_char (more bits (a / 4)) (out ++ a ∷ []) (a % 4) b 0 (61 ∷ []) (omega arith) h.1.0
              (omega arith)
            ∙ ap (λ (o : Bytes). let r : Bytes × Bool = (o, true) in r)
                (append_assoc out (a ∷ []) (b ∷ []))))
decode_from-encode bits out (a ∷ b ∷ c ∷ rest) h =
    two_chars bits out a (b / 16) (digit (b % 16 * 4 + c / 64) ∷ digit (c % 64) ∷ encode rest) h.0
      (omega (arith, h.1.0))
    ∙ (third_char (more bits (a / 4)) (out ++ a ∷ []) (a % 4) b (c / 64)
          (digit (c % 64) ∷ encode rest) (omega arith) h.1.0 (omega (arith, h.1.1.0))
        ∙ (fourth_char (more (more bits (a / 4)) (a % 4 * 16 + b / 16)) ((out ++ a ∷ []) ++ b ∷ [])
              (b % 16) c (encode rest) (omega arith) h.1.1.0
            ∙ (decode_from-encode
                  (more
                    (more (more (more bits (a / 4)) (a % 4 * 16 + b / 16)) (b % 16 * 4 + c / 64))
                    (c % 64))
                  (((out ++ a ∷ []) ++ b ∷ []) ++ c ∷ []) rest h.1.1.1
                ∙ ap (λ (o : Bytes). let r : Bytes × Bool = (o, true) in r)
                    (three_more out a b c rest))))

-- `decode_base64` reads back every sequence of bytes from its standard padded base64 encoding, and
-- reports success.
pub decode_base64-encode :
    (bytes : Bytes) → All IsByte bytes → decode_base64 (encode bytes) ≡ (bytes, true)
unfolding decode_base64
decode_base64-encode bytes h = decode_from-encode 0 [] bytes h
