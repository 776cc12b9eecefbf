-- ===== src/Hpack/Huffman/Encode.antt =====
-- `huffman::decode` reads back what an encoder writes.
use honeybeepf_llm.Prelude.{
  ℕ, zero, suc, ◌/◌, ◌%◌, ◌^◌, ◌≤◌, ◌≡◌, refl, ap, ◌∙◌, List, [], ◌∷◌, ◌++◌, Bytes, All, IsByte,
  replicate, arith, append_assoc, append-nil,
}
use honeybeepf_llm.Hpack.Types.{ok}
use honeybeepf_llm.Hpack.Huffman.{
  Walk, going, push_bit, push_byte, push_bytes, decode, Canonical, canonical,
}
use honeybeepf_llm.Hpack.Huffman.Code.{
  bits_of, code_bits, push_bits, symbol_walk, padding_walk, behind, push_bits-behind,
  push_bits-append,
}

-- The bits of the input, each byte from its most significant bit.
unfoldable pub bits : Bytes → List ℕ
bits [] = []
bits (byte ∷ rest) = bits_of 8 byte ++ bits rest

-- The code words of a text, one behind the other.
unfoldable pub code_words : Bytes → List ℕ
code_words [] = []
code_words (s ∷ text) = code_bits s ++ code_words text

push_byte-push_bits :
    (c : Canonical) (n byte : ℕ) (w : Walk) → push_byte c n byte w ≡ push_bits c (bits_of n byte) w
unfolding push_byte push_bits bits_of
push_byte-push_bits c zero byte w = refl
push_byte-push_bits c (suc n) byte w =
    push_byte-push_bits c n byte (push_bit c w (byte / 2 ^ n % 2))

-- `decode` walks the bits one after the other.
pub push_bytes-push_bits :
    (c : Canonical) (input : Bytes) (w : Walk) → push_bytes c input w ≡ push_bits c (bits input) w
unfolding push_bytes bits
push_bytes-push_bits c [] w = unfold push_bits in refl
push_bytes-push_bits c (byte ∷ rest) w =
    push_bytes-push_bits c rest (push_byte c 8 byte w)
    ∙ rw (push_byte-push_bits c 8 byte w, push_bits-append c (bits_of 8 byte) (bits rest) w)

pub push_bits-from :
    (out : Bytes) (xs : List ℕ)
    → push_bits canonical xs (going 0 0 out) ≡ behind out (push_bits canonical xs (going 0 0 []))
unfolding behind
push_bits-from out xs = rw append-nil at (push_bits-behind canonical out xs (going 0 0 []))

code_words-walk :
    (text out : Bytes)
    → All IsByte text
    → push_bits canonical (code_words text) (going 0 0 out) ≡ going 0 0 (out ++ text)
unfolding code_words behind
code_words-walk [] out h = rw append-nil (unfold push_bits in refl)
code_words-walk (s ∷ text) out h =
    rw (push_bits-append, push_bits-from out (code_bits s), symbol_walk s h.0)
      (code_words-walk text (out ++ s ∷ []) h.1 ∙ ap (going 0 0) (append_assoc out (s ∷ []) text))

-- Input whose bits are the code words of a text of bytes, followed by at most seven ones, is
-- decoded to that text, appended to the output.
pub decode-code_words :
    (input text out : Bytes) (k : ℕ)
    → All IsByte text
    → k ≤ 7
    → bits input ≡ code_words text ++ replicate k 1
    → decode input out ≡ (out ++ text, ok tt)
unfolding decode behind
decode-code_words input text out k h hk e =
    rw
      (
        push_bytes-push_bits canonical input (going 0 0 out),
        e,
        push_bits-append,
        code_words-walk text out h,
        push_bits-from (out ++ text) (replicate k 1),
        padding_walk k hk,
      )
      (ground (arith, append-nil (out ++ text)))
