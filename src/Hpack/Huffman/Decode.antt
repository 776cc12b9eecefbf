-- ===== src/Hpack/Huffman/Decode.antt =====
-- What `huffman::decode` accepts is the encoding of what it returns, and nothing else.
use honeybeepf_llm.Prelude.{
  ℕ, zero, suc, ◌+◌, ◌-◌, ◌*◌, ◌^◌, ◌≤◌, ◌<◌, ◌≡◌, refl, sym, ap, ◌∙◌, List, [], ◌∷◌, ◌++◌, Bytes,
  All, All-append, IsByte, replicate, arith, append_assoc, append-nil,
}
use native.Mathlib.Nat.{pow-suc}
use native.Mathlib.Numerals.{add-one}
use honeybeepf_llm.Hpack.Types.{ok}
use honeybeepf_llm.Hpack.Huffman.{Walk, going, failed, push_bytes, finish, decode, canonical}
use honeybeepf_llm.Hpack.Huffman.Code.{bits_of, code_bits, push_bits}
use honeybeepf_llm.Hpack.Huffman.Encode.{bits, code_words, push_bytes-push_bits}
use honeybeepf_llm.Hpack.Huffman.Entries.{
  push_bit_cases, code_small, bits_of_snoc, Spells, push_bits-failed, fails, completes, extends,
}

going_ne_failed : {code len : ℕ} {out t : Bytes} → failed t ≡ going code len out → ⊥
going_ne_failed e = cc

double_lt : (code len b : ℕ) → code < 2 ^ len → b < 2 → code * 2 + b < 2 ^ (len + 1)
double_lt code len b lt bit = rw (add-one, pow-suc) (omega arith)

module _ {code' len' : ℕ} {out' : Bytes} where
  Spells-nil :
      (code len : ℕ) (out : Bytes)
      → going code len out ≡ going code' len' out'
      → Spells (bits_of len code ++ []) out code' len' out'
  unfolding code_words
  Spells-nil code len out e = record {
    text = [];
    pushed = cc (append-nil out);
    bytes = tt;
    words = rw append-nil (cc);
  }

  Spells-cons :
      (s code len b : ℕ) (bs : List ℕ) (out : Bytes)
      → s < 256
      → b < 2
      → code_bits s ≡ bits_of (len + 1) (code * 2 + b)
      → Spells bs (out ++ s ∷ []) code' len' out'
      → Spells (bits_of len code ++ b ∷ bs) out code' len' out'
  unfolding code_words
  Spells-cons s code len b bs out below bit word r = record {
    text = s ∷ r.text;
    pushed = r.pushed ∙ append_assoc out (s ∷ []) r.text;
    bytes = (below, r.bytes);
    words =
        sym (append_assoc (bits_of len code) (b ∷ []) bs)
        ∙ ap (λ (l : List ℕ). l ++ bs) (sym (word ∙ bits_of_snoc len code b bit))
        ∙ ap (◌++◌ (code_bits s)) r.words
        ∙ sym (append_assoc (code_bits s) (code_words r.text) (bits_of len' code'));
  }

  extend_Spells :
      (code len b : ℕ) (bs : List ℕ) (out : Bytes)
      → b < 2
      → Spells (bits_of (len + 1) (code * 2 + b) ++ bs) out code' len' out'
      → Spells (bits_of len code ++ b ∷ bs) out code' len' out'
  extend_Spells code len b bs out bit r = record {
    text = r.text;
    pushed = r.pushed;
    bytes = r.bytes;
    words =
        sym (append_assoc (bits_of len code) (b ∷ []) bs)
        ∙ ap (λ (l : List ℕ). l ++ bs) (sym (bits_of_snoc len code b bit))
        ∙ r.words;
  }

  walk-Spells :
      (bs : List ℕ) (code len : ℕ) (out : Bytes)
      → All (λ b. b < 2) bs
      → len < 30
      → code < 2 ^ len
      → push_bits canonical bs (going code len out) ≡ going code' len' out'
      → Spells (bits_of len code ++ bs) out code' len' out'
  unfolding push_bits bits_of
  walk-Spells [] code len out bits h lt e = Spells-nil code len out e
  walk-Spells (b ∷ bs) code len out (bit, rest) h lt e =
      elim (push_bit_cases code len b out (code_small code len h lt) bit h) [
        | fails text w ↦
            absurd (going_ne_failed (sym (push_bits-failed canonical bs text) ∙ rw w at e))
        | completes s below word w ↦
            Spells-cons s code len b bs out below bit word
              (walk-Spells bs 0 0 (out ++ s ∷ []) rest (omega arith) (omega arith) (rw w at e))
        | extends short w ↦ extend_Spells code len b bs out bit (
            walk-Spells bs (code * 2 + b) (len + 1) out rest short (double_lt code len b lt bit)
              (rw w at e))
      ]

bits_of-are_bits : (n v : ℕ) → All (λ b. b < 2) (bits_of n v)
unfolding bits_of
bits_of-are_bits zero v = tt
bits_of-are_bits (suc n) v = (omega arith, bits_of-are_bits n v)

bits-are_bits : (input : Bytes) → All (λ b. b < 2) (bits input)
unfolding bits
bits-are_bits [] = tt
bits-are_bits (byte ∷ rest) =
    All-append (λ b. b < 2) (bits_of 8 byte) (bits rest) (bits_of-are_bits 8 byte)
      (bits-are_bits rest)

ones : (k : ℕ) → k ≤ 7 → bits_of k (2 ^ k - 1) ≡ replicate k 1
unfolding bits_of
ones zero h = refl
ones (suc zero) h = refl
ones (suc (suc zero)) h = refl
ones (suc (suc (suc zero))) h = refl
ones (suc (suc (suc (suc zero)))) h = refl
ones (suc (suc (suc (suc (suc zero))))) h = refl
ones (suc (suc (suc (suc (suc (suc zero)))))) h = refl
ones (suc (suc (suc (suc (suc (suc (suc zero))))))) h = refl
ones (suc (suc (suc (suc (suc (suc (suc (suc k)))))))) h = absurd (omega arith)

-- The input spells `text`, and ends in at most seven ones that spell no symbol.
pub record Encodes (input text : Bytes) : Type 0 where
  pub bytes : All IsByte text
  pub padding : ℕ
  pub padding_le : padding ≤ 7
  pub words : bits input ≡ code_words text ++ replicate padding 1

-- What the walk has come to where `finish` accepts it.
finish-ok :
    (w : Walk) {out' : Bytes}
    → finish w ≡ (out', ok tt)
    → (k : ℕ) × (k ≤ 7) × (w ≡ going (2 ^ k - 1) k out')
unfolding finish
finish-ok (failed out) e = absurd (ground arith)
finish-ok (going code len out) e = (len, ground arith, ground arith)

-- Whatever the Huffman decoder accepts is an encoding: it appends a text of bytes to the output,
-- and the input's bits are that text's code words followed by at most seven ones.
pub decode-Encodes :
    (input out : Bytes) {out' : Bytes}
    → decode input out ≡ (out', ok tt)
    → (text : Bytes) × (out' ≡ out ++ text) × Encodes input text
unfolding decode bits_of
decode-Encodes input out e =
    let (k, small, w) = finish-ok (push_bytes canonical input (going 0 0 out)) e in
    let s =
      walk-Spells (bits input) 0 0 out (bits-are_bits input) (omega arith) (omega arith)
        (sym (push_bytes-push_bits canonical input (going 0 0 out)) ∙ w) in
    (
      s.text,
      s.pushed,
      record {
        bytes = s.bytes;
        padding = k;
        padding_le = small;
        words = s.words ∙ ap (◌++◌ (code_words s.text)) (ones k small);
      },
    )
