-- ===== src/Hpack/Huffman/Entries.antt =====
-- What the places of the canonical table hold, and what one more bit does to a symbol.
use honeybeepf_llm.Prelude.{
  ℕ, zero, suc, ◌+◌, ◌-◌, ◌*◌, ◌/◌, ◌%◌, ◌^◌, ◌≤◌, ◌<◌, ◌≡◌, refl, sym, ap, ◌∙◌, inl, inr, Bool,
  true, false, ◌&&◌, ◌||◌, List, [], ◌∷◌, ◌++◌, Bytes, ltb, leb, ◌==◌, leb→le, lt→ltb, ge→ltb,
  Bool-cases, bytes_eq, bytes_eq→eq, All, IsByte, get_or, arith, holds_below, holds_below_at,
}
use native.Mathlib.Nat.{le_trans, pow-le-pow_right, div-div-eq-div-mul, pow-succ', mod-eq_of_lt}
use native.Mathlib.Numerals.{add-one}
use native.Mathlib.Decide.{dec_lt}
use honeybeepf_llm.Hpack.Huffman.{Walk, going, failed, push_bit, Canonical, canonical, eos}
use honeybeepf_llm.Hpack.Huffman.Code.{bits_of, code_bits, push_bits}
use honeybeepf_llm.Hpack.Huffman.Encode.{code_words}

-- Place `offset` of the codes of `len` bits holds EOS, or the symbol with that code word.
abbrev pub entry_test : Canonical → ℕ → ℕ → Bool
entry_test c len offset =
    let symbol = get_or c.symbols (get_or c.first_index len 0 + offset) 0 in
    symbol == eos
    || ltb symbol 256
      && bytes_eq (code_bits symbol) (bits_of len (get_or c.first_code len 0 + offset))

abbrev pub length_test : Canonical → ℕ → Bool
length_test c len =
    leb (get_or c.first_code len 0) (2 ^ 31)
    && leb (get_or c.count len 0) 257
    && holds_below (get_or c.count len 0) (entry_test c len)

pub entries_test : Canonical → Bool
unfolding holds_below code_bits
entries_test c = holds_below 31 (length_test c)

pub entries_table : entries_test canonical ≡ true
unfolding entries_test canonical
entries_table = refl

pub entries_test_at :
    (c : Canonical) (len : ℕ) → len < 31 → entries_test c ≡ true → length_test c len ≡ true
unfolding entries_test
entries_test_at c len h t = holds_below_at 31 (length_test c) len h t

&&-left : (a b : Bool) → (a && b) ≡ true → a ≡ true
&&-left a b h = ground arith

&&-right : (a b : Bool) → (a && b) ≡ true → b ≡ true
&&-right a b h = ground arith

pub record LengthFacts (len : ℕ) : Type 0 where
  first_le : get_or canonical.first_code len 0 ≤ 2 ^ 31
  count_le : get_or canonical.count len 0 ≤ 257
  entries :
      (offset : ℕ) → offset < get_or canonical.count len 0 → entry_test canonical len offset ≡ true

pub length_facts : (len : ℕ) → len < 31 → LengthFacts len
length_facts len h =
    let all = entries_test_at canonical len h entries_table in
    let bounds = &&-left _ _ all in
    record {
      first_le = leb→le _ _ (&&-left _ _ bounds);
      count_le = leb→le _ _ (&&-right _ _ bounds);
      entries =
          λ offset lt. holds_below_at _ (entry_test canonical len) offset lt (&&-right _ _ all);
    }

-- What one more bit does to a symbol in progress.
pub data Pushes (code len : ℕ) (out : Bytes) (b : ℕ) (w : Walk) : Type 0 where
  fails : (text : Bytes) → w ≡ failed text → Pushes code len out b w
  completes :
      (s : ℕ)
      → s < 256
      → code_bits s ≡ bits_of (len + 1) (code * 2 + b)
      → w ≡ going 0 0 (out ++ s ∷ [])
      → Pushes code len out b w
  extends : len + 1 < 30 → w ≡ going (code * 2 + b) (len + 1) out → Pushes code len out b w

pub code_small : (code len : ℕ) → len < 30 → code < 2 ^ len → code < 2 ^ 29
code_small code len h lt =
    le_trans lt (pow-le-pow_right {n = 2} (omega arith) {i = len} {j = 29} (omega arith))

-- Where the wrapped offset is below the count, nothing wrapped.
pub offset_exact :
    (code first n : ℕ)
    → code < 2 ^ 31
    → first ≤ 2 ^ 31
    → n ≤ 257
    → (code + 2 ^ 32 - first) % 2 ^ 32 < n
    → first + (code + 2 ^ 32 - first) % 2 ^ 32 ≡ code
offset_exact code first n h k m lt = omega arith

-- Where the code at hand has `len` bits, the place in the table that the loop computes.
abbrev pub offset_at : ℕ → ℕ → ℕ
offset_at code len = (code + 2 ^ 32 - get_or canonical.first_code len 0) % 2 ^ 32

abbrev pub symbol_at : ℕ → ℕ → ℕ
symbol_at code len =
    get_or canonical.symbols (get_or canonical.first_index len 0 + offset_at code len) 0

pub entry_meaning :
    (symbol : ℕ) (word : List ℕ)
    → (symbol == eos || ltb symbol 256 && bytes_eq (code_bits symbol) word) ≡ true
    → (symbol == eos) ≡ false
    → (symbol < 256) × (code_bits symbol ≡ word)
entry_meaning symbol word t ne = ground (arith, bytes_eq→eq (code_bits symbol) word)

pub double_small : (code b : ℕ) → code < 2 ^ 29 → b < 2 → code * 2 + b < 2 ^ 31
double_small code b h k = omega arith

module _ (code len b : ℕ) (out : Bytes) (small : code < 2 ^ 29) (bit : b < 2) where
  shift_exact : code * 2 % 2 ^ 32 ≡ code * 2
  shift_exact = omega arith

  push_bit-eos :
      offset_at (code * 2 + b) (len + 1) < get_or canonical.count (len + 1) 0
      → (symbol_at (code * 2 + b) (len + 1) == eos) ≡ true
      → push_bit canonical (going code len out) b ≡ failed out
  unfolding push_bit
  push_bit-eos found e = rw (shift_exact, lt→ltb _ _ found, e)

  push_bit_symbol :
      offset_at (code * 2 + b) (len + 1) < get_or canonical.count (len + 1) 0
      → (symbol_at (code * 2 + b) (len + 1) == eos) ≡ false
      → push_bit canonical (going code len out) b
        ≡ going 0 0 (out ++ (symbol_at (code * 2 + b) (len + 1) % 256) ∷ [])
  unfolding push_bit
  push_bit_symbol found e = rw (shift_exact, lt→ltb _ _ found, e)

  push_bit_longer :
      get_or canonical.count (len + 1) 0 ≤ offset_at (code * 2 + b) (len + 1)
      → len + 1 < 30
      → push_bit canonical (going code len out) b ≡ going (code * 2 + b) (len + 1) out
  unfolding push_bit
  push_bit_longer missed h = rw (shift_exact, ge→ltb _ _ missed) (ground arith)

  push_bit_too_long :
      get_or canonical.count (len + 1) 0 ≤ offset_at (code * 2 + b) (len + 1)
      → len + 1 ≡ 30
      → push_bit canonical (going code len out) b ≡ failed out
  unfolding push_bit
  push_bit_too_long missed h = rw (shift_exact, ge→ltb _ _ missed) (ground arith)

  push_bit_found :
      offset_at (code * 2 + b) (len + 1) < get_or canonical.count (len + 1) 0
      → LengthFacts (len + 1)
      → Pushes code len out b (push_bit canonical (going code len out) b)
  push_bit_found found facts = elim (Bool-cases (symbol_at (code * 2 + b) (len + 1) == eos)) [
    | inl e ↦ fails out (push_bit-eos found e)
    | inr e ↦
        let offset = offset_at (code * 2 + b) (len + 1) in
        let (below, word) = entry_meaning _ _ (facts.entries offset found) e in
        let exact =
          offset_exact (code * 2 + b) (get_or canonical.first_code (len + 1) 0)
            (get_or canonical.count (len + 1) 0) (double_small code b small bit) facts.first_le
            facts.count_le found in
        completes (symbol_at (code * 2 + b) (len + 1)) below (word ∙ ap (bits_of (len + 1)) exact)
          (push_bit_symbol found e ∙ ap (λ s. going 0 0 (out ++ s ∷ [])) (mod-eq_of_lt below))
  ]

  pub push_bit_cases : len < 30 → Pushes code len out b (push_bit canonical (going code len out) b)
  push_bit_cases h =
      elim (dec_lt (offset_at (code * 2 + b) (len + 1)) (get_or canonical.count (len + 1) 0)) [
        | yes found ↦ push_bit_found found (length_facts (len + 1) (omega arith))
        | no missed ↦ elim (dec_lt (len + 1) 30) [
          | yes short ↦ extends short (push_bit_longer (omega arith) short)
          | no long ↦ fails out (push_bit_too_long (omega arith) (omega arith))
        ]
      ]

pub halve : (n v b : ℕ) → b < 2 → (v * 2 + b) / 2 ^ suc n ≡ v / 2 ^ n
halve n v b h =
    ap (λ (k : ℕ). (v * 2 + b) / k) (pow-succ' 2 n)
    ∙ sym (div-div-eq-div-mul (v * 2 + b) 2 (2 ^ n))
    ∙ ap (λ (k : ℕ). k / 2 ^ n) (omega arith)

pub bits_of_snoc : (n v b : ℕ) → b < 2 → bits_of (n + 1) (v * 2 + b) ≡ bits_of n v ++ b ∷ []
unfolding bits_of
bits_of_snoc zero v b h = ap (λ (x : ℕ). x ∷ []) (omega arith)
bits_of_snoc (suc n) v b h =
    let rest : bits_of (suc n) (v * 2 + b) ≡ bits_of n v ++ b ∷ [] =
      rw add-one at (bits_of_snoc n v b h) in
    rw add-one (rw (halve n v b h) (ap (◌∷◌ (v / 2 ^ n % 2)) rest))

-- The bits read, as code words of whole symbols and the bits of one in progress.
pub record Spells (read : List ℕ) (out : Bytes) (code len : ℕ) (out' : Bytes) : Type 0 where
  pub text : Bytes
  pub pushed : out' ≡ out ++ text
  pub bytes : All IsByte text
  pub words : read ≡ code_words text ++ bits_of len code

pub push_bits-failed :
    (c : Canonical) (bs : List ℕ) (t : Bytes) → push_bits c bs (failed t) ≡ failed t
unfolding push_bits push_bit
push_bits-failed c [] t = refl
push_bits-failed c (b ∷ bs) t = push_bits-failed c bs t
