-- ===== src/Hpack/Huffman/Code.antt =====
-- The code as an encoder has it, and the table of `canonical` against it, checked by evaluation.
use honeybeepf_llm.Prelude.{
  ℕ, zero, suc, ◌+◌, ◌-◌, ◌*◌, ◌/◌, ◌%◌, ◌^◌, ◌≤◌, ◌<◌, ◌≡◌, refl, Bool, true, false, ◌&&◌, List,
  [], ◌∷◌, ◌++◌, Bytes, ◌==◌, if◌then◌else◌, get_or, replicate, take, bytes_eq, arith, holds_below,
  holds_below_at, bytes_eq→eq, append_assoc,
}
use honeybeepf_llm.Hpack.Huffman.{lengths, canonical, Canonical, Walk, going, failed, push_bit}

-- The `n` low bits of a number, most significant first.
unfoldable pub bits_of : ℕ → ℕ → List ℕ
bits_of zero v = []
bits_of (suc n) v = v / 2 ^ n % 2 ∷ bits_of n v

-- How many of the first symbols have the given code length.
unfoldable pub rank : ℕ → List ℕ → ℕ
rank len [] = 0
rank len (x ∷ xs) = (if x == len then 1 else 0) + rank len xs

-- The first code of a length: the codes shorter than it, each with every extension of it, come
-- before (RFC 7541's code is canonical).
unfoldable pub code_start : ℕ → ℕ
unfolding rank
code_start zero = 0
code_start (suc n) = (code_start n + rank n lengths) * 2

-- The code word of a symbol, from the code lengths alone: consecutive codes in symbol order.
unfoldable pub code_bits : ℕ → List ℕ
unfolding bits_of rank code_start
code_bits s =
    let len = get_or lengths s 0 in bits_of len (code_start len + rank len (take s lengths))

unfoldable pub push_bits : Canonical → List ℕ → Walk → Walk
push_bits c [] w = w
push_bits c (b ∷ bs) w = push_bits c bs (push_bit c w b)

abbrev arrives : Walk → ℕ → ℕ → Bytes → Bool
arrives (failed out) code len text = false
arrives (going code' len' out) code len text = (code' == code) && (len' == len) && bytes_eq out text

-- From the start, the code word of `s` pushes `s` and leaves no bit over.
abbrev symbol_walks : Canonical → ℕ → Bool
symbol_walks c s = arrives (push_bits c (code_bits s) (going 0 0 [])) 0 0 (s ∷ [])

-- From the start, `k` ones complete no symbol.
abbrev padding_walks : Canonical → ℕ → Bool
padding_walks c k = arrives (push_bits c (replicate k 1) (going 0 0 [])) (2 ^ k - 1) k []

symbols_test : Canonical → Bool
unfolding push_bits push_bit holds_below code_bits
symbols_test c = holds_below 256 (symbol_walks c)

symbols_table : symbols_test canonical ≡ true
unfolding symbols_test canonical
symbols_table = refl

padding_test : Canonical → Bool
unfolding push_bits push_bit holds_below
padding_test c = holds_below 8 (padding_walks c)

padding_table : padding_test canonical ≡ true
unfolding padding_test canonical
padding_table = refl

symbols_test_at :
    (c : Canonical) (s : ℕ) → s < 256 → symbols_test c ≡ true → symbol_walks c s ≡ true
unfolding symbols_test
symbols_test_at c s h t = holds_below_at 256 (symbol_walks c) s h t

padding_test_at : (c : Canonical) (k : ℕ) → k < 8 → padding_test c ≡ true → padding_walks c k ≡ true
unfolding padding_test
padding_test_at c k h t = holds_below_at 8 (padding_walks c) k h t

-- A completed walk, by the test that the tables make.
arrives→eq :
    (w : Walk) (code len : ℕ) (text : Bytes)
    → arrives w code len text ≡ true
    → w ≡ going code len text
arrives→eq (failed out) code len text h = cc
arrives→eq (going code' len' out) code len text h = ground (arith, bytes_eq→eq out text)

pub symbol_walk :
    (s : ℕ) → s < 256 → push_bits canonical (code_bits s) (going 0 0 []) ≡ going 0 0 (s ∷ [])
symbol_walk s h =
    arrives→eq (push_bits canonical (code_bits s) (going 0 0 [])) 0 0 (s ∷ [])
      (symbols_test_at canonical s h symbols_table)

pub padding_walk :
    (k : ℕ) → k ≤ 7 → push_bits canonical (replicate k 1) (going 0 0 []) ≡ going (2 ^ k - 1) k []
padding_walk k h =
    arrives→eq (push_bits canonical (replicate k 1) (going 0 0 [])) (2 ^ k - 1) k []
      (padding_test_at canonical k (omega arith) padding_table)

-- The bytes pushed so far do not steer the walk: `out` may be put in front of them.
unfoldable pub behind : Bytes → Walk → Walk
behind out (going code len text) = going code len (out ++ text)
behind out (failed text) = failed (out ++ text)

push_bit-behind :
    (c : Canonical) (out : Bytes) (w : Walk) (b : ℕ)
    → push_bit c (behind out w) b ≡ behind out (push_bit c w b)
unfolding push_bit behind
push_bit-behind c out (failed text) b = refl
push_bit-behind c out (going code len text) b =
    let code' = code * 2 % 2 ^ 32 + b in
    let offset = (code' + 2 ^ 32 - get_or c.first_code (len + 1) 0) % 2 ^ 32 in
    let symbol = get_or c.symbols (get_or c.first_index (len + 1) 0 + offset) 0 in
    ground (arith, append_assoc out text ((symbol % 256) ∷ []))

pub push_bits-behind :
    (c : Canonical) (out : Bytes) (bits : List ℕ) (w : Walk)
    → push_bits c bits (behind out w) ≡ behind out (push_bits c bits w)
unfolding push_bits
push_bits-behind c out [] w = refl
push_bits-behind c out (b ∷ bs) w = rw push_bit-behind (push_bits-behind c out bs (push_bit c w b))

pub push_bits-append :
    (c : Canonical) (xs ys : List ℕ) (w : Walk)
    → push_bits c (xs ++ ys) w ≡ push_bits c ys (push_bits c xs w)
unfolding push_bits
push_bits-append c [] ys w = refl
push_bits-append c (x ∷ xs) ys w = push_bits-append c xs ys (push_bit c w x)
