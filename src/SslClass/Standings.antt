-- ===== src/SslClass/Standings.antt =====
-- What an entry stands for, and what a Write begins with, read off the text.
use honeybeepf_llm.Prelude.{
  ℕ, ◌+◌, ◌*◌, ◌<◌, ◌≡◌, Bool, true, false, ◌&&◌, ◌||◌, [], ◌∷◌, Bytes, ltb, ◌==◌, if◌then◌else◌,
  arith, bytes_eq, take, length,
}
use honeybeepf_llm.SslClass.Entry.{ClassEntry, word}
use honeybeepf_llm.SslClass.Spec.{Standing, WriteHead}

-- The low byte of each standing.
abbrev pub low_of : Standing → ℕ
low_of Standing.fresh = 0
low_of (Standing.sent false) = 1
low_of (Standing.sent true) = 0x81
low_of Standing.other_request = 2
low_of Standing.server_or_unserved = 3
low_of Standing.http2 = 4

-- The entry stands for the standing, and its other bytes are the creation time.
abbrev pub Keeps : ClassEntry → Standing → ℕ → Type 0
Keeps entry s time = entry.bits ≡ 256 * time + low_of s

-- Whether the bytes begin with a text.
abbrev pub begins : Bytes → Bytes → Bool
begins text head = bytes_eq (take (length text) head) text

-- What a Write of `len` bytes that begin with `head` is, read off the text.
unfoldable pub write_head : Bytes → ℕ → Bool → WriteHead
write_head head len gets_response =
    if ltb len 8 || begins (13 ∷ 10 ∷ []) head
    then WriteHead.cut
    else if begins (80 ∷ 79 ∷ 83 ∷ 84 ∷ 32 ∷ []) head
    then WriteHead.post
    else if begins (80 ∷ 82 ∷ 73 ∷ 32 ∷ 42 ∷ 32 ∷ 72 ∷ 84 ∷ []) head
    then WriteHead.preface
    else if begins (72 ∷ 84 ∷ 84 ∷ 80 ∷ 47 ∷ 49 ∷ 46 ∷ []) head
    then WriteHead.response
    else if begins (71 ∷ 69 ∷ 84 ∷ 32 ∷ []) head && gets_response
    then WriteHead.asks_response
    else if begins (71 ∷ 69 ∷ 84 ∷ 32 ∷ []) head
        || begins (80 ∷ 85 ∷ 84 ∷ 32 ∷ []) head
        || begins (72 ∷ 69 ∷ 65 ∷ 68 ∷ []) head
        || begins (68 ∷ 69 ∷ 76 ∷ 69 ∷ []) head
        || begins (80 ∷ 65 ∷ 84 ∷ 67 ∷ []) head
        || begins (79 ∷ 80 ∷ 84 ∷ 73 ∷ []) head
        || begins (67 ∷ 79 ∷ 78 ∷ 78 ∷ []) head
    then WriteHead.other_method
    else WriteHead.body

-- Two words are equal where their bytes are.
pub word_eq :
    (a b c d p q r s : ℕ)
    → a < 256
    → b < 256
    → c < 256
    → d < 256
    → p < 256
    → q < 256
    → r < 256
    → s < 256
    → (word a b c d == word p q r s) ≡ bytes_eq (a ∷ b ∷ c ∷ d ∷ []) (p ∷ q ∷ r ∷ s ∷ [])
word_eq a b c d p q r s ha hb hc hd hp hq hr hs = ground arith
