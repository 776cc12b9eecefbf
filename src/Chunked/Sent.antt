-- ===== src/Chunked/Sent.antt =====
-- chunked.rs: a body in the chunked coding of RFC 9112, section 7.1, and the walk of it.
use honeybeepf_llm.Prelude.{
  ℕ, zero, suc, ◌+◌, ◌-◌, ◌*◌, ◌^◌, ◌≤◌, ◌<◌, ◌≡◌, refl, sym, ap, ◌∙◌, false, Option, none, some,
  List, [], ◌∷◌, ◌++◌, Bytes, length, take, drop, get_or, ltb, ◌==◌, arith, lt→ltb, le→leb, ge→ltb,
  append-nil, length-append, min,
}
use mathlib.Core.Path.{subst}
use honeybeepf_llm.Utf8.{is_utf8, from_hex}
use honeybeepf_llm.Chunked.Types.{ChunkState, Line, basic, usize_max}
use honeybeepf_llm.Chunked.Walk.{
  go, round, line, line_from, line_round, position, after_line, data_round, skip_round, walk,
  walk_loop,
}
use honeybeepf_llm.Chunked.Seen
use honeybeepf_llm.Chunked.Seen.{
  Seen, seen, seen-behind, concat, Extends, more_rounds, take-append_le,
}
use honeybeepf_llm.Chunked.Digits.{
  hex_text, number, AreDigits, AreChars, hex_text-AreChars, size_of-hex_text,
}

-- A chunk: the digits of its size, of which there is one at least, and its bytes.
pub record Chunk : Type 0 where
  pub digit : ℕ
  pub digits : List ℕ
  pub content : Bytes

abbrev pub size_line : Chunk → Bytes
size_line c = hex_text (c.digit ∷ c.digits)

-- The digits write the number of bytes, which is a word and not 0.
abbrev pub IsChunk : Chunk → Type 0
IsChunk c =
    AreDigits (c.digit ∷ c.digits)
    × (number 0 (c.digit ∷ c.digits) ≡ length c.content)
    × (0 < length c.content)
    × (length c.content < 2 ^ 64)
    × (length (size_line c) + 1 < 2 ^ 64)

abbrev pub AreChunks : List Chunk → Type 0
AreChunks [] = Unit
AreChunks (c ∷ cs) = IsChunk c × AreChunks cs

-- Each chunk as its size, its bytes and the ends of both lines, then an empty chunk and no trailers.
abbrev pub sent : List Chunk → Bytes
sent [] = 48 ∷ 13 ∷ 10 ∷ 13 ∷ 10 ∷ []
sent (c ∷ cs) = size_line c ++ (13 ∷ 10 ∷ (c.content ++ (13 ∷ 10 ∷ sent cs)))

abbrev pub contents : List Chunk → Bytes
contents [] = []
contents (c ∷ cs) = c.content ++ contents cs

position-line :
    (text rest : Bytes)
    → AreChars text
    → position 10 (text ++ (13 ∷ 10 ∷ rest)) ≡ some (length text + 1)
unfolding position
position-line [] rest h = refl
position-line (b ∷ bs) rest (low, high, h) =
    rw (position-line bs rest h, not_lf) (ap some (omega arith))
  where
    not_lf : (b == 10) ≡ false
    not_lf = ground arith

at_cr : (text rest : Bytes) (i : ℕ) → i ≡ length text → get_or (text ++ (13 ∷ 10 ∷ rest)) i 0 ≡ 13
at_cr [] rest i e = ap (λ j. get_or (13 ∷ 10 ∷ rest) j 0) e
at_cr (b ∷ bs) rest zero e = absurd (omega arith)
at_cr (b ∷ bs) rest (suc i) e = at_cr bs rest i (omega arith)

take-length : (xs ys : Bytes) (n : ℕ) → n ≡ length xs → take n (xs ++ ys) ≡ xs
take-length [] ys zero e = refl
take-length [] ys (suc n) e = absurd (omega arith)
take-length (x ∷ xs) ys zero e = absurd (omega arith)
take-length (x ∷ xs) ys (suc n) e = ap (◌∷◌ x) (take-length xs ys n (omega arith))

drop-length : (xs ys : Bytes) (n : ℕ) → n ≡ length xs → drop n (xs ++ ys) ≡ ys
drop-length [] ys zero e = refl
drop-length [] ys (suc n) e = absurd (omega arith)
drop-length (x ∷ xs) ys zero e = absurd (omega arith)
drop-length (x ∷ xs) ys (suc n) e = drop-length xs ys n (omega arith)

line_from-text :
    (rounds : ℕ) (text rest : Bytes)
    → AreChars text
    → length text + 1 < 2 ^ 64
    → line_from (suc rounds) basic (text ++ (13 ∷ 10 ∷ rest)) 0 ≡ Line.ends_at (length text + 1)
unfolding line_from basic
line_from-text rounds text rest h small =
    rw
      (
        line_from,
        position-line text rest h,
        at_cr text rest (0 + (length text + 1) - 1) (omega arith),
        lt→ltb 0 (0 + (length text + 1)) (omega arith),
        ge→ltb usize_max (0 + (length text + 1)) (omega arith),
      )
      (ap Line.ends_at (omega arith))

line-text :
    (text rest : Bytes)
    → AreChars text
    → length text + 1 < 2 ^ 64
    → line basic (text ++ (13 ∷ 10 ∷ rest)) ≡ Line.ends_at (length text + 1)
unfolding line
line-text text rest h small =
    let input = text ++ (13 ∷ 10 ∷ rest) in
    subst (λ n. line_from n basic input 0 ≡ Line.ends_at (length text + 1)) (suc_one (length input))
      (line_from-text (length input) text rest h small)
  where
    suc_one : (n : ℕ) → suc n ≡ n + 1
    suc_one n = omega arith

-- The round of a line's state that takes a line of digits, or an empty one.
line_round-text :
    (s : ChunkState) (text rest : Bytes)
    → AreChars text
    → length text + 1 < 2 ^ 64
    → line_round basic s (text ++ (13 ∷ 10 ∷ rest)) (line basic (text ++ (13 ∷ 10 ∷ rest)))
      ≡ go (after_line basic s text) (length text + 1 + 1) []
line_round-text s text rest h small =
    rw
      (
        line-text text rest h small,
        take-length text (13 ∷ 10 ∷ rest) (length text + 1 - 1) (omega arith),
      )
      refl

drop_line :
    (n : ℕ) (text rest : Bytes) → n ≡ length text + 2 → drop n (text ++ (13 ∷ 10 ∷ rest)) ≡ rest
drop_line n [] rest e = ap (λ n. drop n (13 ∷ 10 ∷ rest)) e
drop_line zero (b ∷ bs) rest e = absurd (omega arith)
drop_line (suc n) (b ∷ bs) rest e = drop_line n bs rest (omega arith)

data_round-content :
    (content rest : Bytes)
    → 0 < length content
    → data_round basic (length content) (content ++ (13 ∷ 10 ∷ rest))
      ≡ go (ChunkState.skip 2) (length content) (content ∷ [])
unfolding basic
data_round-content [] rest h = absurd (omega arith)
data_round-content (b ∷ bs) rest h =
    rw (within, short)
      (ap (λ bytes. go (ChunkState.skip 2) (length (b ∷ bs)) ((b ∷ bytes) ∷ []))
        (take-length bs (13 ∷ 10 ∷ rest) (length bs) refl))
  where
    within : min (length (b ∷ bs)) (length (b ∷ (bs ++ (13 ∷ 10 ∷ rest)))) ≡ length (b ∷ bs)
    within = omega (arith, length-append bs (13 ∷ 10 ∷ rest))

    short : ltb (length (b ∷ bs)) (length (b ∷ bs)) ≡ false
    short = ge→ltb _ _ (omega arith)

skip_round-crlf : (rest : Bytes) → skip_round 2 (13 ∷ 10 ∷ rest) ≡ go ChunkState.size 2 []
skip_round-crlf rest = rw within refl
  where
    within : min 2 (length (13 ∷ 10 ∷ rest)) ≡ 2
    within = omega arith

-- A walk that has ended, with these bytes passed on.
abbrev pub Passes : Bytes → Option Seen → Type 0
Passes bytes none = ⊥
Passes bytes (some (s, used, got)) = (s ≡ ChunkState.ended) × (got ≡ bytes)

later-Passes :
    (n : ℕ) (front bytes : Bytes) (out : Option Seen)
    → Passes bytes out
    → Passes (front ++ bytes) (Seen.later n front out)
later-Passes n front bytes none h = h
later-Passes n front bytes (some (s, used, got)) (e, f) = (e, ap (λ b. front ++ b) f)

-- One round of a walk.
step-Passes :
    (k n : ℕ) (rest : Bytes) (s s' : ChunkState) (slices : List Bytes) (bytes : Bytes)
    → round basic s rest ≡ go s' n slices
    → Passes bytes (seen (walk_loop k basic s' (drop n rest)))
    → Passes (concat slices ++ bytes) (seen (walk_loop (suc k) basic s rest))
unfolding walk_loop
step-Passes k n rest s s' slices bytes e h =
    rw (walk_loop, e, seen-behind n slices (walk_loop k basic s' (drop n rest)))
      (later-Passes n (concat slices) bytes _ h)

-- The rounds that a body takes.
abbrev rounds_of : List Chunk → ℕ
rounds_of [] = 3
rounds_of (c ∷ cs) = suc (suc (suc (rounds_of cs)))

after_line-size :
    (c : Chunk)
    → IsChunk c
    → after_line basic ChunkState.size (size_line c) ≡ ChunkState.chunk (length c.content)
unfolding after_line basic
after_line-size c (digits, same, filled, small, short) =
    rw
      (
        size_of-hex_text c.digit c.digits digits (omega arith),
        same,
        gt_zero,
        le→leb (length c.content) usize_max (omega arith),
      )
      refl
  where
    gt_zero : (length c.content == 0) ≡ false
    gt_zero = ground arith

last-Passes : Passes [] (seen (walk_loop 3 basic ChunkState.size (sent [])))
unfolding walk_loop round line line_from position after_line basic is_utf8 from_hex
last-Passes = (refl, refl)

-- A chunk's three rounds.
chunk-Passes :
    (k : ℕ) (c : Chunk) (rest bytes : Bytes)
    → IsChunk c
    → Passes bytes (seen (walk_loop k basic ChunkState.size rest))
    → Passes (c.content ++ bytes) (
        seen (
          walk_loop
            (suc (suc (suc k)))
            basic
            ChunkState.size
            (size_line c ++ (13 ∷ 10 ∷ (c.content ++ (13 ∷ 10 ∷ rest))))))
unfolding round
chunk-Passes k c rest bytes h passes =
    let text = size_line c in
    let content = c.content in
    let after_content = 13 ∷ 10 ∷ rest in
    let after_size = content ++ after_content in
    let chars = hex_text-AreChars (c.digit ∷ c.digits) h.0 in
    step-Passes (suc (suc k)) (length text + 1 + 1) (text ++ (13 ∷ 10 ∷ after_size)) ChunkState.size
      (ChunkState.chunk (length content)) [] (content ++ bytes)
      (line_round-text ChunkState.size text after_size chars h.4
        ∙ ap (λ s. go s (length text + 1 + 1) []) (after_line-size c h))
      (rw (drop_line (length text + 1 + 1) text after_size (omega arith)) (
        subst
          (λ front.
            Passes (front ++ bytes)
              (seen (walk_loop (suc (suc k)) basic (ChunkState.chunk (length content)) after_size)))
          (append-nil content)
          (step-Passes (suc k) (length content) after_size (ChunkState.chunk (length content))
            (ChunkState.skip 2) (content ∷ []) bytes (data_round-content content rest h.2)
            (rw (drop-length content after_content (length content) refl) (
              step-Passes k 2 after_content (ChunkState.skip 2) ChunkState.size [] bytes
                (skip_round-crlf rest) passes)))))

sent-Passes :
    (cs : List Chunk)
    → AreChunks cs
    → Passes (contents cs) (seen (walk_loop (rounds_of cs) basic ChunkState.size (sent cs)))
sent-Passes [] h = last-Passes
sent-Passes (c ∷ cs) (h, hs) =
    chunk-Passes (rounds_of cs) c (sent cs) (contents cs) h (sent-Passes cs hs)

rounds_of_le : (cs : List Chunk) → rounds_of cs ≤ 4 * length (sent cs) + 4
rounds_of_le [] = omega arith
rounds_of_le (c ∷ cs) =
    let after = c.content ++ (13 ∷ 10 ∷ sent cs) in
    omega (
      arith,
      rounds_of_le cs,
      length-append (size_line c) (13 ∷ 10 ∷ after),
      length-append c.content (13 ∷ 10 ∷ sent cs),
    )

-- The walk of a body that was sent whole ends, and passes on what the chunks hold.
pub walk-Passes :
    (cs : List Chunk)
    → AreChunks cs
    → Passes (contents cs) (seen (walk basic ChunkState.size (sent cs)))
unfolding walk
walk-Passes cs h =
    kept (seen (walk_loop (rounds_of cs) basic ChunkState.size (sent cs))) _
      (more_rounds (rounds_of cs) (4 * length (sent cs) + 4) basic ChunkState.size (sent cs)
        (rounds_of_le cs))
      (sent-Passes cs h)
  where
    kept : (p q : Option Seen) → Extends p q → Passes (contents cs) p → Passes (contents cs) q
    kept none q e f = absurd f
    kept (some x) q e f = subst (Passes (contents cs)) (sym e) f
