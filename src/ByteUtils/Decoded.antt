-- ===== src/ByteUtils/Decoded.antt =====
-- byte_utils.rs: `decode_chunked_body` on bodies sent in the chunked coding.
use honeybeepf_llm.Prelude.{
  ℕ, ◌<◌, ◌≡◌, refl, ap, ◌∙◌, true, false, inl, inr, Option, none, some, List, [], ◌∷◌, ◌++◌, Bytes,
  length, ◌==◌, is_some, arith, Bool-cases, length-append, if◌then◌else◌,
}
use honeybeepf_llm.Chunked.Types.{ChunkState, basic}
use honeybeepf_llm.Chunked.Walk.{later, walk, Walked}
use honeybeepf_llm.Chunked.Seen.{seen, concat}
use honeybeepf_llm.Chunked.Sent.{Chunk, AreChunks, size_line, sent, contents, Passes, walk-Passes}
use honeybeepf_llm.ByteUtils.Search.{starts_with, contains_pattern, decode_chunked_body}
use honeybeepf_llm.ByteUtils.FirstMatch.{first_match, find_pattern-first_match}

later-is_some : (p : Option ℕ) → is_some p ≡ true → is_some (later p) ≡ true
later-is_some none e = e
later-is_some (some i) e = refl

first_match-crlf :
    (text rest : Bytes) → is_some (first_match (text ++ (13 ∷ 10 ∷ rest)) (13 ∷ 10 ∷ [])) ≡ true
unfolding first_match
first_match-crlf [] rest = refl
first_match-crlf (b ∷ bs) rest =
    elim (Bool-cases (starts_with (b ∷ (bs ++ (13 ∷ 10 ∷ rest))) (13 ∷ 10 ∷ []))) [
      | inl e ↦ rw e refl
      | inr e ↦ rw e (later-is_some _ (first_match-crlf bs rest))
    ]

contains-crlf :
    (text rest : Bytes) → contains_pattern (text ++ (13 ∷ 10 ∷ rest)) (13 ∷ 10 ∷ []) ≡ true
contains-crlf text rest =
    ap is_some (find_pattern-first_match (text ++ (13 ∷ 10 ∷ rest)) (13 ∷ 10 ∷ []))
    ∙ first_match-crlf text rest

-- What is returned after a walk that passed on some bytes.
decoded :
    (buffer bytes : Bytes) (out : Option Walked)
    → 0 < length bytes
    → Passes bytes (seen out)
    → elim out [
      | none ↦ none
      | some (s, used, slices) ↦
          if◌then◌else◌ {A = Option Bytes}
            (length (concat slices) == 0)
            (some buffer)
            (some (concat slices))
    ]
      ≡ some bytes
decoded buffer bytes none filled h = absurd h
decoded buffer bytes (some (s, used, slices)) filled (_, e) = rw (e, not_empty) refl
  where
    not_empty : (length bytes == 0) ≡ false
    not_empty = ground arith

-- Take one chunk or more, each of one byte or more, and send them in the chunked coding of RFC
-- 9112 with the last chunk and no trailers, each size in hexadecimal digits with any leading
-- zeros. Where sizes and size lines fit in 64 bits, `decode_chunked_body` gives back exactly the
-- chunks' bytes.
pub decode_chunked_body-sent :
    (c : Chunk) (cs : List Chunk)
    → AreChunks (c ∷ cs)
    → decode_chunked_body (sent (c ∷ cs)) ≡ some (contents (c ∷ cs))
unfolding decode_chunked_body
decode_chunked_body-sent c cs h =
    rw (contains-crlf (size_line c) (c.content ++ (13 ∷ 10 ∷ sent cs))) (
      decoded (sent (c ∷ cs)) (contents (c ∷ cs)) (walk basic ChunkState.size (sent (c ∷ cs)))
        (omega (arith, h.0.2, length-append c.content (contents cs))) (walk-Passes (c ∷ cs) h))
