-- ===== src/Chunked/Meets.antt =====
-- How a round on a longer input goes, next to the round on its first part.
use honeybeepf_llm.Prelude.{
  ℕ, ◌+◌, ◌-◌, ◌<◌, ◌≤◌, ◌≡◌, refl, ap, ◌∙◌, inl, inr, List, [], ◌∷◌, ◌++◌, Bytes, length, take,
  ltb, if◌then◌else◌, min, arith, Bool-cases, ltb→lt, ltb→ge, lt→ltb, ge→ltb, length-append,
}
use honeybeepf_llm.Chunked.Types.{ChunkRules, ChunkState, Line}
use honeybeepf_llm.Chunked.Lines.{EndsInside, line-EndsInside, Kept, line-append}
use honeybeepf_llm.Chunked.Walk.{line, after_line, Round, stop, go, line_round, round}
use honeybeepf_llm.Chunked.Seen.{concat, take-append_le, slices_join}

-- How a round on the longer input goes, next to the round on its first part.
pub data Meets (rules : ChunkRules) (s : ChunkState) (a b : Bytes) : Type 0 where
  stops : round rules s a ≡ stop → Meets rules s a b
  same :
      (s' : ChunkState) (k : ℕ) (slices : List Bytes)
      → round rules s a ≡ go s' k slices
      → round rules s (a ++ b) ≡ go s' k slices
      → k ≤ length a
      → Meets rules s a b
  over_end :
      (s' : ChunkState) (slices : List Bytes)
      → round rules s a ≡ go s' (length a) slices
      → round rules s' [] ≡ stop
      → b ≡ []
      → Meets rules s a b
  over :
      (s' s'' : ChunkState) (k : ℕ) (slices more whole : List Bytes)
      → round rules s a ≡ go s' (length a) slices
      → round rules s' [] ≡ stop
      → round rules s' b ≡ go s'' k more
      → round rules s (a ++ b) ≡ go s'' (length a + k) whole
      → concat whole ≡ concat slices ++ concat more
      → Meets rules s a b

pub line_meets :
    (rules : ChunkRules) (s : ChunkState) (a b : Bytes) (l : Line)
    → line rules a ≡ l
    → Kept l (line rules (a ++ b))
    → EndsInside (length a) l
    → round rules s a ≡ line_round rules s a (line rules a)
    → round rules s (a ++ b) ≡ line_round rules s (a ++ b) (line rules (a ++ b))
    → Meets rules s a b
line_meets rules s a b Line.cut e k h here there = stops (here ∙ ap (line_round rules s a) e)
line_meets rules s a b Line.bad e k h here there =
    same ChunkState.broken 0 [] (here ∙ ap (line_round rules s a) e)
      (there ∙ ap (line_round rules s (a ++ b)) k) (omega arith)
line_meets rules s a b (Line.ends_at lf) e k h here there =
    same (after_line rules s (take (lf - 1) a)) (lf + 1) [] (here ∙ ap (line_round rules s a) e)
      (there
        ∙ ap (line_round rules s (a ++ b)) k
        ∙ ap (λ text. go (after_line rules s text) (lf + 1) [])
            (take-append_le (lf - 1) a b (omega arith)))
      (omega arith)

-- The state after `n` of the bytes due in a chunk, and after them.
abbrev pub next_of : ChunkRules → ℕ → ℕ → ChunkState
next_of rules left n =
    if ltb n left
    then ChunkState.chunk (left - n)
    else if rules.data_crlf
    then ChunkState.data_end
    else ChunkState.skip 2

pub next_of_split :
    (rules : ChunkRules) (left n m : ℕ)
    → n ≤ left
    → next_of rules left (n + m) ≡ next_of rules (left - n) m
next_of_split rules left n m le = elim (Bool-cases (ltb m (left - n))) [
  | inl e ↦
      rw (e, lt→ltb (n + m) left (omega (arith, ltb→lt _ _ e))) (ap ChunkState.chunk (omega arith))
  | inr e ↦ rw (e, ge→ltb (n + m) left (omega (arith, ltb→ge _ _ e))) refl
]

pub next_skip : ℕ → ℕ → ChunkState
next_skip left n = if ltb n left then ChunkState.skip (left - n) else ChunkState.size

pub next_skip_split : (left n m : ℕ) → n ≤ left → next_skip left (n + m) ≡ next_skip (left - n) m
unfolding next_skip
next_skip_split left n m le = elim (Bool-cases (ltb m (left - n))) [
  | inl e ↦
      rw (e, lt→ltb (n + m) left (omega (arith, ltb→lt _ _ e))) (ap ChunkState.skip (omega arith))
  | inr e ↦ rw (e, ge→ltb (n + m) left (omega (arith, ltb→ge _ _ e))) refl
]

abbrev pub chunk_go : ChunkRules → ℕ → Bytes → ℕ → Round
chunk_go rules left rest n = go (next_of rules left n) n (take n rest ∷ [])

abbrev pub skip_go : ℕ → ℕ → Round
skip_go left n = go (next_skip left n) n []

-- A round on data due is `chunk_go`, on some bytes at least.
pub chunk_round :
    (rules : ChunkRules) (left : ℕ) (rest : Bytes) (n : ℕ)
    → 0 < length rest
    → min left (length rest) ≡ n
    → round rules (ChunkState.chunk left) rest ≡ chunk_go rules left rest n
unfolding round
chunk_round rules left [] n h e = absurd (omega arith)
chunk_round rules left (b ∷ bs) n h e = ap (chunk_go rules left (b ∷ bs)) e

pub skip_some :
    (rules : ChunkRules) (left : ℕ) (rest : Bytes) (n : ℕ)
    → 0 < length rest
    → min left (length rest) ≡ n
    → round rules (ChunkState.skip left) rest ≡ skip_go left n
unfolding round next_skip
skip_some rules left [] n h e = absurd (omega arith)
skip_some rules left (b ∷ bs) n h e = ap (skip_go left) e

pub chunk_stops :
    (rules : ChunkRules) (left n : ℕ) → n < left → round rules (next_of rules left n) [] ≡ stop
unfolding round
chunk_stops rules left n lt = rw (lt→ltb n left lt) refl

pub skip_stops :
    (rules : ChunkRules) (left n : ℕ) → n < left → round rules (next_skip left n) [] ≡ stop
unfolding round next_skip
skip_stops rules left n lt = rw (lt→ltb n left lt) refl

pub next_of_lt :
    (rules : ChunkRules) (left n : ℕ)
    → n < left
    → next_of rules left n ≡ ChunkState.chunk (left - n)
next_of_lt rules left n lt = rw (lt→ltb n left lt) refl

pub next_skip_lt : (left n : ℕ) → n < left → next_skip left n ≡ ChunkState.skip (left - n)
unfolding next_skip
next_skip_lt left n lt = rw (lt→ltb n left lt) refl

pub chunk_meets :
    (rules : ChunkRules) (left : ℕ) (a b : Bytes)
    → 0 < length a
    → Meets rules (ChunkState.chunk left) a b
chunk_meets rules left a b some_bytes = elim (Bool-cases (ltb (length a) left)) [
  | inr e ↦
      let le : left ≤ length a = ltb→ge _ _ e in
      same (next_of rules left left) left (take left a ∷ [])
        (chunk_round rules left a left some_bytes (omega arith))
        (chunk_round rules left (a ++ b) left (omega (arith, length-append a b))
            (omega (arith, le, length-append a b))
          ∙ ap (λ text. go (next_of rules left left) left (text ∷ [])) (take-append_le left a b le))
        le
  | inl e ↦ chunk_over b (ltb→lt _ _ e)
]
  where
    chunk_over : (b : Bytes) → length a < left → Meets rules (ChunkState.chunk left) a b
    chunk_over [] lt =
        over_end (next_of rules left (length a)) (take (length a) a ∷ [])
          (chunk_round rules left a (length a) some_bytes (omega arith))
          (chunk_stops rules left (length a) lt) refl
    chunk_over (c ∷ cs) lt =
        let b = c ∷ cs in
        let n = min (left - length a) (length b) in
        over (next_of rules left (length a)) (next_of rules (left - length a) n) n
          (take (length a) a ∷ []) (take n b ∷ []) (take (length a + n) (a ++ b) ∷ [])
          (chunk_round rules left a (length a) some_bytes (omega arith))
          (chunk_stops rules left (length a) lt)
          (ap (λ s. round rules s b) (next_of_lt rules left (length a) lt)
            ∙ chunk_round rules (left - length a) b n (omega arith) refl)
          (chunk_round rules left (a ++ b) (length a + n) (omega (arith, length-append a b))
              (omega (arith, length-append a b))
            ∙ ap (λ s. go s (length a + n) (take (length a + n) (a ++ b) ∷ []))
                (next_of_split rules left (length a) n (omega arith)))
          (slices_join n a b)

pub skip_meets :
    (rules : ChunkRules) (left : ℕ) (a b : Bytes)
    → 0 < length a
    → Meets rules (ChunkState.skip left) a b
skip_meets rules left a b some_bytes = elim (Bool-cases (ltb (length a) left)) [
  | inr e ↦
      let le : left ≤ length a = ltb→ge _ _ e in
      same (next_skip left left) left [] (skip_some rules left a left some_bytes (omega arith))
        (skip_some rules left (a ++ b) left (omega (arith, length-append a b))
          (omega (arith, le, length-append a b)))
        le
  | inl e ↦ skip_over b (ltb→lt _ _ e)
]
  where
    skip_over : (b : Bytes) → length a < left → Meets rules (ChunkState.skip left) a b
    skip_over [] lt =
        over_end (next_skip left (length a)) []
          (skip_some rules left a (length a) some_bytes (omega arith))
          (skip_stops rules left (length a) lt) refl
    skip_over (c ∷ cs) lt =
        let b = c ∷ cs in
        let n = min (left - length a) (length b) in
        over (next_skip left (length a)) (next_skip (left - length a) n) n [] [] []
          (skip_some rules left a (length a) some_bytes (omega arith))
          (skip_stops rules left (length a) lt)
          (ap (λ s. round rules s b) (next_skip_lt left (length a) lt)
            ∙ skip_some rules (left - length a) b n (omega arith) refl)
          (skip_some rules left (a ++ b) (length a + n) (omega (arith, length-append a b))
              (omega (arith, length-append a b))
            ∙ ap (λ s. go s (length a + n) []) (next_skip_split left (length a) n (omega arith)))
          refl

pub meets : (rules : ChunkRules) (s : ChunkState) (a b : Bytes) → Meets rules s a b
unfolding round
meets rules ChunkState.ended a b = stops refl
meets rules ChunkState.broken a b = stops refl
meets rules (ChunkState.chunk left) [] b = stops refl
meets rules (ChunkState.chunk left) (x ∷ xs) b = chunk_meets rules left (x ∷ xs) b (omega arith)
meets rules (ChunkState.skip left) [] b = stops refl
meets rules (ChunkState.skip left) (x ∷ xs) b = skip_meets rules left (x ∷ xs) b (omega arith)
meets rules ChunkState.size a b =
    line_meets rules ChunkState.size a b (line rules a) refl (line-append rules a b)
      (line-EndsInside rules a) refl refl
meets rules ChunkState.data_end a b =
    line_meets rules ChunkState.data_end a b (line rules a) refl (line-append rules a b)
      (line-EndsInside rules a) refl refl
meets rules ChunkState.trailer a b =
    line_meets rules ChunkState.trailer a b (line rules a) refl (line-append rules a b)
      (line-EndsInside rules a) refl refl
