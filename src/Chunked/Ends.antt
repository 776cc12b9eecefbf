-- ===== src/Chunked/Ends.antt =====
-- `walk` comes to an end, and uses no more bytes than it was given.
use honeybeepf_llm.Prelude.{
  ℕ, zero, suc, ◌+◌, ◌-◌, ◌*◌, ◌<◌, ◌≤◌, ◌⊎◌, inl, inr, Option, none, some, List, [], ◌∷◌, Bytes,
  length, drop, ltb, min, arith, Bool-cases, length-drop, ltb→lt,
}
use mathlib.Core.Path.{subst}
use honeybeepf_llm.Chunked.Types.{ChunkRules, ChunkState, Line}
use honeybeepf_llm.Chunked.Lines.{EndsInside, line-EndsInside}
use honeybeepf_llm.Chunked.Walk.{
  line, Round, stop, go, data_round, skip_round, line_round, round, Walked, behind, walk_loop, walk,
}

-- Rounds that a state may take without using a byte, and one more.
abbrev pub weight : ChunkState → ℕ
weight ChunkState.ended = 1
weight ChunkState.broken = 1
weight ChunkState.size = 2
weight ChunkState.data_end = 2
weight ChunkState.trailer = 2
weight (ChunkState.skip left) = 3
weight (ChunkState.chunk left) = 4

weight_le : (s : ChunkState) → weight s ≤ 4
weight_le ChunkState.ended = omega arith
weight_le ChunkState.broken = omega arith
weight_le ChunkState.size = omega arith
weight_le ChunkState.data_end = omega arith
weight_le ChunkState.trailer = omega arith
weight_le (ChunkState.skip left) = omega arith
weight_le (ChunkState.chunk left) = omega arith

weight_pos : (s : ChunkState) → 0 < weight s
weight_pos ChunkState.ended = omega arith
weight_pos ChunkState.broken = omega arith
weight_pos ChunkState.size = omega arith
weight_pos ChunkState.data_end = omega arith
weight_pos ChunkState.trailer = omega arith
weight_pos (ChunkState.skip left) = omega arith
weight_pos (ChunkState.chunk left) = omega arith

-- A round uses bytes of the input, or leads to a lighter state.
abbrev pub RoundOk : ChunkState → ℕ → Round → Type 0
RoundOk s n stop = Unit
RoundOk s n (go s' used slices) = (used ≤ n) × ((0 < used) ⊎ (weight s' < weight s))

data_round_ok :
    (rules : ChunkRules) (left : ℕ) (rest : Bytes)
    → RoundOk (ChunkState.chunk left) (length rest) (data_round rules left rest)
data_round_ok rules left [] = tt
data_round_ok rules left (b ∷ bs) = (
  omega arith,
  elim (Bool-cases (ltb (min left (length (b ∷ bs))) left)) [
    | inl e ↦ inl (omega (arith, ltb→lt _ _ e))
    | inr e ↦ elim (Bool-cases rules.data_crlf) [
      | inl f ↦ rw (e, f) (inr (omega arith))
      | inr f ↦ rw (e, f) (inr (omega arith))
    ]
  ],
)

skip_round_ok :
    (left : ℕ) (rest : Bytes) → RoundOk (ChunkState.skip left) (length rest) (skip_round left rest)
skip_round_ok left [] = tt
skip_round_ok left (b ∷ bs) = (
  omega arith,
  elim (Bool-cases (ltb (min left (length (b ∷ bs))) left)) [
    | inl e ↦ inl (omega (arith, ltb→lt _ _ e))
    | inr e ↦ rw e (inr (omega arith))
  ],
)

line_round_ok :
    (rules : ChunkRules) (s : ChunkState) (rest : Bytes) (l : Line)
    → EndsInside (length rest) l
    → 1 < weight s
    → RoundOk s (length rest) (line_round rules s rest l)
line_round_ok rules s rest Line.cut h w = tt
line_round_ok rules s rest Line.bad h w = (omega arith, inr w)
line_round_ok rules s rest (Line.ends_at lf) h w = (omega arith, inl (omega arith))

pub round_ok :
    (rules : ChunkRules) (s : ChunkState) (rest : Bytes)
    → RoundOk s (length rest) (round rules s rest)
unfolding round
round_ok rules ChunkState.ended rest = tt
round_ok rules ChunkState.broken rest = tt
round_ok rules (ChunkState.chunk left) rest = data_round_ok rules left rest
round_ok rules (ChunkState.skip left) rest = skip_round_ok left rest
round_ok rules ChunkState.size rest =
    line_round_ok rules ChunkState.size rest (line rules rest) (line-EndsInside rules rest)
      (omega arith)
round_ok rules ChunkState.data_end rest =
    line_round_ok rules ChunkState.data_end rest (line rules rest) (line-EndsInside rules rest)
      (omega arith)
round_ok rules ChunkState.trailer rest =
    line_round_ok rules ChunkState.trailer rest (line rules rest) (line-EndsInside rules rest)
      (omega arith)

-- The rounds were enough, and no more bytes were used than given.
abbrev pub UsesAtMost : ℕ → Option Walked → Type 0
UsesAtMost n none = ⊥
UsesAtMost n (some (s, used, slices)) = used ≤ n

behind_ok :
    (n used : ℕ) (slices : List Bytes) (out : Option Walked)
    → used ≤ n
    → UsesAtMost (n - used) out
    → UsesAtMost n (behind used slices out)
behind_ok n used slices none le h = elim h [ ]
behind_ok n used slices (some (s, more, later)) le h = omega arith

abbrev pub after_round : ℕ → ChunkRules → ChunkState → Bytes → Round → Option Walked
after_round rounds rules s rest r = elim r [
  | stop ↦ some (s, 0, [])
  | go s' n slices ↦ behind n slices (walk_loop rounds rules s' (drop n rest))
]

-- With these rounds, the loop ends on every input that they are enough for.
abbrev LoopEnds : ℕ → ChunkRules → Type 0
LoopEnds rounds rules =
    (s : ChunkState) (rest : Bytes)
    → 4 * length rest + weight s ≤ rounds
    → UsesAtMost (length rest) (walk_loop rounds rules s rest)

after_round_ok :
    (rounds : ℕ) (rules : ChunkRules) (s : ChunkState) (rest : Bytes) (r : Round)
    → RoundOk s (length rest) r
    → 4 * length rest + weight s ≤ suc rounds
    → LoopEnds rounds rules
    → UsesAtMost (length rest) (after_round rounds rules s rest r)
after_round_ok rounds rules s rest stop h le next = omega arith
after_round_ok rounds rules s rest (go s' n slices) (fits, inl used) le next =
    behind_ok (length rest) n slices (walk_loop rounds rules s' (drop n rest)) fits (
      subst (λ k. UsesAtMost k (walk_loop rounds rules s' (drop n rest))) (length-drop n rest)
        (next s' (drop n rest) (omega (arith, length-drop n rest, weight_le s', weight_pos s))))
after_round_ok rounds rules s rest (go s' n slices) (fits, inr lighter) le next =
    behind_ok (length rest) n slices (walk_loop rounds rules s' (drop n rest)) fits (
      subst (λ k. UsesAtMost k (walk_loop rounds rules s' (drop n rest))) (length-drop n rest)
        (next s' (drop n rest) (omega (arith, length-drop n rest))))

walk-LoopEnds : (rounds : ℕ) (rules : ChunkRules) → LoopEnds rounds rules
unfolding walk_loop
walk-LoopEnds zero rules s rest le = absurd (omega (arith, weight_pos s))
walk-LoopEnds (suc rounds) rules s rest le =
    after_round_ok rounds rules s rest (round rules s rest) (round_ok rules s rest) le
      (walk-LoopEnds rounds rules)

-- `walk` returns from every state, under all rules and on every input, and uses no more bytes than
-- the input has.
pub walk_ends :
    (rules : ChunkRules) (s : ChunkState) (input : Bytes)
    → UsesAtMost (length input) (walk rules s input)
unfolding walk
walk_ends rules s input =
    walk-LoopEnds (4 * length input + 4) rules s input (omega (arith, weight_le s))
