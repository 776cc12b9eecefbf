-- ===== src/Chunked/Walk.antt =====
-- chunked.rs: `ChunkWalk::walk`, a round at a time.
use honeybeepf_llm.Prelude.{
  ℕ, zero, suc, ◌+◌, ◌-◌, ◌*◌, Bool, true, false, not, ◌&&◌, Option, none, some, List, [], ◌∷◌,
  ◌++◌, Bytes, length, take, drop, get_or, ltb, leb, ◌==◌, if◌then◌else◌, min,
}
use honeybeepf_llm.Utf8.{is_utf8, trim, from_hex}
use honeybeepf_llm.Chunked.Types.{ChunkRules, ChunkState, Line}

abbrev pub later : Option ℕ → Option ℕ
later none = none
later (some i) = some (suc i)

-- `iter().position(|&b| b == x)`
unfoldable pub position : ℕ → Bytes → Option ℕ
position x [] = none
position x (b ∷ bs) = let rest = position x bs in if b == x then some 0 else later rest

abbrev pub ends_line : ChunkRules → ℕ → Line
ends_line rules lf = if ltb rules.max_line lf then Line.bad else Line.ends_at lf

-- The loop over line feeds from `from` on; each round passes one, so the length bounds the rounds.
unfoldable pub line_from : ℕ → ChunkRules → Bytes → ℕ → Line
unfolding position
line_from zero rules rest from = Line.cut
line_from (suc rounds) rules rest from = elim (position 10 (drop from rest)) [
  | none ↦ if ltb rules.max_line (length rest) then Line.bad else Line.cut
  | some i ↦
      let later = line_from rounds rules rest (from + i + 1) in
      if ltb 0 (from + i) && get_or rest (from + i - 1) 0 == 13
      then ends_line rules (from + i)
      else if rules.bare_lf_breaks
      then Line.bad
      else later
]

unfoldable pub line : ChunkRules → Bytes → Line
unfolding line_from
line rules rest = line_from (length rest + 1) rules rest 0

-- `line.split(|&b| b == b';').next()`
unfoldable pub before_semicolon : Bytes → Bytes
before_semicolon [] = []
before_semicolon (b ∷ bs) = let rest = before_semicolon bs in if b == 59 then [] else b ∷ rest

abbrev pub size_of : Bytes → Option ℕ
size_of text = if is_utf8 text then from_hex (trim text) else none

abbrev pub sized : ChunkRules → Option ℕ → ChunkState
sized rules none = ChunkState.broken
sized rules (some n) =
    if n == 0
    then ChunkState.trailer
    else if leb n rules.max_size
    then ChunkState.chunk n
    else ChunkState.broken

abbrev pub is_empty : Bytes → Bool
is_empty [] = true
is_empty (b ∷ bs) = false

unfoldable pub after_line : ChunkRules → ChunkState → Bytes → ChunkState
unfolding is_utf8 trim from_hex before_semicolon
after_line rules ChunkState.data_end text =
    if is_empty text then ChunkState.size else ChunkState.broken
after_line rules ChunkState.trailer text =
    if is_empty text then ChunkState.ended else ChunkState.trailer
after_line rules ChunkState.size text =
    if rules.utf8_line && not (is_utf8 text)
    then ChunkState.broken
    else sized rules (size_of (if rules.extensions then before_semicolon text else text))
after_line rules _ text = ChunkState.broken

-- One round of the loop: `return used`, or the state, the bytes used and the data passed on.
pub data Round : Type 0 where
  stop : Round
  go : ChunkState → ℕ → List Bytes → Round

abbrev pub data_round : ChunkRules → ℕ → Bytes → Round
data_round rules left [] = stop
data_round rules left (b ∷ bs) =
    let rest = b ∷ bs in
    let n = min left (length rest) in
    let next =
      if ltb n left
      then ChunkState.chunk (left - n)
      else if rules.data_crlf
      then ChunkState.data_end
      else ChunkState.skip 2 in
    go next n (take n rest ∷ [])

abbrev pub skip_round : ℕ → Bytes → Round
skip_round left [] = stop
skip_round left (b ∷ bs) =
    let n = min left (length (b ∷ bs)) in
    go (if ltb n left then ChunkState.skip (left - n) else ChunkState.size) n []

abbrev pub line_round : ChunkRules → ChunkState → Bytes → Line → Round
line_round rules s rest Line.cut = stop
line_round rules s rest Line.bad = go ChunkState.broken 0 []
line_round rules s rest (Line.ends_at lf) = go (after_line rules s (take (lf - 1) rest)) (lf + 1) []

unfoldable pub round : ChunkRules → ChunkState → Bytes → Round
unfolding line after_line
round rules ChunkState.ended rest = stop
round rules ChunkState.broken rest = stop
round rules (ChunkState.chunk left) rest = data_round rules left rest
round rules (ChunkState.skip left) rest = skip_round left rest
round rules ChunkState.size rest = line_round rules ChunkState.size rest (line rules rest)
round rules ChunkState.data_end rest = line_round rules ChunkState.data_end rest (line rules rest)
round rules ChunkState.trailer rest = line_round rules ChunkState.trailer rest (line rules rest)

-- The state at the end, the bytes used, and the slices passed to `data`.
abbrev pub Walked : Type 0
Walked = ChunkState × ℕ × List Bytes

abbrev pub behind : ℕ → List Bytes → Option Walked → Option Walked
behind n slices none = none
behind n slices (some (s, used, more)) = some (s, n + used, slices ++ more)

-- `none` is no value of the program: the rounds ran out.
unfoldable pub walk_loop : ℕ → ChunkRules → ChunkState → Bytes → Option Walked
unfolding round
walk_loop zero rules s rest = none
walk_loop (suc rounds) rules s rest = elim (round rules s rest) [
  | stop ↦ some (s, 0, [])
  | go s' n slices ↦ behind n slices (walk_loop rounds rules s' (drop n rest))
]

-- A round that uses no byte is followed by one that does, or by the end.
unfoldable pub walk : ChunkRules → ChunkState → Bytes → Option Walked
unfolding walk_loop
walk rules s input = walk_loop (4 * length input + 4) rules s input
