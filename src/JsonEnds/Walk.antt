-- ===== src/JsonEnds/Walk.antt =====
-- json_ends.rs: `BodyWalk`, and the ends of the body that `JsonEnds::feed` keeps.
use honeybeepf_llm.Prelude.{
  ℕ, zero, suc, ◌+◌, ◌-◌, ◌*◌, Bool, true, false, not, ◌&&◌, ◌||◌, Option, none, some, List, [],
  ◌∷◌, ◌++◌, Bytes, length, take, drop, ltb, ◌==◌, if◌then◌else◌, min,
}
use honeybeepf_llm.Chunked.Types.{ChunkRules, ChunkState, usize_max}
use honeybeepf_llm.Chunked.Walk.{position, walk}

abbrev pub max_line : ℕ
max_line = 4096

unfoldable pub walk_rules : ChunkRules
walk_rules = record {
  extensions = true;
  utf8_line = true;
  data_crlf = true;
  max_size = usize_max;
  bare_lf_breaks = true;
  max_line = max_line;
}

-- The bytes due of a body with a Content-Length, or the chunk walk and a line cut by a read.
pub record BodyWalk : Type 0 where
  pub due : Option ℕ
  pub chunks : ChunkState
  pub line : Bytes

unfoldable pub start : Option ℕ → BodyWalk
start due = record { due = due; chunks = ChunkState.size; line = [] }

abbrev pub done : ChunkState → Bool
done ChunkState.ended = true
done ChunkState.broken = true
done _ = false

abbrev is_zero : Option ℕ → Bool
is_zero none = false
is_zero (some n) = n == 0

abbrev is_ended : ChunkState → Bool
is_ended ChunkState.ended = true
is_ended _ = false

abbrev pub is_broken : ChunkState → Bool
is_broken ChunkState.broken = true
is_broken _ = false

unfoldable pub ended : BodyWalk → Bool
ended w = is_zero w.due || is_ended w.chunks

abbrev pub is_empty : Bytes → Bool
is_empty [] = true
is_empty (b ∷ bs) = false

-- Up to the next line feed, and with it.
abbrev pub line_len : Bytes → Option ℕ → ℕ
line_len bytes none = length bytes
line_len bytes (some i) = i + 1

-- The walk's state, the line in progress, the bytes not taken yet, and the slices passed to `keep`.
abbrev pub Fed : Type 0
Fed = ChunkState × Bytes × Bytes × List Bytes

abbrev pub kept_first : List Bytes → Option Fed → Option Fed
kept_first slices none = none
kept_first slices (some (s, line, rest, more)) = some (s, line, rest, slices ++ more)

-- The `while` loop over a cut line; each round takes a byte, so the data's length bounds the rounds.
unfoldable pub feed_line : ℕ → ChunkState → Bytes → Bytes → Option Fed
unfolding walk walk_rules position
feed_line zero s line bytes =
    if is_empty line || is_empty bytes || done s then some (s, line, bytes, []) else none
feed_line (suc rounds) s line bytes =
    let n = line_len bytes (position 10 bytes) in
    let longer = line ++ take n bytes in
    let next : Option Fed = elim (walk walk_rules s longer) [
      | none ↦ none
      | some (s', used, slices) ↦
          kept_first slices (feed_line rounds s' (drop used longer) (drop n bytes))
    ] in
    if is_empty line || is_empty bytes || done s then some (s, line, bytes, []) else next

-- The walk of what no line holds back, kept from where it stopped unless it is over.
unfoldable pub feed_rest : Fed → Option Fed
unfolding walk walk_rules
feed_rest (s, line, bytes, slices) =
    let next : Option Fed = elim (walk walk_rules s bytes) [
      | none ↦ none
      | some (s', used, more) ↦
          some (s', (if done s' then line else line ++ drop used bytes), [], slices ++ more)
    ] in
    if is_empty line && not (done s) then next else some (s, line, bytes, slices)

abbrev pub with_fed : BodyWalk → Fed → BodyWalk × Bool × List Bytes
with_fed w (s, line, rest, slices) =
    (record w { chunks = s; line = line }, not (is_broken s), slices)

-- The two ways of `feed`, by the bytes due.
unfoldable pub feed_by : Option ℕ → BodyWalk → Bytes → Option (BodyWalk × Bool × List Bytes)
unfolding feed_line feed_rest
feed_by (some left) w bytes =
    let n = min left (length bytes) in
    some (record w { due = some (left - n) }, true, (if ltb 0 n then take n bytes ∷ [] else []))
feed_by none w bytes = elim (feed_line (length bytes) w.chunks w.line bytes) [
  | none ↦ none
  | some fed ↦ elim (feed_rest fed) [ none ↦ none | some fed' ↦ some (with_fed w fed') ]
]

-- The walk, whether the framing still holds, and the slices passed to `keep`; `none` is no value of
-- the program.
unfoldable pub feed : BodyWalk → Bytes → Option (BodyWalk × Bool × List Bytes)
unfolding feed_by
feed w bytes = feed_by w.due w bytes

abbrev pub head_keep : ℕ
head_keep = 64 * 1024

abbrev pub tail_keep : ℕ
tail_keep = 64 * 1024

-- The closure passed to `walk.feed`, on the head and the tail kept so far.
unfoldable pub keep : Bytes × Bytes → Bytes → Bytes × Bytes
keep (head, tail) bytes =
    let room = head_keep - length head in
    let cut = length bytes - tail_keep in
    let old =
      if ltb 0 cut
      then []
      else if ltb (2 * tail_keep) (length tail + length bytes)
      then drop (length tail - tail_keep) tail
      else tail in
    (head ++ take (min room (length bytes)) bytes, old ++ drop cut bytes)

unfoldable pub keep_all : Bytes × Bytes → List Bytes → Bytes × Bytes
unfolding keep
keep_all kept [] = kept
keep_all kept (slice ∷ slices) = keep_all (keep kept slice) slices

-- The tail that usage is read from.
abbrev pub last_bytes : Bytes → Bytes
last_bytes bytes = drop (length bytes - tail_keep) bytes
