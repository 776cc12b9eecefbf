-- ===== src/JsonEnds/Returns.antt =====
-- `BodyWalk::feed` comes to an end on every read.
use honeybeepf_llm.Prelude.{
  ℕ, zero, suc, ◌<◌, ◌≤◌, ◌≡◌, refl, inl, inr, Bool, true, false, not, ◌&&◌, ◌||◌, Option, none,
  some, List, [], ◌∷◌, ◌++◌, Bytes, length, take, drop, length-drop, if◌then◌else◌, is_some, arith,
  Bool-cases,
}
use honeybeepf_llm.Chunked.Types.{ChunkState}
use honeybeepf_llm.Chunked.Walk.{Walked, walk, position}
use honeybeepf_llm.Chunked.Ends.{UsesAtMost, walk_ends}
use honeybeepf_llm.JsonEnds.Walk.{
  BodyWalk, walk_rules, done, is_empty, line_len, Fed, kept_first, feed_line, feed_rest, with_fed,
  feed_by, feed,
}

kept_first-is_some :
    (slices : List Bytes) (out : Option Fed)
    → is_some out ≡ true
    → is_some (kept_first slices out) ≡ true
kept_first-is_some slices none h = h
kept_first-is_some slices (some (s, line, rest, more)) h = refl

-- The rest of a round, after the walk of the longer line.
abbrev after_walk : ℕ → Bytes → Bytes → Option Walked → Option Fed
after_walk rounds longer bytes out = elim out [
  | none ↦ none
  | some (s', used, slices) ↦ kept_first slices (feed_line rounds s' (drop used longer) bytes)
]

after_walk-is_some :
    (rounds n : ℕ) (longer bytes : Bytes) (out : Option Walked)
    → UsesAtMost n out
    → ((s : ChunkState) (line : Bytes) → is_some (feed_line rounds s line bytes) ≡ true)
    → is_some (after_walk rounds longer bytes out) ≡ true
after_walk-is_some rounds n longer bytes none u h = elim u [ ]
after_walk-is_some rounds n longer bytes (some (s', used, slices)) u h =
    kept_first-is_some slices (feed_line rounds s' (drop used longer) bytes)
      (h s' (drop used longer))

line_len_pos : (b : ℕ) (bs : Bytes) (p : Option ℕ) → 0 < line_len (b ∷ bs) p
line_len_pos b bs none = omega arith
line_len_pos b bs (some i) = omega arith

no_bytes : (a c : Bool) → (a || true || c) ≡ true
no_bytes true c = refl
no_bytes false c = refl

feed_line-is_some :
    (rounds : ℕ) (s : ChunkState) (line bytes : Bytes)
    → length bytes ≤ rounds
    → is_some (feed_line rounds s line bytes) ≡ true
unfolding feed_line
feed_line-is_some zero s line [] le = rw (no_bytes (is_empty line) (done s)) refl
feed_line-is_some zero s line (b ∷ bs) le = absurd (omega arith)
feed_line-is_some (suc rounds) s line [] le = rw (no_bytes (is_empty line) (done s)) refl
feed_line-is_some (suc rounds) s line (b ∷ bs) le =
    let n = line_len (b ∷ bs) (position 10 (b ∷ bs)) in
    let longer = line ++ take n (b ∷ bs) in
    elim (Bool-cases (is_empty line || false || done s)) [
      | inl e ↦ rw e refl
      | inr e ↦ rw e (
          after_walk-is_some rounds (length longer) longer (drop n (b ∷ bs))
            (walk walk_rules s longer) (walk_ends walk_rules s longer)
            (λ s' line'.
              feed_line-is_some rounds s' line' (drop n (b ∷ bs))
                (omega (arith, length-drop n (b ∷ bs), line_len_pos b bs (position 10 (b ∷ bs))))))
    ]

rest_of : Bytes → List Bytes → Bytes → Option Walked → Option Fed
rest_of line slices bytes out = elim out [
  | none ↦ none
  | some (s', used, more) ↦
      some (s', (if done s' then line else line ++ drop used bytes), [], slices ++ more)
]

rest_of-is_some :
    (n : ℕ) (line : Bytes) (slices : List Bytes) (bytes : Bytes) (out : Option Walked)
    → UsesAtMost n out
    → is_some (rest_of line slices bytes out) ≡ true
unfolding rest_of
rest_of-is_some n line slices bytes none u = elim u [ ]
rest_of-is_some n line slices bytes (some (s', used, more)) u = refl

feed_rest-is_some : (fed : Fed) → is_some (feed_rest fed) ≡ true
unfolding feed_rest rest_of
feed_rest-is_some (s, line, bytes, slices) = elim (Bool-cases (is_empty line && not (done s))) [
  | inl e ↦ rw e (
      rest_of-is_some (length bytes) line slices bytes (walk walk_rules s bytes)
        (walk_ends walk_rules s bytes))
  | inr e ↦ rw e refl
]

last_step : BodyWalk → Option Fed → Option (BodyWalk × Bool × List Bytes)
last_step w out = elim out [ none ↦ none | some fed' ↦ some (with_fed w fed') ]

fed_through : BodyWalk → Option Fed → Option (BodyWalk × Bool × List Bytes)
unfolding feed_rest last_step
fed_through w out = elim out [ none ↦ none | some fed ↦ last_step w (feed_rest fed) ]

last_step-is_some :
    (w : BodyWalk) (out : Option Fed) → is_some out ≡ true → is_some (last_step w out) ≡ true
unfolding last_step
last_step-is_some w none h = h
last_step-is_some w (some fed) h = refl

fed_through-is_some :
    (w : BodyWalk) (out : Option Fed) → is_some out ≡ true → is_some (fed_through w out) ≡ true
unfolding fed_through
fed_through-is_some w none h = h
fed_through-is_some w (some fed) h = last_step-is_some w (feed_rest fed) (feed_rest-is_some fed)

feed_by-is_some :
    (due : Option ℕ) (w : BodyWalk) (bytes : Bytes) → is_some (feed_by due w bytes) ≡ true
unfolding feed_by fed_through last_step
feed_by-is_some (some left) w bytes = refl
feed_by-is_some none w bytes =
    fed_through-is_some w (feed_line (length bytes) w.chunks w.line bytes)
      (feed_line-is_some (length bytes) w.chunks w.line bytes (omega arith))

-- `BodyWalk::feed` returns on every read, from every state of the walk.
pub feed-is_some : (w : BodyWalk) (bytes : Bytes) → is_some (feed w bytes) ≡ true
unfolding feed
feed-is_some w bytes = feed_by-is_some w.due w bytes
