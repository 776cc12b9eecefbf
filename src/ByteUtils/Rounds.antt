-- ===== src/ByteUtils/Rounds.antt =====
-- The rounds given to the searches for objects are enough: more rounds find nothing else.
use honeybeepf_llm.Prelude.{
  ℕ, zero, suc, ◌+◌, ◌-◌, ◌<◌, ◌≤◌, ◌≡◌, refl, sym, ap, ◌∙◌, inl, inr, Bool, true, false, not, ◌&&◌,
  Option, none, some, List, [], ◌∷◌, Bytes, length, drop, ◌==◌, arith, Bool-cases, ltb, ltb→ge,
  ltb→lt,
}
use honeybeepf_llm.Chunked.Walk.{position}
use honeybeepf_llm.Utf8.{from_utf8_lossy}
use honeybeepf_llm.ByteUtils.Braces.{
  ℤ, pos, up, down, is_zero, balanced_from, find_balanced_brace, slice, Search, over, at,
  search_round, all_from, extract_h2_json_all,
}

abbrev AtLeast : ℕ → Option ℕ → Type 0
AtLeast i none = Unit
AtLeast i (some end) = i ≤ end

AtLeast-less : (i : ℕ) (p : Option ℕ) → AtLeast (i + 1) p → AtLeast i p
AtLeast-less i none h = tt
AtLeast-less i (some end) h = omega arith

-- A closing brace is not before the place where the search begins.
balanced_from-AtLeast :
    (i : ℕ) (depth : ℤ) (in_string escape : Bool) (bs : Bytes)
    → AtLeast i (balanced_from i depth in_string escape bs)
unfolding balanced_from
balanced_from-AtLeast i depth in_string escape [] = tt
balanced_from-AtLeast i depth in_string true (b ∷ bs) =
    AtLeast-less i _ (balanced_from-AtLeast (i + 1) depth in_string false bs)
balanced_from-AtLeast i depth in_string false (b ∷ bs) =
    let go = λ (d : ℤ) (s e : Bool).
      AtLeast-less i (balanced_from (i + 1) d s e bs) (balanced_from-AtLeast (i + 1) d s e bs) in
    elim (Bool-cases (b == 92 && in_string)) [
      | inl x ↦ rw x (go depth in_string true)
      | inr x ↦ rw x (elim (Bool-cases (b == 34)) [
        | inl y ↦ rw y (go depth (not in_string) false)
        | inr y ↦ rw y (elim (Bool-cases in_string) [
          | inl z ↦ rw z (go depth true false)
          | inr z ↦ rw z (elim (Bool-cases (b == 123)) [
            | inl u ↦ rw u (go (up depth) false false)
            | inr u ↦ rw u (elim (Bool-cases (b == 125)) [
              | inl v ↦ rw v (elim (Bool-cases (is_zero (down depth))) [
                | inl w ↦ rw w (omega arith)
                | inr w ↦ rw w (go (down depth) false false)
              ])
              | inr v ↦ rw v (go depth false false)
            ])
          ])
        ])
      ])
    ]

abbrev Advances : ℕ → Search → Type 0
Advances search_pos over = Unit
Advances search_pos (at object next) = search_pos < next

closed_at : Bytes → ℕ → ℕ → Option ℕ → Search
closed_at text search_pos offset p = elim p [
  | some end ↦ at (some (slice text (search_pos + offset) end)) (end + 1)
  | none ↦ at none (search_pos + offset + 1)
]

closed_at-Advances :
    (text : Bytes) (search_pos offset : ℕ) (p : Option ℕ)
    → AtLeast (search_pos + offset) p
    → Advances search_pos (closed_at text search_pos offset p)
unfolding closed_at
closed_at-Advances text search_pos offset none h = omega arith
closed_at-Advances text search_pos offset (some end) h = omega arith

opened_at : Bytes → ℕ → Option ℕ → Search
unfolding closed_at
opened_at text search_pos p = elim p [
  | none ↦ over
  | some offset ↦ closed_at text search_pos offset (find_balanced_brace text (search_pos + offset))
]

opened_at-Advances :
    (text : Bytes) (search_pos : ℕ) (p : Option ℕ)
    → Advances search_pos (opened_at text search_pos p)
unfolding opened_at find_balanced_brace
opened_at-Advances text search_pos none = tt
opened_at-Advances text search_pos (some offset) = closed_at-Advances text search_pos offset _ (
    balanced_from-AtLeast (search_pos + offset) (pos zero) false false
      (drop (search_pos + offset) text))

search_round-Advances :
    (text : Bytes) (search_pos : ℕ) → Advances search_pos (search_round text search_pos)
unfolding search_round opened_at closed_at
search_round-Advances text search_pos =
    opened_at-Advances text search_pos (position 123 (drop search_pos text))

drop_past : (xs : Bytes) (n : ℕ) → length xs ≤ n → drop n xs ≡ []
drop_past [] zero h = refl
drop_past [] (suc n) h = refl
drop_past (x ∷ xs) zero h = absurd (omega arith)
drop_past (x ∷ xs) (suc n) h = drop_past xs n (omega arith)

-- Past the text's end there is no brace to open.
search_round_past :
    (text : Bytes) (search_pos : ℕ) → length text ≤ search_pos → search_round text search_pos ≡ over
unfolding search_round position opened_at
search_round_past text search_pos h =
    ap (opened_at text search_pos) (ap (position 123) (drop_past text search_pos h))

all_after : ℕ → Bytes → Search → List Bytes
all_after rounds text s = elim s [
  | over ↦ []
  | at none next ↦ all_from rounds text next
  | at (some object) next ↦ object ∷ all_from rounds text next
]

more_after :
    (rounds more : ℕ) (text : Bytes) (search_pos : ℕ) (s : Search)
    → Advances search_pos s
    → ((next : ℕ) → search_pos < next → all_from rounds text next ≡ all_from more text next)
    → all_after rounds text s ≡ all_after more text s
unfolding all_after
more_after rounds more text search_pos over a h = refl
more_after rounds more text search_pos (at none next) a h = h next a
more_after rounds more text search_pos (at (some object) next) a h = ap (◌∷◌ object) (h next a)

past_after :
    (rounds more : ℕ) (text : Bytes) (s : Search)
    → s ≡ over
    → all_after rounds text s ≡ all_after more text s
unfolding all_after
past_after rounds more text s e = ap (all_after rounds text) e ∙ sym (ap (all_after more text) e)

more_rounds :
    (rounds more : ℕ) (text : Bytes) (search_pos : ℕ)
    → length text - search_pos < rounds
    → rounds ≤ more
    → all_from rounds text search_pos ≡ all_from more text search_pos
unfolding all_from all_after
more_rounds zero more text search_pos lt le = absurd (omega arith)
more_rounds (suc rounds) zero text search_pos lt le = absurd (omega arith)
more_rounds (suc rounds) (suc more) text search_pos lt le =
    elim (Bool-cases (ltb search_pos (length text))) [
      | inr e ↦
          past_after rounds more text (search_round text search_pos)
            (search_round_past text search_pos (ltb→ge _ _ e))
      | inl e ↦
          let inside : search_pos < length text = ltb→lt _ _ e in
          more_after rounds more text search_pos (search_round text search_pos)
            (search_round-Advances text search_pos)
            (λ next past. more_rounds rounds more text next (omega (arith, inside)) (omega arith))
    ]

-- The search of `extract_h2_json_all` is over within the rounds given to it: any number of further
-- rounds finds nothing else.
pub extract_h2_json_all-all_from :
    (buffer : Bytes) (more : ℕ)
    → let text = from_utf8_lossy buffer in
      extract_h2_json_all buffer ≡ all_from (length text + 1 + more) text 0
unfolding extract_h2_json_all
extract_h2_json_all-all_from buffer more =
    let text = from_utf8_lossy buffer in
    more_rounds (length text + 1) (length text + 1 + more) text 0 (omega arith) (omega arith)
