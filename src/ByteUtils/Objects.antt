-- ===== src/ByteUtils/Objects.antt =====
-- The object that `extract_h2_json_nth` returns is the one that `extract_h2_json_all` lists there, and
-- both searches move on in every round.
use honeybeepf_llm.Prelude.{
  ℕ, zero, suc, ◌+◌, ◌-◌, ◌≤◌, ◌≡◌, refl, ap, ◌∙◌, inl, inr, false, none, some, List, [], ◌∷◌,
  Bytes, length, get_or, ◌==◌, if◌then◌else◌, arith, Bool-cases, ==→eq,
}
use honeybeepf_llm.Utf8.{from_utf8_lossy}
use honeybeepf_llm.ByteUtils.Braces.{
  Search, over, at, search_round, all_from, nth_from, extract_h2_json_all, extract_h2_json_nth,
}

-- The rest of each loop after a round.
abbrev all_after : ℕ → Bytes → Search → List Bytes
all_after rounds text s = elim s [
  | over ↦ []
  | at none next ↦ all_from rounds text next
  | at (some object) next ↦ object ∷ all_from rounds text next
]

abbrev nth_after : ℕ → Bytes → ℕ → ℕ → Search → Bytes
nth_after rounds text n count s = elim s [
  | over ↦ []
  | at none next ↦ nth_from rounds text next n count
  | at (some object) next ↦ if count == n then object else nth_from rounds text next n (count + 1)
]

-- The loops from any place, with `count` objects found before it.
abbrev Lists : ℕ → Bytes → ℕ → Type 0
Lists rounds text n =
    (search_pos count : ℕ)
    → count ≤ n
    → nth_from rounds text search_pos n count
      ≡ get_or (all_from rounds text search_pos) (n - count) []

get_or_later : (x : Bytes) (xs : List Bytes) (k : ℕ) → get_or (x ∷ xs) (suc k) [] ≡ get_or xs k []
get_or_later x xs k = refl

nth_after-all_after :
    (rounds : ℕ) (text : Bytes) (n count : ℕ) (s : Search)
    → count ≤ n
    → Lists rounds text n
    → nth_after rounds text n count s ≡ get_or (all_after rounds text s) (n - count) []
nth_after-all_after rounds text n count over le h = refl
nth_after-all_after rounds text n count (at none next) le h = h next count le
nth_after-all_after rounds text n count (at (some object) next) le h =
    elim (Bool-cases (count == n)) [
      | inl e ↦
          rw e (
            ap (λ k. get_or (object ∷ all_from rounds text next) k [])
              (first n count (==→eq _ _ e)))
      | inr e ↦ rw e (
          h next (count + 1) (ground arith)
          ∙ ap (λ k. get_or (object ∷ all_from rounds text next) k []) (another n count le e))
    ]
  where
    first : (n count : ℕ) → count ≡ n → 0 ≡ n - count
    first n count e = omega arith

    another : (n count : ℕ) → count ≤ n → (count == n) ≡ false → suc (n - (count + 1)) ≡ n - count
    another n count le e = ground arith

nth_from-all_from : (rounds : ℕ) (text : Bytes) (n : ℕ) → Lists rounds text n
unfolding all_from nth_from
nth_from-all_from zero text n search_pos count le = refl
nth_from-all_from (suc rounds) text n search_pos count le =
    nth_after-all_after rounds text n count (search_round text search_pos) le
      (nth_from-all_from rounds text n)

-- The object that `extract_h2_json_nth` returns for an index is the one that `extract_h2_json_all`
-- lists at that index, and nothing where the list is shorter.
pub extract_h2_json_nth-extract_h2_json_all :
    (buffer : Bytes) (n : ℕ)
    → extract_h2_json_nth buffer n ≡ get_or (extract_h2_json_all buffer) n []
unfolding extract_h2_json_all extract_h2_json_nth
extract_h2_json_nth-extract_h2_json_all buffer n =
    nth_from-all_from (length (from_utf8_lossy buffer) + 1) (from_utf8_lossy buffer) n 0 0
      (omega arith)
    ∙ ap
        (λ k.
          get_or (all_from (length (from_utf8_lossy buffer) + 1) (from_utf8_lossy buffer) 0) k [])
        (omega arith)
