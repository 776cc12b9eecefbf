-- ===== src/ByteUtils/FirstMatch.antt =====
-- `find_pattern` finds the first occurrence, as a comparison at every offset does.
use honeybeepf_llm.Prelude.{
  ℕ, zero, suc, ◌+◌, ◌-◌, ◌<◌, ◌≤◌, ◌≡◌, refl, sym, ap, ◌∙◌, inl, inr, Option, none, some, [], ◌∷◌,
  Bytes, length, drop, ◌==◌, if◌then◌else◌, arith, Bool-cases, length-drop,
}
use honeybeepf_llm.Chunked.Walk.{later, position}
use honeybeepf_llm.Chunked.Lines.{Below, position-Below}
use honeybeepf_llm.Chunked.Seen.{drop-drop}
use honeybeepf_llm.ByteUtils.Search.{starts_with, find_from, find_pattern}

-- The first offset at which the needle stands, comparing at each.
unfoldable pub first_match : Bytes → Bytes → Option ℕ
first_match [] needle = if starts_with [] needle then some 0 else none
first_match (b ∷ bs) needle =
    let rest = first_match bs needle in if starts_with (b ∷ bs) needle then some 0 else later rest

abbrev shift : ℕ → Option ℕ → Option ℕ
shift n none = none
shift n (some i) = some (n + i)

later-shift : (n : ℕ) (p : Option ℕ) → later (shift n p) ≡ shift (suc n) p
later-shift n none = refl
later-shift n (some i) = ap some (omega arith)

shift-shift : (n m k : ℕ) (p : Option ℕ) → n + m ≡ k → shift n (shift m p) ≡ shift k p
shift-shift n m k none e = refl
shift-shift n m k (some i) e = ap some (omega arith)

-- What a match is, given the first place of its first byte.
abbrev match_at : ℕ → Bytes → Bytes → Option ℕ → Option ℕ
match_at first rest xs none = none
match_at first rest xs (some i) =
    if starts_with (drop (suc i) xs) rest
    then some i
    else shift (suc i) (first_match (drop (suc i) xs) (first ∷ rest))

later-match_at :
    (first : ℕ) (rest : Bytes) (x : ℕ) (xs : Bytes) (p : Option ℕ)
    → later (match_at first rest xs p) ≡ match_at first rest (x ∷ xs) (later p)
later-match_at first rest x xs none = refl
later-match_at first rest x xs (some i) = elim (Bool-cases (starts_with (drop (suc i) xs) rest)) [
  | inl e ↦ rw e refl
  | inr e ↦ rw e (later-shift (suc i) (first_match (drop (suc i) xs) (first ∷ rest)))
]

later-shift' : (p : Option ℕ) → later p ≡ shift 1 p
later-shift' none = refl
later-shift' (some i) = ap some (omega arith)

first_match-position :
    (first : ℕ) (rest xs : Bytes)
    → first_match xs (first ∷ rest) ≡ match_at first rest xs (position first xs)
unfolding first_match position
first_match-position first rest [] = refl
first_match-position first rest (x ∷ xs) = elim (Bool-cases (x == first)) [
  | inl e ↦ rw e (
      ap (λ q. if◌then◌else◌ {A = Option ℕ} (starts_with xs rest) (some 0) q)
        (later-shift' (first_match xs (first ∷ rest))))
  | inr e ↦
      rw (e, first_match-position first rest xs)
        (later-match_at first rest x xs (position first xs))
]

-- The loop from each place on, with rounds enough, finds the first match from there.
abbrev Finds : ℕ → Bytes → ℕ → Bytes → Type 0
Finds rounds haystack first rest =
    (from : ℕ)
    → from ≤ length haystack
    → length haystack - from < rounds
    → find_from rounds haystack first rest from
      ≡ shift from (first_match (drop from haystack) (first ∷ rest))

abbrev found_at : ℕ → Bytes → ℕ → Bytes → ℕ → Option ℕ → Option ℕ
found_at rounds haystack first rest from none = none
found_at rounds haystack first rest from (some i) =
    if starts_with (drop (from + i + 1) haystack) rest
    then some (from + i)
    else find_from rounds haystack first rest (from + i + 1)

found_first :
    (rounds : ℕ) (haystack : Bytes) (first : ℕ) (rest : Bytes) (from : ℕ) (p : Option ℕ)
    → Below (length (drop from haystack)) p
    → from ≤ length haystack
    → length haystack - from < suc rounds
    → Finds rounds haystack first rest
    → found_at rounds haystack first rest from p
      ≡ shift from (match_at first rest (drop from haystack) p)
found_first rounds haystack first rest from none b le enough next = refl
found_first rounds haystack first rest from (some i) b le enough next =
    let same : drop (suc i) (drop from haystack) ≡ drop (from + i + 1) haystack =
      sym (drop-drop from (suc i) haystack) ∙ ap (λ k. drop k haystack) (omega arith) in
    rw same (elim (Bool-cases (starts_with (drop (from + i + 1) haystack) rest)) [
      | inl e ↦ rw e refl
      | inr e ↦ rw e (
          next (from + i + 1) (omega (arith, length-drop from haystack))
            (omega (arith, length-drop from haystack))
          ∙ sym (
              shift-shift from (suc i) (from + i + 1)
                (first_match (drop (from + i + 1) haystack) (first ∷ rest)) (omega arith)))
    ])

find_from-Finds :
    (rounds : ℕ) (haystack : Bytes) (first : ℕ) (rest : Bytes) → Finds rounds haystack first rest
unfolding find_from
find_from-Finds zero haystack first rest from le enough = absurd (omega arith)
find_from-Finds (suc rounds) haystack first rest from le enough =
    found_first rounds haystack first rest from (position first (drop from haystack))
      (position-Below first (drop from haystack)) le enough
      (find_from-Finds rounds haystack first rest)
    ∙ ap (shift from) (sym (first_match-position first rest (drop from haystack)))

shift_zero : (p : Option ℕ) → shift 0 p ≡ p
shift_zero none = refl
shift_zero (some i) = ap some (omega arith)

-- `find_pattern` is the first offset at which the needle stands, as a comparison at every offset
-- finds it, and none where it stands nowhere.
pub find_pattern-first_match :
    (haystack needle : Bytes) → find_pattern haystack needle ≡ first_match haystack needle
unfolding find_pattern first_match
find_pattern-first_match [] [] = refl
find_pattern-first_match (b ∷ bs) [] = refl
find_pattern-first_match haystack (first ∷ rest) =
    find_from-Finds (length haystack + 1) haystack first rest 0 (omega arith) (omega arith)
    ∙ shift_zero (first_match haystack (first ∷ rest))
