-- ===== src/Chunked/Lines.antt =====
-- The end of a line is found inside the input, and more input does not change it.
use honeybeepf_llm.Prelude.{
  ℕ, zero, suc, ◌+◌, ◌-◌, ◌<◌, ◌≤◌, ◌≡◌, refl, sym, ap, ◌∙◌, inl, inr, ◌&&◌, Option, none, some, [],
  ◌∷◌, ◌++◌, Bytes, length, drop, get_or, ltb, ◌==◌, if◌then◌else◌, arith, Bool-cases,
  length-append, length-drop, ltb→lt, lt→ltb,
}
use mathlib.Core.Path.{subst}
use honeybeepf_llm.Chunked.Types.{ChunkRules, Line}
use honeybeepf_llm.Chunked.Walk.{later, position, ends_line, line_from, line}

abbrev pub Below : ℕ → Option ℕ → Type 0
Below n none = Unit
Below n (some i) = i < n

later-Below : (n : ℕ) (p : Option ℕ) → Below n p → Below (suc n) (later p)
later-Below n none h = tt
later-Below n (some i) h = omega arith

pub position-Below : (x : ℕ) (xs : Bytes) → Below (length xs) (position x xs)
unfolding position
position-Below x [] = tt
position-Below x (b ∷ bs) = elim (Bool-cases (b == x)) [
  | inl e ↦ rw e (omega arith)
  | inr e ↦ rw e (later-Below (length bs) (position x bs) (position-Below x bs))
]

abbrev shift : ℕ → Option ℕ → Option ℕ
shift n none = none
shift n (some i) = some (n + i)

abbrev first_of : ℕ → Option ℕ → Option ℕ → Option ℕ
first_of n none q = shift n q
first_of n (some i) q = some i

later-first_of : (n : ℕ) (p q : Option ℕ) → later (first_of n p q) ≡ first_of (suc n) (later p) q
later-first_of n none none = refl
later-first_of n none (some i) = ap some (omega arith)
later-first_of n (some i) q = refl

shift_zero : (q : Option ℕ) → q ≡ shift 0 q
shift_zero none = refl
shift_zero (some i) = ap some (omega arith)

position-append :
    (x : ℕ) (xs ys : Bytes)
    → position x (xs ++ ys) ≡ first_of (length xs) (position x xs) (position x ys)
unfolding position
position-append x [] ys = shift_zero (position x ys)
position-append x (b ∷ bs) ys = elim (Bool-cases (b == x)) [
  | inl e ↦ rw e refl
  | inr e ↦
      rw (e, position-append x bs ys) (later-first_of (length bs) (position x bs) (position x ys))
]

pub get_or-append :
    (xs ys : Bytes) (i d : ℕ) → i < length xs → get_or (xs ++ ys) i d ≡ get_or xs i d
get_or-append [] ys i d h = absurd (omega arith)
get_or-append (x ∷ xs) ys zero d h = refl
get_or-append (x ∷ xs) ys (suc i) d h = get_or-append xs ys i d (omega arith)

pub drop-append_le : (n : ℕ) (xs ys : Bytes) → n ≤ length xs → drop n (xs ++ ys) ≡ drop n xs ++ ys
drop-append_le zero xs ys h = refl
drop-append_le (suc n) [] ys h = absurd (omega arith)
drop-append_le (suc n) (x ∷ xs) ys h = drop-append_le n xs ys (omega arith)

-- What a search in a line is after the next line feed at `i`.
abbrev line_at : ℕ → ChunkRules → Bytes → ℕ → Option ℕ → Line
line_at rounds rules rest from none =
    if ltb rules.max_line (length rest) then Line.bad else Line.cut
line_at rounds rules rest from (some i) =
    if ltb 0 (from + i) && get_or rest (from + i - 1) 0 == 13
    then ends_line rules (from + i)
    else if rules.bare_lf_breaks
    then Line.bad
    else line_from rounds rules rest (from + i + 1)

-- Every search from `from` on with rounds enough ends in a bad line.
abbrev AllBad : ℕ → ChunkRules → Bytes → Type 0
AllBad rounds rules rest =
    (from : ℕ)
    → rules.max_line < from
    → from ≤ length rest
    → length rest - from < rounds
    → line_from rounds rules rest from ≡ Line.bad

past_at :
    (rounds : ℕ) (rules : ChunkRules) (rest : Bytes) (from i : ℕ)
    → rules.max_line < from + i
    → from + i < length rest
    → length rest - (from + i + 1) < rounds
    → AllBad rounds rules rest
    → line_at rounds rules rest from (some i) ≡ Line.bad
past_at rounds rules rest from i h lt enough next =
    elim (Bool-cases (ltb 0 (from + i) && get_or rest (from + i - 1) 0 == 13)) [
      | inl e ↦ rw (e, lt→ltb rules.max_line (from + i) h) refl
      | inr e ↦ rw e (elim (Bool-cases rules.bare_lf_breaks) [
        | inl f ↦ rw f refl
        | inr f ↦ simp f (next (from + i + 1) (omega arith) (omega arith) enough)
      ])
    ]

past_from :
    (rounds : ℕ) (rules : ChunkRules) (rest : Bytes) (from : ℕ) (p : Option ℕ)
    → Below (length (drop from rest)) p
    → rules.max_line < from
    → from ≤ length rest
    → length rest - from < suc rounds
    → AllBad rounds rules rest
    → line_at rounds rules rest from p ≡ Line.bad
past_from rounds rules rest from none b h le enough next =
    rw (lt→ltb rules.max_line (length rest) (omega arith)) refl
past_from rounds rules rest from (some i) b h le enough next =
    past_at rounds rules rest from i (omega arith) (omega (arith, length-drop from rest))
      (omega (arith, length-drop from rest)) next

-- Past the longest line, every search ends in a bad line.
line_past : (rounds : ℕ) (rules : ChunkRules) (rest : Bytes) → AllBad rounds rules rest
unfolding line_from
line_past zero rules rest from h k l = absurd (omega arith)
line_past (suc rounds) rules rest from h k l =
    past_from rounds rules rest from (position 10 (drop from rest))
      (position-Below 10 (drop from rest)) h k l (line_past rounds rules rest)

-- What a line is known to be stays so.
abbrev pub Kept : Line → Line → Type 0
Kept Line.cut l = Unit
Kept Line.bad l = l ≡ Line.bad
Kept (Line.ends_at lf) l = l ≡ Line.ends_at lf

Kept-refl : (l : Line) → Kept l l
Kept-refl Line.cut = tt
Kept-refl Line.bad = refl
Kept-refl (Line.ends_at lf) = refl

-- The searches in the shorter and the longer input agree from any place on.
abbrev Agrees : ℕ → ℕ → ChunkRules → Bytes → Bytes → Type 0
Agrees rounds more rules a b =
    (from : ℕ)
    → from ≤ length a
    → length a - from < rounds
    → length (a ++ b) - from < more
    → Kept (line_from rounds rules a from) (line_from more rules (a ++ b) from)

Kept-at :
    (rounds more : ℕ) (rules : ChunkRules) (a b : Bytes) (from : ℕ) (p q : Option ℕ)
    → Below (length (drop from a)) p
    → Below (length b) q
    → from ≤ length a
    → length a - from < suc rounds
    → length (a ++ b) - from < suc more
    → Agrees rounds more rules a b
    → Kept
        (line_at rounds rules a from p)
        (line_at more rules (a ++ b) from (first_of (length (drop from a)) p q))
Kept-at rounds more rules a b from (some i) q bp bq le enough plenty next =
    let inside : from + i < length a = omega (arith, length-drop from a) in
    rw (get_or-append a b (from + i - 1) 0 (omega arith))
      (elim (Bool-cases (ltb 0 (from + i) && get_or a (from + i - 1) 0 == 13)) [
        | inl e ↦ rw e (Kept-refl (ends_line rules (from + i)))
        | inr e ↦ rw e (elim (Bool-cases rules.bare_lf_breaks) [
          | inl f ↦ rw f refl
          | inr f ↦ simp f (
              next (from + i + 1) (omega (arith, inside)) (omega (arith, inside))
                (omega (arith, inside, length-append a b)))
        ])
      ])
Kept-at rounds more rules a b from none q bp bq le enough plenty next =
    elim (Bool-cases (ltb rules.max_line (length a))) [
      | inr e ↦ rw e tt
      | inl e ↦ rw e (long_line q bq (ltb→lt rules.max_line (length a) e))
    ]
  where
    long_line :
        (q : Option ℕ)
        → Below (length b) q
        → rules.max_line < length a
        → line_at more rules (a ++ b) from (shift (length (drop from a)) q) ≡ Line.bad
    long_line none h lt =
        rw (lt→ltb rules.max_line (length (a ++ b)) (omega (arith, length-append a b))) refl
    long_line (some i) h lt =
        past_at more rules (a ++ b) from (length (drop from a) + i)
          (omega (arith, length-drop from a)) (omega (arith, length-drop from a, length-append a b))
          (omega (arith, length-drop from a, length-append a b)) (line_past more rules (a ++ b))

line_from-append :
    (rounds more : ℕ) (rules : ChunkRules) (a b : Bytes) → Agrees rounds more rules a b
unfolding line_from
line_from-append zero more rules a b from le enough plenty = absurd (omega arith)
line_from-append (suc rounds) zero rules a b from le enough plenty = absurd (omega arith)
line_from-append (suc rounds) (suc more) rules a b from le enough plenty =
    let p = position 10 (drop from a) in
    let found : position 10 (drop from (a ++ b))
        ≡ first_of (length (drop from a)) p (position 10 b) =
      ap (position 10) (drop-append_le from a b le) ∙ position-append 10 (drop from a) b in
    let kept =
      Kept-at rounds more rules a b from p (position 10 b) (position-Below 10 (drop from a))
        (position-Below 10 b) le enough plenty (line_from-append rounds more rules a b) in
    subst (λ q. Kept (line_at rounds rules a from p) (line_at more rules (a ++ b) from q))
      (sym found) kept

-- More input leaves the end of a line, or that it is bad, as it was.
pub line-append : (rules : ChunkRules) (a b : Bytes) → Kept (line rules a) (line rules (a ++ b))
unfolding line
line-append rules a b =
    line_from-append (length a + 1) (length (a ++ b) + 1) rules a b 0 (omega arith) (omega arith)
      (omega arith)

abbrev pub EndsInside : ℕ → Line → Type 0
EndsInside n Line.cut = Unit
EndsInside n Line.bad = Unit
EndsInside n (Line.ends_at lf) = (0 < lf) × (lf < n)

inside_at :
    (rounds : ℕ) (rules : ChunkRules) (rest : Bytes) (from : ℕ) (p : Option ℕ)
    → Below (length (drop from rest)) p
    → ((from : ℕ) → EndsInside (length rest) (line_from rounds rules rest from))
    → EndsInside (length rest) (line_at rounds rules rest from p)
inside_at rounds rules rest from none b next =
    elim (Bool-cases (ltb rules.max_line (length rest))) [ inl e ↦ rw e tt | inr e ↦ rw e tt ]
inside_at rounds rules rest from (some i) b next =
    elim (Bool-cases (ltb 0 (from + i) && get_or rest (from + i - 1) 0 == 13)) [
      | inl e ↦ rw e (elim (Bool-cases (ltb rules.max_line (from + i))) [
        | inl f ↦ rw f tt
        | inr f ↦ rw f (ground arith, omega (arith, length-drop from rest))
      ])
      | inr e ↦ rw e (elim (Bool-cases rules.bare_lf_breaks) [
        | inl f ↦ rw f tt
        | inr f ↦ simp f (next (from + i + 1))
      ])
    ]

line_from-EndsInside :
    (rounds : ℕ) (rules : ChunkRules) (rest : Bytes) (from : ℕ)
    → EndsInside (length rest) (line_from rounds rules rest from)
unfolding line_from
line_from-EndsInside zero rules rest from = tt
line_from-EndsInside (suc rounds) rules rest from =
    inside_at rounds rules rest from (position 10 (drop from rest))
      (position-Below 10 (drop from rest)) (line_from-EndsInside rounds rules rest)

pub line-EndsInside :
    (rules : ChunkRules) (rest : Bytes) → EndsInside (length rest) (line rules rest)
unfolding line
line-EndsInside rules rest = line_from-EndsInside (length rest + 1) rules rest 0
