-- ===== src/Chunked/Seen.antt =====
-- What a walk shows to its caller, and that more rounds do not change it.
use honeybeepf_llm.Prelude.{
  ℕ, zero, suc, ◌+◌, ◌≤◌, ◌≡◌, refl, sym, ap, ◌∙◌, Option, none, some, List, [], ◌∷◌, ◌++◌,
  append-nil, append_assoc, Bytes, length, take, drop, arith, take_all,
}
use honeybeepf_llm.Chunked.Types.{ChunkRules, ChunkState}
use honeybeepf_llm.Chunked.Ends.{after_round}
use honeybeepf_llm.Chunked.Walk.{Round, stop, go, round, Walked, behind, walk_loop}

-- The data passed on, whatever slices it came in.
abbrev pub concat : List Bytes → Bytes
concat [] = []
concat (slice ∷ slices) = slice ++ concat slices

pub concat-append : (xs ys : List Bytes) → concat (xs ++ ys) ≡ concat xs ++ concat ys
concat-append [] ys = refl
concat-append (x ∷ xs) ys =
    ap (◌++◌ x) (concat-append xs ys) ∙ sym (append_assoc x (concat xs) (concat ys))

abbrev pub Seen : Type 0
Seen = ChunkState × ℕ × Bytes

abbrev pub seen : Option Walked → Option Seen
seen none = none
seen (some (s, used, slices)) = some (s, used, concat slices)

abbrev pub later : ℕ → Bytes → Option Seen → Option Seen
later n bytes none = none
later n bytes (some (s, used, more)) = some (s, n + used, bytes ++ more)

-- The walk of the rest of the first part with the second part behind it, after the walk of the first part.
abbrev pub walk_on :
    (ChunkState → Bytes → Option Walked) → Bytes → Bytes → Option Walked → Option Seen
walk_on w a b none = none
walk_on w a b (some (s, used, slices)) = later used (concat slices) (seen (w s (drop used a ++ b)))

pub seen-behind :
    (n : ℕ) (slices : List Bytes) (out : Option Walked)
    → seen (behind n slices out) ≡ later n (concat slices) (seen out)
seen-behind n slices none = refl
seen-behind n slices (some (s, used, more)) =
    ap (λ d. some (s, n + used, d)) (concat-append slices more)

pub later-later :
    (n m : ℕ) (x y : Bytes) (out : Option Seen)
    → later n x (later m y out) ≡ later (n + m) (x ++ y) out
later-later n m x y none = refl
later-later n m x y (some (s, used, more)) =
    λ i. some (s, nat_assoc n m used i, sym (append_assoc x y more) i)
  where
    nat_assoc : (a b c : ℕ) → a + (b + c) ≡ a + b + c
    nat_assoc a b c = omega arith

pub take-append_le : (n : ℕ) (xs ys : Bytes) → n ≤ length xs → take n (xs ++ ys) ≡ take n xs
take-append_le zero xs ys h = refl
take-append_le (suc n) [] ys h = absurd (omega arith)
take-append_le (suc n) (x ∷ xs) ys h = ap (◌∷◌ x) (take-append_le n xs ys (omega arith))

pub suc_plus : (k n : ℕ) → suc k + n ≡ suc (k + n)
suc_plus k n = omega arith

pub take-append_more : (n : ℕ) (xs ys : Bytes) → take (length xs + n) (xs ++ ys) ≡ xs ++ take n ys
take-append_more n [] ys = ap (λ k. take k ys) (omega arith)
take-append_more n (x ∷ xs) ys =
    ap (λ k. take k (x ∷ (xs ++ ys))) (suc_plus (length xs) n)
    ∙ ap (◌∷◌ x) (take-append_more n xs ys)

pub drop-append_more : (n : ℕ) (xs ys : Bytes) → drop (length xs + n) (xs ++ ys) ≡ drop n ys
drop-append_more n [] ys = ap (λ k. drop k ys) (omega arith)
drop-append_more n (x ∷ xs) ys =
    ap (λ k. drop k (x ∷ (xs ++ ys))) (suc_plus (length xs) n) ∙ drop-append_more n xs ys

pub drop-drop : (n m : ℕ) (xs : Bytes) → drop (n + m) xs ≡ drop m (drop n xs)
drop-drop zero m xs = ap (λ k. drop k xs) (omega arith)
drop-drop (suc n) zero [] = ap (λ k. drop k []) (suc_plus n zero)
drop-drop (suc n) (suc m) [] = ap (λ k. drop k []) (suc_plus n (suc m))
drop-drop (suc n) m (x ∷ xs) = ap (λ k. drop k (x ∷ xs)) (suc_plus n m) ∙ drop-drop n m xs

pub drop_all : (xs : Bytes) → drop (length xs) xs ≡ []
drop_all [] = refl
drop_all (x ∷ xs) = drop_all xs

-- Data that runs on into the second part, in one slice and in two.
pub slices_join :
    (n : ℕ) (a b : Bytes)
    → concat (take (length a + n) (a ++ b) ∷ [])
      ≡ concat (take (length a) a ∷ []) ++ concat (take n b ∷ [])
slices_join n a b =
    rw
      (
        take-append_more n a b,
        take_all (length a) a (omega arith),
        append-nil (a ++ take n b),
        append-nil a,
        append-nil (take n b),
      )
      refl

pub later_nothing : (out : Option Seen) → later 0 [] out ≡ out
later_nothing none = refl
later_nothing (some (s, used, bytes)) = ap (λ n. some (s, n, bytes)) (omega arith)

-- A result is kept; where there is none, nothing is said.
abbrev pub Extends : Option Seen → Option Seen → Type 0
Extends none out = Unit
Extends (some x) out = out ≡ some x

pub later-Extends :
    (n : ℕ) (bytes : Bytes) (p q : Option Seen)
    → Extends p q
    → Extends (later n bytes p) (later n bytes q)
later-Extends n bytes none q h = tt
later-Extends n bytes (some x) q h = ap (later n bytes) h

pub more_after :
    (k t : ℕ) (rules : ChunkRules) (s : ChunkState) (rest : Bytes) (r : Round)
    → ((s : ChunkState) (rest : Bytes)
        → Extends (seen (walk_loop k rules s rest)) (seen (walk_loop t rules s rest)))
    → Extends (seen (after_round k rules s rest r)) (seen (after_round t rules s rest r))
more_after k t rules s rest stop h = refl
more_after k t rules s rest (go s' n slices) h =
    rw
      (
        seen-behind n slices (walk_loop k rules s' (drop n rest)),
        seen-behind n slices (walk_loop t rules s' (drop n rest)),
      )
      (later-Extends n (concat slices) _ _ (h s' (drop n rest)))

-- More rounds do not change a walk that has ended.
pub more_rounds :
    (k t : ℕ) (rules : ChunkRules) (s : ChunkState) (rest : Bytes)
    → k ≤ t
    → Extends (seen (walk_loop k rules s rest)) (seen (walk_loop t rules s rest))
unfolding walk_loop
more_rounds zero t rules s rest le = tt
more_rounds (suc k) zero rules s rest le = absurd (omega arith)
more_rounds (suc k) (suc t) rules s rest le =
    more_after k t rules s rest (round rules s rest)
      (λ s rest. more_rounds k t rules s rest (omega arith))
