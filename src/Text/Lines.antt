-- ===== src/Text/Lines.antt =====
-- Lossy decoding and line splitting of bytes with a newline in them: each side of it on its own.
use honeybeepf_llm.Prelude.{
  ◌<◌, ◌*◌, ◌+◌, ◌%◌, ℕ, zero, suc, Bool, true, false, Bool-cases, ◌≡◌, refl, sym, inl, inr, List,
  [], ◌∷◌, ◌++◌, append_assoc, Bytes, arith,
}
use honeybeepf_llm.Utf8.{Utf8, whole, bad, after, start, within}
use honeybeepf_llm.Text.{
  Pending, idle, due, flush, lossy_step, lossy_from, from_utf8_lossy, lines, prepend,
  begins_line_end, begun, continued, one_less,
}

-- A newline continues no character.
abbrev NeedsMore : Pending → Type 0
NeedsMore idle = Unit
NeedsMore (due n low high bits) = 10 < low

abbrev HighRange : Utf8 → Type 0
HighRange whole = Unit
HighRange bad = Unit
HighRange (after n low high) = 10 < low

start-HighRange : (b : ℕ) → HighRange (start b)
unfolding start
start-HighRange b = ground arith

begun-NeedsMore : (u : Utf8) (b : ℕ) → HighRange u → NeedsMore ((begun u b).1)
begun-NeedsMore whole b h = tt
begun-NeedsMore bad b h = tt
begun-NeedsMore (after n low high) b h = h

continued-NeedsMore : (n bits : ℕ) → NeedsMore ((continued n bits).1)
continued-NeedsMore zero bits = tt
continued-NeedsMore (suc n) bits = omega arith

lossy_step-NeedsMore : (p : Pending) (b : ℕ) → NeedsMore ((lossy_step p b).1)
unfolding lossy_step
lossy_step-NeedsMore idle b = begun-NeedsMore (start b) b (start-HighRange b)
lossy_step-NeedsMore (due n low high bits) b = elim (Bool-cases (within low high b)) [
  | inl e ↦ rw e (continued-NeedsMore (one_less n) (bits * 64 + b % 64))
  | inr e ↦ rw e (begun-NeedsMore (start b) b (start-HighRange b))
]

step_newline : (p : Pending) → NeedsMore p → lossy_step p 10 ≡ (flush p ++ 10 ∷ [], idle)
unfolding lossy_step start
step_newline idle h = refl
step_newline (due n low high bits) h = ground arith

lossy_from-append_newline :
    (p : Pending) (a b : Bytes)
    → NeedsMore p
    → lossy_from p (a ++ 10 ∷ b) ≡ lossy_from p a ++ 10 ∷ lossy_from idle b
unfolding lossy_from
lossy_from-append_newline p [] b h =
    rw (step_newline p h) (append_assoc (flush p) (10 ∷ []) (lossy_from idle b))
lossy_from-append_newline p (x ∷ a) b h =
    rw (lossy_from-append_newline ((lossy_step p x).1) a b (lossy_step-NeedsMore p x)) (
      sym (
        append_assoc (lossy_step p x).0 (lossy_from ((lossy_step p x).1) a)
          (10 ∷ lossy_from idle b)))

pub from_utf8_lossy-append_newline :
    (a b : Bytes) → from_utf8_lossy (a ++ 10 ∷ b) ≡ from_utf8_lossy a ++ 10 ∷ from_utf8_lossy b
unfolding from_utf8_lossy
from_utf8_lossy-append_newline a b = lossy_from-append_newline idle a b tt

abbrev is_empty : List Bytes → Bool
is_empty [] = true
is_empty (line ∷ later) = false

prepend-append :
    (c : ℕ) (xs ys : List Bytes) → is_empty xs ≡ false → prepend c (xs ++ ys) ≡ prepend c xs ++ ys
prepend-append c [] ys h = ground arith
prepend-append c (x ∷ xs) ys h = refl

prepend-is_empty : (c : ℕ) (xs : List Bytes) → is_empty (prepend c xs) ≡ false
prepend-is_empty c [] = refl
prepend-is_empty c (x ∷ xs) = refl

lines-is_empty : (a : Bytes) → is_empty (lines (a ++ 10 ∷ [])) ≡ false
unfolding lines
lines-is_empty [] = refl
lines-is_empty (c ∷ a) = ground (arith, lines-is_empty a, prepend-is_empty c (lines (a ++ 10 ∷ [])))

begins_line_end-append :
    (a b : Bytes) → begins_line_end (a ++ 10 ∷ b) ≡ begins_line_end (a ++ 10 ∷ [])
begins_line_end-append [] b = refl
begins_line_end-append (c ∷ a) b = refl

-- The lines up to a newline are those of the text before it, and the rest has its own.
pub lines-append_newline : (a b : Bytes) → lines (a ++ 10 ∷ b) ≡ lines (a ++ 10 ∷ []) ++ lines b
unfolding lines
lines-append_newline [] b = refl
lines-append_newline (c ∷ a) b =
    rw (lines-append_newline a b, begins_line_end-append a b)
      (ground (arith, prepend-append c (lines (a ++ 10 ∷ [])) (lines b), lines-is_empty a))
