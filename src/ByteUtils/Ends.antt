-- ===== src/ByteUtils/Ends.antt =====
-- Trimming drops exactly the trailing whitespace.
use honeybeepf_llm.Prelude.{
  ℕ, zero, suc, ◌-◌, ◌<◌, ◌≤◌, ◌≡◌, inl, inr, true, false, Bytes, get_or, ◌==◌, arith, Bool-cases,
  ==→eq,
}
use honeybeepf_llm.ByteUtils.Search.{is_ascii_whitespace, trimmed_end}
use mathlib.Core.Path.{subst}

-- The bytes from `end` to `n` are whitespace, and the one before is not.
abbrev pub TrimsTo : Bytes → ℕ → ℕ → Type 0
TrimsTo buf n end =
    (end ≤ n)
    × (0 < end → is_ascii_whitespace (get_or buf (end - 1) 0) ≡ false)
    × ((i : ℕ) → end ≤ i → i < n → is_ascii_whitespace (get_or buf i 0) ≡ true)

-- The loop of `trim_trailing_whitespace`, started at an offset, stops at or before it: all bytes
-- between are ASCII whitespace, and the byte before the place where it stops is not.
pub trimmed_end-TrimsTo : (n : ℕ) (buf : Bytes) → TrimsTo buf n (trimmed_end n buf)
unfolding trimmed_end
trimmed_end-TrimsTo zero buf =
    (omega arith, λ h. absurd (omega arith), λ i le lt. absurd (omega arith))
trimmed_end-TrimsTo (suc n) buf = elim (Bool-cases (is_ascii_whitespace (get_or buf n 0))) [
  | inr e ↦ rw e (
    omega arith,
    λ h. subst (λ k. is_ascii_whitespace (get_or buf k 0) ≡ false) (omega arith) e,
    λ i le lt. absurd (omega arith),
  )
  | inl e ↦ rw e (shorter (trimmed_end n buf) (trimmed_end-TrimsTo n buf) e)
]
  where
    shorter :
        (end : ℕ)
        → TrimsTo buf n end
        → is_ascii_whitespace (get_or buf n 0) ≡ true
        → TrimsTo buf (suc n) end
    shorter end (le, last, all) e = (
      omega arith,
      last,
      λ i low high. elim (Bool-cases (i == n)) [
        | inl same ↦ rw (==→eq i n same) e
        | inr other ↦ all i low (ground arith)
      ],
    )
