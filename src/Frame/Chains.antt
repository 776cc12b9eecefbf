-- ===== src/Frame/Chains.antt =====
-- h2/frame.rs: the verdicts of `chain_at`, against the runs of valid heads in the bytes.
use mathlib.Core.Path.{subst}
use honeybeepf_llm.Prelude.{
  ℕ, zero, suc, ◌+◌, ◌≤◌, ◌<◌, ◌≡◌, ◌⊎◌, refl, sym, ◌∙◌, Bool, true, false, ◌&&◌, inl, inr, ◌++◌,
  Bytes, length, get_or, ltb, leb, arith, Bool-cases, ltb→lt, ltb→ge, leb→le, le→leb,
}
use honeybeepf_llm.Chunked.Lines.{get_or-append}
use honeybeepf_llm.Frame.Types.{FrameReader}
use honeybeepf_llm.Frame.Scan.{
  ok, bad, short, Candidate, anchored, rejected, need_more, head_scan, chain_from,
}
use honeybeepf_llm.Frame.Runs.{len_at, is_allowed, IsHead, IsRun, head_scan-seen}

both : (a b : Bool) → (a && b) ≡ true → (a ≡ true) × (b ≡ true)
both a b e = ground arith

-- The head at a place is cut off, or is one, or is none.
abbrev HeadCase : FrameReader → ℕ → Type 0
HeadCase r off =
    ((length r.scan < off + 9) × (head_scan r off ≡ short))
    ⊎ (IsHead r.max_frame_size r.scan off × (head_scan r off ≡ ok (len_at r.scan off)))
    ⊎ ((off + 9 ≤ length r.scan)
        × ((leb (len_at r.scan off) r.max_frame_size && is_allowed r.scan off) ≡ false)
        × (head_scan r off ≡ bad))

head_cases : (r : FrameReader) (off : ℕ) → HeadCase r off
head_cases r off = elim (Bool-cases (ltb (length r.scan) (off + 9))) [
  | inl cut ↦ inl (ltb→lt _ _ cut, head_scan-seen r off ∙ rw cut refl)
  | inr whole ↦
      elim (Bool-cases (leb (len_at r.scan off) r.max_frame_size && is_allowed r.scan off)) [
        | inl valid ↦
            let parts = both _ _ valid in
            inr (
              inl (
                (ltb→ge _ _ whole, leb→le _ _ parts.0, parts.1),
                head_scan-seen r off ∙ rw (whole, valid) refl,
              ))
        | inr wrong ↦
            inr (inr (ltb→ge _ _ whole, wrong, head_scan-seen r off ∙ rw (whole, wrong) refl))
      ]
]

module _ (xs ys : Bytes) (at : ℕ) (room : at + 9 ≤ length xs) where
  byte_same : (i : ℕ) → i < 9 → get_or (xs ++ ys) (at + i) 0 ≡ get_or xs (at + i) 0
  byte_same i h = get_or-append xs ys (at + i) 0 (omega arith)

  len_at-append : len_at (xs ++ ys) at ≡ len_at xs at
  len_at-append =
      rw
        (
          get_or-append xs ys at 0 (omega arith),
          byte_same 1 (omega arith),
          byte_same 2 (omega arith),
        )
        refl

  is_allowed-append : is_allowed (xs ++ ys) at ≡ is_allowed xs at
  is_allowed-append =
      rw
        (
          byte_same 3 (omega arith),
          byte_same 4 (omega arith),
          byte_same 5 (omega arith),
          byte_same 6 (omega arith),
          byte_same 7 (omega arith),
          byte_same 8 (omega arith),
        )
        refl

-- What a verdict on a place says of the bytes: a run of so many heads, none so far, or none whatever
-- bytes follow.
abbrev pub Verdict : ℕ → ℕ → Bytes → ℕ → Candidate → Type 0
Verdict heads max scan at anchored = IsRun heads max scan at
Verdict heads max scan at need_more = IsRun heads max scan at → ⊥
Verdict heads max scan at rejected = (later : Bytes) → IsRun heads max (scan ++ later) at → ⊥

-- A head before does not change the verdict.
after_head-Verdict :
    (heads max : ℕ) (scan : Bytes) (at : ℕ) (c : Candidate)
    → IsHead max scan at
    → Verdict heads max scan (at + (9 + len_at scan at)) c
    → Verdict (suc heads) max scan at c
after_head-Verdict heads max scan at anchored h v = (h, v)
after_head-Verdict heads max scan at need_more h v = λ run. v run.1
after_head-Verdict heads max scan at rejected h v = λ later run. v later (
    subst (λ n. IsRun heads max (scan ++ later) (at + (9 + n))) (len_at-append scan later at h.0)
      run.1)

-- No head, and none with more bytes.
bad_head :
    (max : ℕ) (scan later : Bytes) (at : ℕ)
    → at + 9 ≤ length scan
    → (leb (len_at scan at) max && is_allowed scan at) ≡ false
    → IsHead max (scan ++ later) at
    → ⊥
bad_head max scan later at room wrong (_, fits, allowed) =
    clash (is_allowed scan at)
      (le→leb _ _ (subst (λ n. n ≤ max) (len_at-append scan later at room) fits))
      (sym (is_allowed-append scan later at room) ∙ allowed) wrong
  where
    clash : {a : Bool} (b : Bool) → a ≡ true → b ≡ true → (a && b) ≡ false → ⊥
    clash {a} b e f g = ground arith

pub chain_from-Verdict :
    (r : FrameReader) (heads at : ℕ)
    → Verdict heads r.max_frame_size r.scan at (chain_from r heads at)
unfolding chain_from
chain_from-Verdict r zero at = tt
chain_from-Verdict r (suc heads) at = elim (head_cases r at) [
  | inl (cut, e) ↦ rw (chain_from, e) (λ run. omega (arith, cut, run.0.0))
  | inr (inl (h, e)) ↦
      rw (chain_from, e)
        (after_head-Verdict heads r.max_frame_size r.scan at _ h (chain_from-Verdict r heads _))
  | inr (inr (room, wrong, e)) ↦
      rw (chain_from, e) (λ later run. bad_head r.max_frame_size r.scan later at room wrong run.0)
]
