-- ===== src/Frame/Anchor.antt =====
-- h2/frame.rs: the search of `anchor`, against the runs of valid heads in the bytes.
use honeybeepf_llm.Prelude.{
  ℕ, zero, suc, ◌+◌, ◌-◌, ◌<◌, ◌≤◌, ◌≡◌, refl, sym, inl, inr, Option, none, some, [], append-nil,
  ◌++◌, Bytes, length, leb, ◌==◌, arith, Bool-cases, leb→le, leb→gt, ==→eq,
}
use mathlib.Core.Path.{subst}
use honeybeepf_llm.Frame.Types.{FrameReader}
use honeybeepf_llm.Frame.Scan.{
  Candidate, anchored, rejected, need_more, chain_at, reject, anchor_from, anchor,
}
use honeybeepf_llm.Frame.Runs.{IsRun}
use honeybeepf_llm.Frame.Chains.{Verdict, chain_from-Verdict}

-- The first place from `from` on with three heads in a row, or that there is no such place.
abbrev pub FirstRun : ℕ → Bytes → ℕ → Option ℕ → Type 0
FirstRun max scan from (some k) =
    (from ≤ k) × IsRun 3 max scan k × ((j : ℕ) → from ≤ j → j < k → IsRun 3 max scan j → ⊥)
FirstRun max scan from none = (j : ℕ) → from ≤ j → IsRun 3 max scan j → ⊥

-- No bytes that may follow make a run at a place from the one bound up to the other.
abbrev pub RulesOut : ℕ → Bytes → ℕ → ℕ → Type 0
RulesOut max scan from to =
    (from ≤ to) × ((j : ℕ) (later : Bytes) → from ≤ j → j < to → IsRun 3 max (scan ++ later) j → ⊥)

-- A search from a place on finds the first run there is, changes nothing but where the next search
-- starts, and passes over only what is ruled out.
abbrev pub FindsFirstRun : FrameReader → ℕ → FrameReader × Option ℕ → Type 0
FindsFirstRun r at (r', found) =
    (r' ≡ record r { scan_from = r'.scan_from })
    × FirstRun r.max_frame_size r.scan at found
    × RulesOut r.max_frame_size r.scan r.scan_from r'.scan_from

-- A place with no run moves the search on.
next-FirstRun :
    (max : ℕ) (scan : Bytes) (from : ℕ) (found : Option ℕ)
    → (IsRun 3 max scan from → ⊥)
    → FirstRun max scan (from + 1) found
    → FirstRun max scan from found
next-FirstRun max scan from found fails = later found
  where
    at_or_after :
        (j : ℕ) → (from + 1 ≤ j → IsRun 3 max scan j → ⊥) → from ≤ j → IsRun 3 max scan j → ⊥
    at_or_after j after le = elim (Bool-cases (from == j)) [
      | inl e ↦ subst (λ k. IsRun 3 max scan k → ⊥) (==→eq from j e) fails
      | inr e ↦ after (ground arith)
    ]

    later : (found : Option ℕ) → FirstRun max scan (from + 1) found → FirstRun max scan from found
    later none h = λ j le. at_or_after j (h j) le
    later (some k) (le, run, before) =
        (omega arith, run, λ j le' lt. at_or_after j (λ le''. before j le'' lt) le')

-- What the candidate at a place leads to.
after_candidate : ℕ → FrameReader → ℕ → Candidate → FrameReader × Option ℕ
unfolding anchor_from
after_candidate rounds r at c = elim c [
  | anchored ↦ (r, some at)
  | need_more ↦ anchor_from rounds r (at + 1)
  | rejected ↦ anchor_from rounds (reject r at) (at + 1)
]

-- One more place with no run that can come.
RulesOut-next :
    (max : ℕ) (scan : Bytes) (from to : ℕ)
    → ((later : Bytes) → IsRun 3 max (scan ++ later) from → ⊥)
    → RulesOut max scan (from + 1) to
    → RulesOut max scan from to
RulesOut-next max scan from to fails (le, out) = (
  omega arith,
  λ j later from_le lt. elim (Bool-cases (from == j)) [
    | inl e ↦ subst (λ k. IsRun 3 max (scan ++ later) k → ⊥) (==→eq from j e) (fails later)
    | inr e ↦ out j later (ground arith) lt
  ],
)

stays : (r : FrameReader) → RulesOut r.max_frame_size r.scan r.scan_from r.scan_from
stays r = (omega arith, λ j later le lt. absurd (omega arith))

after_candidate-FindsFirstRun :
    (rounds : ℕ) (r : FrameReader) (at : ℕ) (c : Candidate)
    → Verdict 3 r.max_frame_size r.scan at c
    → r.scan_from ≤ at
    → length r.scan - at ≤ suc rounds
    → at + 9 ≤ length r.scan
    → ((r : FrameReader) (at : ℕ)
        → r.scan_from ≤ at
        → length r.scan - at ≤ rounds
        → FindsFirstRun r at (anchor_from rounds r at))
    → FindsFirstRun r at (after_candidate rounds r at c)
unfolding after_candidate
after_candidate-FindsFirstRun rounds r at anchored run le enough room h =
    (refl, (omega arith, run, λ j le lt. absurd (omega arith)), stays r)
after_candidate-FindsFirstRun rounds r at need_more fails le enough room h =
    let after = h r (at + 1) (omega arith) (omega arith) in
    (after.0, next-FirstRun r.max_frame_size r.scan at _ fails after.1, after.2)
after_candidate-FindsFirstRun rounds r at rejected fails le enough room h =
    elim (Bool-cases (at == r.scan_from)) [
      | inl e ↦
          let after =
            h (record r { scan_from = r.scan_from + 1 }) (at + 1) (omega (arith, ==→eq _ _ e))
              (omega arith) in
          rw e (
            after.0,
            next-FirstRun r.max_frame_size r.scan at _ none_here after.1,
            RulesOut-next r.max_frame_size r.scan r.scan_from _
                (subst (λ k. (later : Bytes) → IsRun 3 r.max_frame_size (r.scan ++ later) k → ⊥)
                  (==→eq _ _ e) fails)
                after.2,
          )
      | inr e ↦
          let after = h r (at + 1) (omega arith) (omega arith) in
          rw e (after.0, next-FirstRun r.max_frame_size r.scan at _ none_here after.1, after.2)
    ]
  where
    none_here : IsRun 3 r.max_frame_size r.scan at → ⊥
    none_here run =
        fails [] (subst (λ xs. IsRun 3 r.max_frame_size xs at) (sym (append-nil r.scan)) run)

anchor_from-FindsFirstRun :
    (rounds : ℕ) (r : FrameReader) (at : ℕ)
    → r.scan_from ≤ at
    → length r.scan - at ≤ rounds
    → FindsFirstRun r at (anchor_from rounds r at)
unfolding anchor_from after_candidate chain_at
anchor_from-FindsFirstRun zero r at le enough =
    (refl, (λ j from run. omega (arith, run.0.0)), stays r)
anchor_from-FindsFirstRun (suc rounds) r at le enough =
    elim (Bool-cases (leb (at + 9) (length r.scan))) [
      | inl e ↦ rw e (
          after_candidate-FindsFirstRun rounds r at (chain_at r at) (chain_from-Verdict r 3 at) le
            enough (leb→le _ _ e) (anchor_from-FindsFirstRun rounds))
      | inr e ↦ rw e (refl, (λ j from run. omega (arith, leb→gt _ _ e, run.0.0)), stays r)
    ]

-- `anchor` finds the first place of the scan, from `scan_from` on, at which three valid frame
-- heads are in a row, each where the payload of the one before ends, and finds none only where
-- there is none; what a valid head is, is told on the nine bytes by a table of frame types. It
-- changes nothing but `scan_from`, and moves that only forward and only past places at which no
-- bytes that may follow make such a run.
pub anchor-FindsFirstRun : (r : FrameReader) → FindsFirstRun r r.scan_from (anchor r)
unfolding anchor
anchor-FindsFirstRun r =
    anchor_from-FindsFirstRun (length r.scan) r r.scan_from (omega arith) (omega arith)
