-- ===== src/Frame/Returns.antt =====
-- `read` comes to an end and keeps the invariant: every round after the first uses input.
use honeybeepf_llm.Prelude.{
  ℕ, zero, suc, ◌+◌, ◌≤◌, ◌≡◌, refl, Option, none, some, List, [], ◌∷◌, Bytes, length, arith,
}
use honeybeepf_llm.Frame.Types.{FrameReader, Frame, Step}
use honeybeepf_llm.Frame.Read.{Turn, stop, go, turn, behind, read_loop, read}
use honeybeepf_llm.Frame.Invariant.{IsValid}
use honeybeepf_llm.Frame.Progress.{Sound}
use honeybeepf_llm.Frame.Turns.{TurnOk, turn_ok, first-TurnOk}

-- The rounds were enough, and the reader is valid.
abbrev pub Returns : Option Step → Type 0
Returns none = ⊥
Returns (some (r, frames)) = IsValid r

behind_ok : (frames : List Frame) (out : Option Step) → Returns out → Returns (behind frames out)
behind_ok frames none v = elim v [ ]
behind_ok frames (some (r, more)) v = v

-- The rest of the loop after one round.
abbrev after_turn : ℕ → Turn → Option Step
after_turn rounds t = elim t [
  | stop r' ↦ some (r', [])
  | go r' rest frames ↦ behind frames (read_loop rounds r' rest)
]

after_turn_ok :
    (rounds : ℕ) (t : Turn) (bound : ℕ)
    → TurnOk bound t
    → bound ≤ suc rounds
    → ((r : FrameReader) (input : Bytes)
        → Sound r
        → length input ≤ rounds
        → Returns (read_loop rounds r input))
    → Returns (after_turn rounds t)
after_turn_ok rounds (stop r) bound v le h = v
after_turn_ok rounds (go r rest frames) bound (v, lt) le h =
    behind_ok frames (read_loop rounds r rest) (h r rest v (omega arith))

read_loop-Returns :
    (rounds : ℕ) (r : FrameReader) (input : Bytes)
    → Sound r
    → length input ≤ rounds
    → Returns (read_loop rounds r input)
unfolding read_loop
read_loop-Returns zero r [] v le = v.0
read_loop-Returns (suc rounds) r [] v le = v.0
read_loop-Returns zero r (b ∷ bs) v le = absurd (omega arith)
read_loop-Returns (suc rounds) r (b ∷ bs) v le =
    after_turn_ok rounds (turn r.state r (b ∷ bs)) (length (b ∷ bs))
      (turn_ok r.state r (b ∷ bs) refl v (omega arith)) le (read_loop-Returns rounds)

first_round :
    (rounds : ℕ) (r : FrameReader) (input : Bytes)
    → IsValid r
    → length r.scan + length input ≤ rounds
    → Returns (read_loop (suc rounds) r input)
unfolding read_loop
first_round rounds r [] v le = v
first_round rounds r (b ∷ bs) v le =
    after_turn_ok rounds (turn r.state r (b ∷ bs)) _
      (first-TurnOk r.state r (b ∷ bs) refl v (omega arith)) (omega arith)
      (read_loop-Returns rounds)

suc-suc : (n : ℕ) → suc (suc n) ≡ n + 2
suc-suc n = omega arith

-- From a valid reader, `read` returns on every input, and the reader it leaves is valid: its
-- arrays keep their sizes, the header block stays within 64 KiB and the scan within 256 KiB, and a
-- payload's front never exceeds what is left of it.
pub read-Returns : (r : FrameReader) (input : Bytes) → IsValid r → Returns (read r input)
unfolding read
read-Returns r input v =
    let rounds = length r.scan + length input in
    rw⁻¹ (suc-suc rounds) (first_round (suc rounds) r input v (omega arith))
