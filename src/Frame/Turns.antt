-- ===== src/Frame/Turns.antt =====
-- A round of `read` keeps the invariant and uses input.
use honeybeepf_llm.Prelude.{
  ℕ, zero, suc, ◌+◌, ◌-◌, ◌≤◌, ◌<◌, ◌≡◌, refl, ap, ◌∙◌, ◌⊎◌, inl, inr, Option, none, some, List, [],
  ◌++◌, Bytes, length, take, drop, length-append, length-take, length-drop, ltb, leb, ◌==◌, min,
  arith, Bool-cases, ltb→ge, ltb→lt, bytes_eq,
}
use honeybeepf_llm.Frame.Types.{FrameReader, State, Broken, Frame, preface_bytes}
use honeybeepf_llm.Frame.Heads.{finish_frame, is_payload}
use honeybeepf_llm.Frame.Payload.{copy_at, payload}
use honeybeepf_llm.Frame.Scan.{
  Candidate, anchored, rejected, need_more, scan_push, scan_cap, anchor, anchor_from, chain_at,
  reject,
}
use honeybeepf_llm.Frame.Read.{Turn, stop, go, resume, preface_turn, head_turn, after_payload, turn}
use honeybeepf_llm.Frame.Invariant.{
  StateOk, IsValid, moved-IsValid, length-copy_at, finish_frame-IsValid, with_head-IsValid,
  with_scan-IsValid,
}
use honeybeepf_llm.Frame.PayloadProgress.{PayloadOk, payload_ok}
use honeybeepf_llm.Frame.Progress.{Ready, Sound, Ready-head, start_frame-Sound}

-- A round stops with a valid reader, or goes on ready for another and with less than `bound` bytes.
abbrev pub TurnOk : ℕ → Turn → Type 0
TurnOk bound (stop r) = IsValid r
TurnOk bound (go r rest frames) = Sound r × (length rest < bound)

pub preface_ok :
    (seen : ℕ) (r : FrameReader) (input : Bytes)
    → IsValid r
    → seen < 24
    → 0 < length input
    → TurnOk (length input) (preface_turn seen r input)
preface_ok seen r input v lt some_input =
    let n = min (24 - seen) (length input) in
    elim (Bool-cases (bytes_eq (take n input) (take n (drop seen preface_bytes)))) [
      | inl e ↦ rw e (elim (Bool-cases (seen + n == 24)) [
        | inl f ↦ rw f (
          (moved-IsValid r _ v refl refl refl refl refl refl refl tt, tt),
          omega (arith, length-drop n input),
        )
        | inr f ↦ rw f (
          (moved-IsValid r _ v refl refl refl refl refl refl refl (ground arith), tt),
          omega (arith, length-drop n input),
        )
      ])
      | inr e ↦ rw e (moved-IsValid r _ v refl refl refl refl refl refl refl tt)
    ]

pub head_ok :
    (r : FrameReader) (input : Bytes)
    → IsValid r
    → r.state ≡ State.head
    → 0 < length input
    → TurnOk (length input) (head_turn r input)
head_ok r input v s some_input =
    let n = min (9 - r.head_len) (length input) in
    let lt = v.head_len_lt in
    let same : length (copy_at r.head r.head_len (take n input)) ≡ 9 =
      length-copy_at r.head r.head_len (take n input)
        (omega (arith, v.head_size, length-take n input))
      ∙ v.head_size in
    elim (Bool-cases (r.head_len + n == 9)) [
      | inl e ↦ rw e (
        start_frame-Sound _ (with_head-IsValid r _ 0 same (omega arith) v),
        omega (arith, length-drop n input),
      )
      | inr e ↦ rw e (
        (let w =
              with_head-IsValid r (copy_at r.head r.head_len (take n input)) (r.head_len + n) same
                (ground arith) v in
            (
              w,
              Ready-head
                  (record r {
                    head = copy_at r.head r.head_len (take n input);
                    head_len = r.head_len + n;
                  })
                  s,
            )),
        omega (arith, length-drop n input),
      )
    ]

-- What one offset of the scan leads to.
pub after_chain : ℕ → FrameReader → ℕ → Candidate → FrameReader × Option ℕ
unfolding anchor_from
after_chain rounds r at c = elim c [
  | anchored ↦ (r, some at)
  | need_more ↦ anchor_from rounds r (at + 1)
  | rejected ↦ anchor_from rounds (reject r at) (at + 1)
]

pub reject-IsValid :
    (r : FrameReader) (at : ℕ)
    → IsValid r
    → IsValid (reject r at) × (length (reject r at).scan ≡ length r.scan)
reject-IsValid r at v = elim (Bool-cases (at == r.scan_from)) [
  | inl e ↦ rw e (with_scan-IsValid r r.scan (r.scan_from + 1) v.scan_le v, refl)
  | inr e ↦ rw e (v, refl)
]

abbrev pub AnchorOk : FrameReader → FrameReader × Option ℕ → Type 0
AnchorOk r (r', found) = IsValid r' × (length r'.scan ≡ length r.scan)

pub chained :
    (c : Candidate) (rounds : ℕ) (r : FrameReader) (at : ℕ)
    → IsValid r
    → ((r : FrameReader) (at : ℕ) → IsValid r → AnchorOk r (anchor_from rounds r at))
    → AnchorOk r (after_chain rounds r at c)
unfolding after_chain
chained anchored rounds r at v h = (v, refl)
chained need_more rounds r at v h = h r (at + 1) v
chained rejected rounds r at v h =
    let (w, same) = reject-IsValid r at v in
    let (x, same') = h (reject r at) (at + 1) w in (x, same' ∙ same)

pub anchor_from_ok :
    (rounds : ℕ) (r : FrameReader) (at : ℕ) → IsValid r → AnchorOk r (anchor_from rounds r at)
unfolding anchor_from after_chain
anchor_from_ok zero r at v = (v, refl)
anchor_from_ok (suc rounds) r at v = elim (Bool-cases (leb (at + 9) (length r.scan))) [
  | inr e ↦ rw e (v, refl)
  | inl e ↦ rw e (chained (chain_at r at) rounds r at v (anchor_from_ok rounds))
]

pub scan_push_ok :
    (r : FrameReader) (input : Bytes)
    → IsValid r
    → let r' = scan_push r input in IsValid r' × (length r'.scan ≤ length r.scan + length input)
unfolding scan_push
scan_push_ok r input v =
    let all = r.scan ++ input in
    let over = length all - scan_cap r in
    elim (Bool-cases (ltb (scan_cap r) (length all))) [
      | inl e ↦ rw e (
        with_scan-IsValid r (drop over all) (r.scan_from - over)
            (omega (arith, length-drop over all, ltb→lt _ _ e)) v,
        omega (arith, length-drop over all, length-append r.scan input),
      )
      | inr e ↦ rw e (
        with_scan-IsValid r all r.scan_from (omega (arith, ltb→ge _ _ e)) v,
        omega (arith, length-append r.scan input),
      )
    ]

pub resume_ok :
    (r : FrameReader) (found : Option ℕ) (bound : ℕ)
    → IsValid r
    → length r.scan < bound
    → TurnOk bound (resume (r, found))
resume_ok r none bound v lt = v
resume_ok r (some at) bound v lt = (
  (
    moved-IsValid (record r { scan = [] }) _ (with_scan-IsValid r [] r.scan_from (omega arith) v)
        refl refl refl refl refl refl refl tt,
    tt,
  ),
  omega (arith, length-drop at r.scan),
)

pub scan_ok :
    (r : FrameReader) (input : Bytes)
    → IsValid r
    → TurnOk (length r.scan + length input + 1) (resume (anchor (scan_push r input)))
unfolding anchor
scan_ok r input v =
    let (w, le) = scan_push_ok r input v in
    let r' = scan_push r input in
    let (x, same) = anchor_from_ok (length r'.scan) r' r'.scan_from w in
    resume_ok _ _ _ x (omega (arith, le, same))

-- After a payload round: a payload with nothing left is ended.
pub ended_ok :
    (r : FrameReader) (rest : Bytes) (frames : List Frame) (bound : ℕ)
    → IsValid r
    → (r.state ≡ State.payload) ⊎ (r.state ≡ State.broken Broken.bad_padding)
    → length rest < bound
    → TurnOk bound (after_payload (r, rest, frames))
ended_ok r rest frames bound v (inl s) lt = elim (Bool-cases (r.left == 0)) [
  | inl e ↦
      rw (e, ap is_payload s)
        (let (w, at) = finish_frame-IsValid r v in ((w, Ready-head (finish_frame r).0 at), lt))
  | inr e ↦ rw e ((v, rw s (ground arith)), lt)
]
ended_ok r rest frames bound v (inr s) lt = elim (Bool-cases (r.left == 0)) [
  | inl e ↦ rw (e, ap is_payload s) ((v, rw s tt), lt)
  | inr e ↦ rw e ((v, rw s tt), lt)
]

pub payload_round :
    (r : FrameReader) (out : FrameReader × Bytes × List Frame) (input : Bytes) (bound : ℕ)
    → PayloadOk r input out
    → length out.1 < bound
    → TurnOk bound (after_payload out)
payload_round r (r', rest, frames) input bound (v, s, le, lt) h =
    ended_ok r' rest frames bound v s h

-- A round with a byte at least, from a reader that is ready for it.
pub turn_ok :
    (s : State) (r : FrameReader) (input : Bytes)
    → r.state ≡ s
    → Sound r
    → 0 < length input
    → TurnOk (length input) (turn s r input)
unfolding turn
turn_ok (State.broken why) r input e (v, ready) some_input = v
turn_ok State.scan r input e (v, ready) some_input =
    absurd (rw⁻¹ (ap (λ s. Ready s r.left) e) ready)
turn_ok (State.preface seen) r input e (v, ready) some_input =
    preface_ok seen r input v (rw⁻¹ (ap (λ s. StateOk s r.front r.left) e) v.state_ok) some_input
turn_ok State.head r input e (v, ready) some_input = head_ok r input v e some_input
turn_ok State.payload r input e (v, ready) some_input =
    let p = payload_ok r input v e in
    payload_round r (payload r input) input (length input) p
      (p.3 (rw⁻¹ (ap (λ s. Ready s r.left) e) ready) some_input)

pub weaker : (t : Turn) (bound more : ℕ) → bound ≤ more → TurnOk bound t → TurnOk more t
weaker (stop r) bound more h v = v
weaker (go r rest frames) bound more h (v, lt) = (v, omega arith)

-- The first round, from any valid reader.
pub first-TurnOk :
    (s : State) (r : FrameReader) (input : Bytes)
    → r.state ≡ s
    → IsValid r
    → 0 < length input
    → TurnOk (length r.scan + length input + 1) (turn s r input)
unfolding turn
first-TurnOk (State.broken why) r input e v some_input = v
first-TurnOk State.scan r input e v some_input = scan_ok r input v
first-TurnOk (State.preface seen) r input e v some_input =
    weaker (preface_turn seen r input) (length input) _ (omega arith) (
      preface_ok seen r input v (rw⁻¹ (ap (λ s. StateOk s r.front r.left) e) v.state_ok) some_input)
first-TurnOk State.head r input e v some_input =
    weaker (head_turn r input) (length input) _ (omega arith) (head_ok r input v e some_input)
first-TurnOk State.payload r input e v some_input =
    let p = payload_ok r input v e in
    payload_round r (payload r input) input _ p (omega (arith, p.2))
