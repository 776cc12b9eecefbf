-- ===== src/Frame/PayloadProgress.antt =====
-- `payload` keeps the invariant, and uses input where it has bytes due.
use honeybeepf_llm.Prelude.{
  ℕ, zero, suc, ◌+◌, ◌-◌, ◌≤◌, ◌<◌, ◌≡◌, refl, ap, ◌∙◌, ◌⊎◌, inl, inr, Bool, true, false, ◌&&◌,
  ◌||◌, Option, none, some, List, [], ◌∷◌, ◌++◌, Bytes, length, take, drop, length-append,
  length-drop, length-take_le, ltb, ◌==◌, min, arith, Bool-cases, ltb→ge, ==→eq, eq→==,
}
use honeybeepf_llm.Frame.Types.{FrameReader, State, Broken, Block, Frame, max_header_block}
use honeybeepf_llm.Frame.FrameType
use honeybeepf_llm.Frame.Payload.{
  copy_at, Front, done, broke, eat, eaten, eat_front, content_due, gather, gather_ctrl, content,
  skip_pad, take_content, after_front, payload,
}
use honeybeepf_llm.Frame.Invariant.{
  IsValid, moved-IsValid, length-copy_at, with_buf-IsValid, with_ctrl-IsValid,
}

abbrev InPayload : FrameReader → Type 0
InPayload r = IsValid r × (r.state ≡ State.payload)

front_le : (r : FrameReader) → InPayload r → r.front ≤ r.left
front_le r (v, s) = rw s at v.state_ok

-- In a payload, with counters that fit.
recount :
    (r r' : FrameReader)
    → InPayload r
    → r'.head ≡ r.head
    → r'.head_len ≡ r.head_len
    → r'.ctrl ≡ r.ctrl
    → r'.ctrl_len ≡ r.ctrl_len
    → r'.buf ≡ r.buf
    → r'.scan ≡ r.scan
    → r'.max_frame_size ≡ r.max_frame_size
    → r'.state ≡ r.state
    → r'.front ≤ r'.left
    → InPayload r'
recount r r' (v, s) e1 e2 e3 e4 e5 e6 e7 e8 h =
    (moved-IsValid r r' v e1 e2 e3 e4 e5 e6 e7 (rw (e8, s) h), e8 ∙ s)

-- The input `rest` left over, and the reader then, after the loop over the front.
abbrev FrontOk : Bytes → FrameReader → Front → Type 0
FrontOk input r (broke r' rest) =
    IsValid r' × (r'.state ≡ State.broken Broken.bad_padding) × (length rest < length input)
FrontOk input r (done r' rest) =
    InPayload r'
    × (length rest ≤ length input)
    × ((r'.front ≡ 0) ⊎ (rest ≡ []))
    × ((length rest < length input) ⊎ ((rest ≡ input) × (r'.left ≡ r.left)))

eat_ok : (r : FrameReader) (b : ℕ) → InPayload r → InPayload (eat r b)
eat_ok r b p = elim (Bool-cases r.pad_due) [
  | inl e ↦
      rw e (recount r _ p refl refl refl refl refl refl refl refl (omega (arith, front_le r p)))
  | inr e ↦
      rw e (recount r _ p refl refl refl refl refl refl refl refl (omega (arith, front_le r p)))
]

longer :
    (b : ℕ) (bs : Bytes) (r r' : FrameReader) (f : Front) → FrontOk bs r f → FrontOk (b ∷ bs) r' f
longer b bs r r' (broke x rest) (v, s, l) = (v, s, omega arith)
longer b bs r r' (done x rest) (p, l, e, k) = (p, omega arith, e, inl (omega arith))

eaten_ok :
    (b : ℕ) (bs : Bytes) (r r' : FrameReader) (f : Front)
    → InPayload r
    → FrontOk bs r f
    → FrontOk (b ∷ bs) r' (eaten r bs f)
eaten_ok b bs r r' f p h = elim (Bool-cases (r.front == 0 && ltb r.left r.pad)) [
  | inl e ↦ rw e (
    moved-IsValid r (record r { state = State.broken Broken.bad_padding }) p.0 refl refl refl refl
        refl refl refl tt,
    refl,
    omega arith,
  )
  | inr e ↦ rw e (longer b bs r r' f h)
]

eat_front_ok : (input : Bytes) (r : FrameReader) → InPayload r → FrontOk input r (eat_front r input)
unfolding eat_front
eat_front_ok [] r p = (p, omega arith, inr refl, inr (refl, refl))
eat_front_ok (b ∷ bs) r p = elim (Bool-cases (r.front == 0)) [
  | inl e ↦ rw e (p, omega arith, inl (==→eq _ _ e), inr (refl, refl))
  | inr e ↦ rw e (
      eaten_ok b bs (eat r b) r (eat_front (eat r b) bs) (eat_ok r b p)
        (eat_front_ok bs (eat r b) (eat_ok r b p)))
]

-- `content` moves bytes into bounded buffers and leaves the counters alone.
abbrev Kept : FrameReader → FrameReader → Type 0
Kept r r' = IsValid r' × (r'.state ≡ r.state) × (r'.left ≡ r.left) × (r'.front ≡ r.front)

gather_ok :
    (r : FrameReader) (b : Option Block) (bytes : Bytes) → IsValid r → Kept r (gather r b bytes)
gather_ok r none bytes v = (v, refl, refl, refl)
gather_ok r (some b) bytes v = elim (Bool-cases b.too_large) [
  | inl e ↦ rw e (v, refl, refl, refl)
  | inr e ↦ elim (Bool-cases (ltb max_header_block (length r.buf + length bytes))) [
    | inl f ↦
        rw (e, f)
          (
            with_buf-IsValid r (some (record b { too_large = true })) r.buf v.buf_le v,
            refl,
            refl,
            refl,
          )
    | inr f ↦
        rw (e, f)
          (
            with_buf-IsValid r (some (record b { too_large = false })) (r.buf ++ bytes)
                (omega (arith, length-append r.buf bytes, ltb→ge _ _ f)) v,
            refl,
            refl,
            refl,
          )
  ]
]

gather_ctrl_ok : (r : FrameReader) (bytes : Bytes) → IsValid r → Kept r (gather_ctrl r bytes)
gather_ctrl_ok r bytes v =
    let n = min (length bytes) (4 - r.ctrl_len) in
    let fits : r.ctrl_len + length (take n bytes) ≤ length r.ctrl =
      omega (arith, length-take_le n bytes, v.ctrl_size, v.ctrl_len_le) in
    (
      with_ctrl-IsValid r (copy_at r.ctrl r.ctrl_len (take n bytes)) (r.ctrl_len + n)
          (length-copy_at r.ctrl r.ctrl_len (take n bytes) fits ∙ v.ctrl_size)
          (omega (arith, v.ctrl_len_le)) v,
      refl,
      refl,
      refl,
    )

content_ok : (r : FrameReader) (bytes : Bytes) → IsValid r → Kept r (content r bytes).0
unfolding content
content_ok r bytes v = elim (Bool-cases (r.kind == FrameType.data_bytes && ltb 0 (length bytes))) [
  | inl e ↦ rw e (v, refl, refl, refl)
  | inr e ↦ elim (Bool-cases (r.kind == FrameType.headers || r.kind == FrameType.continuation)) [
    | inl f ↦ rw (e, f) (gather_ok r r.block bytes v)
    | inr f ↦
        elim (Bool-cases (r.kind == FrameType.goaway && ltb 0 (length bytes) && ltb r.ctrl_len 4)) [
          | inl g ↦ rw (e, f, g) (gather_ctrl_ok r bytes v)
          | inr g ↦ rw (e, f, g) (v, refl, refl, refl)
        ]
  ]
]

-- With front bytes due there is no input left, so nothing more is taken.
abbrev Settled : FrameReader → Bytes → Type 0
Settled r rest = (r.front ≡ 0) ⊎ (length rest ≡ 0)

skip_pad_ok :
    (whole : Bool) (r : FrameReader) (rest : Bytes)
    → InPayload r
    → Settled r rest
    → let (r', rest') = skip_pad whole r rest in
      InPayload r'
      × (length rest' ≤ length rest)
      × (whole ≡ true → 0 < r.left → 0 < length rest → length rest' < length rest)
skip_pad_ok false r rest p z = (p, omega arith, λ e. cc)
skip_pad_ok true r rest p z =
    let n = min r.left (length rest) in
    (
      recount r (record r { left = r.left - n }) p refl refl refl refl refl refl refl refl
          (omega (arith, front_le r p)),
      omega (arith, length-drop n rest),
      λ e a b. omega (arith, length-drop n rest),
    )

due_fits : (r : FrameReader) → content_due r ≤ r.left - r.front
due_fits r = ground arith

shrinks :
    (out dropped all n : ℕ)
    → dropped ≡ all - n
    → out ≤ dropped
    → 0 < all
    → (n ≡ 0 → out < dropped)
    → out < all
shrinks out dropped all zero e le pos h = omega (arith, h refl)
shrinks out dropped all (suc n) e le pos h = omega arith

-- With input at hand, no content byte is taken only if none is due.
whole_content :
    (r : FrameReader) (len : ℕ)
    → r.front ≡ 0
    → 0 < len
    → min (content_due r) len ≡ 0
    → (min (content_due r) len == content_due r) ≡ true
whole_content r len z h e = eq→== _ _ (omega arith)

unused :
    (input : Bytes) (r r' : FrameReader) (rest : Bytes) (out : ℕ)
    → (r'.front ≡ 0) ⊎ (rest ≡ [])
    → rest ≡ input
    → r'.left ≡ r.left
    → 0 < r.left
    → 0 < length input
    → (r'.front ≡ 0 → 0 < r'.left → 0 < length rest → out < length rest)
    → out < length input
unused input r r' rest out (inl z) same left a b lt =
    omega (arith, ap length same, lt z (omega arith) (omega (arith, ap length same)))
unused input r r' rest out (inr z) same left a b lt =
    absurd (omega (arith, ap length same, ap length z))

take_content_ok :
    (r : FrameReader) (input : Bytes)
    → InPayload r
    → Settled r input
    → let (r', rest, frames) = take_content r input in
      InPayload r'
      × (length rest ≤ length input)
      × (r.front ≡ 0 → 0 < r.left → 0 < length input → length rest < length input)
take_content_ok r input p z =
    let due = content_due r in
    let n = min due (length input) in
    let (v, s, l, f) = content_ok r (take n input) p.0 in
    let r' : FrameReader = (content r (take n input)).0 in
    let due_le : due ≤ r.left - r.front = due_fits r in
    let q : InPayload (record r' { left = r'.left - n }) =
      recount r' _ (v, s ∙ p.1) refl refl refl refl refl refl refl refl
        (omega (arith, front_le r p, l, f, due_le)) in
    let z' : Settled (record r' { left = r'.left - n }) (drop n input) = elim z [
      | inl e ↦ inl (f ∙ e)
      | inr e ↦ inr (omega (arith, length-drop n input))
    ] in
    let (q', le, lt) =
      skip_pad_ok (n == due) (record r' { left = r'.left - n }) (drop n input) q z' in
    (
      q',
      omega (arith, le, length-drop n input),
      λ fz pos some_input.
          shrinks _ (length (drop n input)) (length input) n (length-drop n input) le some_input
            (λ e.
              lt (whole_content r (length input) fz some_input e) (omega (arith, l, e))
                (omega (arith, length-drop n input, e))),
    )

-- A payload with bytes due uses input, and stays a payload or breaks.
abbrev pub PayloadOk : FrameReader → Bytes → FrameReader × Bytes × List Frame → Type 0
PayloadOk r input out =
    IsValid out.0
    × ((out.0.state ≡ State.payload) ⊎ (out.0.state ≡ State.broken Broken.bad_padding))
    × (length out.1 ≤ length input)
    × (0 < r.left → 0 < length input → length out.1 < length input)

after_front_ok :
    (input : Bytes) (r : FrameReader) (f : Front)
    → FrontOk input r f
    → PayloadOk r input (after_front f)
after_front_ok input r (broke r' rest) (v, s, l) = (v, inr s, omega arith, λ a b. l)
after_front_ok input r (done r' rest) (p, l, z, k) =
    let (q, le, lt) =
      take_content_ok r' rest p (elim z [ inl e ↦ inl e | inr e ↦ inr (ap length e) ]) in
    (
      q.0,
      inl q.1,
      omega (arith, le),
      elim k [
        | inl shorter ↦ λ a b. omega (arith, le)
        | inr (same, left) ↦ λ a b. unused input r r' rest _ z same left a b lt
      ],
    )

pub payload_ok :
    (r : FrameReader) (input : Bytes)
    → IsValid r
    → r.state ≡ State.payload
    → PayloadOk r input (payload r input)
unfolding payload
payload_ok r input v s = after_front_ok input r (eat_front r input) (eat_front_ok input r (v, s))
