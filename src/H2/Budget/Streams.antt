-- ===== src/H2/Budget/Streams.antt =====
-- What one stream holds: after its headers, after DATA, and in a map of streams.
use mathlib.Core.Path.{subst}
use honeybeepf_llm.Prelude.{
  ltb→ge, sym, ◌∙◌, ℕ, ◌+◌, ◌≤◌, ◌≡◌, refl, Bool, true, false, Bool-cases, inl, inr, ◌||◌, Option,
  [], ◌∷◌, Bytes, length, length-append, ltb, leb, arith,
}
use honeybeepf_llm.Hpack.Types.{codes}
use honeybeepf_llm.ByteUtils.Search.{contains_pattern}
use honeybeepf_llm.Json.{Json, is_some_and}
use honeybeepf_llm.Sse.{feed, partial_len}
use honeybeepf_llm.H2.Stream.{
  max_response_buffer_size, Body, streaming, buffered, body_held, body_for, body_after, H2Stream,
  held, open_stream, open_speculative, response_headers, Change, body_data, take_data,
}

-- A stream holds no more than a response may, and nothing before its first DATA.
abbrev pub HeldOk : ℕ → Bool → Type 0
HeldOk n got_data = (n ≤ max_response_buffer_size) × (got_data ≡ false → n ≡ 0)

abbrev pub StreamOk : {V : Type 0} → H2Stream V → Type 0
StreamOk s = HeldOk (held s) s.got_data

-- A change in bytes held, from one count to another, within the room.
abbrev pub Moves : ℕ → ℕ → ℕ → Change → Type 0
Moves before after room (Change.grown k) = (after ≡ before + k) × (k ≤ room)
Moves before after room (Change.shrunk k) = (after ≡ 0) × (k ≡ before)

module _ (V : Type 0) where
  pub open_stream-StreamOk : (now : ℕ) → StreamOk (open_stream {V = V} now)
  unfolding open_stream held
  open_stream-StreamOk now = (omega arith, λ h. refl)

  pub open_speculative-StreamOk : (now : ℕ) → StreamOk (open_speculative {V = V} now)
  unfolding open_speculative held
  open_speculative-StreamOk now = (omega arith, λ h. refl)

  pub open_stream-held : (now : ℕ) → held (open_stream {V = V} now) ≡ 0
  unfolding open_stream held
  open_stream-held now = refl

  pub open_speculative-held : (now : ℕ) → held (open_speculative {V = V} now) ≡ 0
  unfolding open_speculative held
  open_speculative-held now = refl

  body_for-held : (coding : Bytes) (sse : Bool) → body_held (body_for {V = V} coding sse) ≡ 0
  body_for-held [] true = refl
  body_for-held [] false = refl
  body_for-held (b ∷ bs) sse = refl

  body_after-held :
      (got_data : Bool) (body : Body V) (coding : Bytes) (sse : Bool)
      → HeldOk (body_held body) got_data
      → body_held (body_after got_data body coding sse) ≡ body_held body
  body_after-held true body coding sse h = refl
  body_after-held false body coding sse h = body_for-held coding sse ∙ sym (h.1 refl)

  -- Headers leave the count of bytes as it is: they pick a body before DATA only.
  pub response_headers-held :
      (now : ℕ) (content_type : Option Bytes) (coding : Bytes) (s : H2Stream V)
      → StreamOk s
      → held (response_headers now content_type coding s) ≡ held s
  unfolding response_headers held
  response_headers-held now content_type coding s ok =
      body_after-held s.got_data s.body coding
        (is_some_and content_type (λ c. contains_pattern c (codes "text/event-stream"))) ok

  pub response_headers-StreamOk :
      (now : ℕ) (content_type : Option Bytes) (coding : Bytes) (s : H2Stream V)
      → StreamOk s
      → StreamOk (response_headers now content_type coding s)
  unfolding response_headers
  response_headers-StreamOk now content_type coding s ok =
      subst (λ n. HeldOk n s.got_data) (sym (response_headers-held now content_type coding s ok)) ok

or_false : {a b : Bool} → (a || b) ≡ false → (a ≡ false) × (b ≡ false)
or_false {a} {b} h = ground arith

module _ (J : Json) where
  body_data-Moves :
      (body : Body J.Value) (bytes : Bytes) (room : ℕ)
      → body_held body ≤ max_response_buffer_size
      → Moves
          (body_held body)
          (body_held (body_data J body bytes room).0)
          room
          ((body_data J body bytes room).1)
        × (body_held (body_data J body bytes room).0 ≤ max_response_buffer_size)
  unfolding body_data
  body_data-Moves (streaming cursor) bytes room h =
      elim (Bool-cases (leb (partial_len (feed J cursor bytes)) max_response_buffer_size)) [
        | inl e ↦ rw e (omega arith)
        | inr e ↦ rw e (omega arith)
      ]
  body_data-Moves (buffered coding sse buf true) bytes room h = (omega arith, h)
  body_data-Moves (buffered coding sse buf false) bytes room h =
      elim (Bool-cases
        (ltb room (length bytes) || ltb max_response_buffer_size (length buf + length bytes))) [
          | inl e ↦ rw e ((refl, refl), omega arith)
          | inr e ↦ rw e (
            (length-append buf bytes, ltb→ge room (length bytes) (or_false e).0),
            omega (
              arith,
              length-append buf bytes,
              ltb→ge max_response_buffer_size (length buf + length bytes) (or_false e).1,
            ),
          )
        ]

  -- DATA moves the count of held bytes by the change that it returns, within the room given.
  pub take_data-Moves :
      (now : ℕ) (bytes : Bytes) (room : ℕ) (s : H2Stream J.Value)
      → StreamOk s
      → Moves
          (held s)
          (held (take_data J now bytes room s).0)
          room
          ((take_data J now bytes room s).1)
        × StreamOk ((take_data J now bytes room s).0)
  unfolding take_data held
  take_data-Moves now bytes room s ok =
      let moved = body_data-Moves s.body bytes room ok.0 in (moved.0, (moved.1, λ h. cc))
