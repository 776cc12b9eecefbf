-- ===== src/EventStream/Rounds.antt =====
-- The loop over whole messages, on a buffer in two parts; its rounds are enough.
use mathlib.Core.Path.{subst}
use honeybeepf_llm.Prelude.{
  ℕ, zero, suc, ◌+◌, ◌≤◌, ◌<◌, ◌≡◌, refl, sym, ap, ◌∙◌, Bool, true, false, not, Bool-cases, inl,
  inr, [], ◌∷◌, ◌++◌, Bytes, length, drop, length-append, length-drop, ltb, ltb→ge, if◌then◌else◌,
  arith,
}
use honeybeepf_llm.Json.{Json}
use honeybeepf_llm.EventStream.Message.{
  Frame, partial_frame, broken_frame, message, word, prelude_len, checked_message, prelude_ok,
  next_message,
}
use honeybeepf_llm.EventStream.Append.{drop-append_le, is_partial, total_ge, next_message-append}
use honeybeepf_llm.EventStream.Cursor.{
  broken, is_open, EventStreamCursor, Codecs, read_message, after_frame, read_rounds, read_messages,
}

-- A message takes sixteen bytes at least, and no more than there are.
abbrev Fits : Bytes → Frame → Type 0
Fits xs partial_frame = Unit
Fits xs broken_frame = Unit
Fits xs (message n headers payload) = (16 ≤ n) × (n ≤ length xs)

drop_none : (n : ℕ) → drop {A = ℕ} n [] ≡ []
drop_none zero = refl
drop_none (suc n) = refl

drop-drop : (n m k : ℕ) (xs : Bytes) → n + m ≡ k → drop m (drop n xs) ≡ drop k xs
drop-drop zero m k xs e = ap (λ i. drop i xs) (omega arith)
drop-drop (suc n) m k [] e = drop_none m ∙ sym (drop_none k)
drop-drop (suc n) m zero (x ∷ xs) e = absurd (omega arith)
drop-drop (suc n) m (suc k) (x ∷ xs) e = drop-drop n m k xs (omega arith)

module _ (crc32 : Bytes → ℕ) where
  checked_message-Fits :
      (xs : Bytes) (total headers_len : ℕ)
      → 16 ≤ total
      → total ≤ length xs
      → Fits xs (checked_message crc32 xs total headers_len)
  unfolding checked_message
  checked_message-Fits xs total headers_len ge le = ground arith

  chosen-Fits :
      (xs : Bytes) (short ok waits : Bool) (f : Frame)
      → (ok ≡ true → waits ≡ false → Fits xs f)
      → Fits xs (
          if short
          then partial_frame
          else if not ok
          then broken_frame
          else if waits
          then partial_frame
          else f)
  chosen-Fits xs true ok waits f h = tt
  chosen-Fits xs false false waits f h = tt
  chosen-Fits xs false true true f h = tt
  chosen-Fits xs false true false f h = h refl refl

  next_message-Fits : (xs : Bytes) → Fits xs (next_message crc32 xs)
  unfolding next_message
  next_message-Fits xs =
      chosen-Fits xs (ltb (length xs) prelude_len) (prelude_ok crc32 xs)
        (ltb (length xs) (word xs 0)) (checked_message crc32 xs (word xs 0) (word xs 4))
        (λ ok whole.
          checked_message-Fits xs (word xs 0) (word xs 4) (total_ge crc32 xs ok)
            (ltb→ge (length xs) (word xs 0) whole))

module _ (J : Json) (codecs : Codecs J) where
  abbrev pub Out : Type 0
  Out = EventStreamCursor J.Value × Bytes

  -- One round, at the frame that the buffer begins with.
  pub round :
      (rounds : ℕ) (c : EventStreamCursor J.Value) (xs : Bytes) (f : Frame)
      → is_open c.progress ≡ true
      → next_message codecs.crc32 xs ≡ f
      → read_rounds J codecs (suc rounds) c xs
        ≡ after_frame J codecs f c xs (read_rounds J codecs rounds)
  unfolding read_rounds
  round rounds c xs f o e =
      rw o (ap (λ (g : Frame). after_frame J codecs g c xs (read_rounds J codecs rounds)) e)

  pub shut :
      (rounds : ℕ) (c : EventStreamCursor J.Value) (xs : Bytes)
      → is_open c.progress ≡ false
      → read_rounds J codecs rounds c xs ≡ (c, xs)
  unfolding read_rounds
  shut zero c xs o = refl
  shut (suc rounds) c xs o = rw o refl

  enough_after :
      (r r' : ℕ) (c : EventStreamCursor J.Value) (xs : Bytes) (f : Frame)
      → length xs < suc r
      → length xs < suc r'
      → Fits xs f
      → ((c' : EventStreamCursor J.Value) (ys : Bytes)
          → length ys < r
          → length ys < r'
          → read_rounds J codecs r c' ys ≡ read_rounds J codecs r' c' ys)
      → after_frame J codecs f c xs (read_rounds J codecs r)
        ≡ after_frame J codecs f c xs (read_rounds J codecs r')
  enough_after r r' c xs partial_frame h h' fits same = refl
  enough_after r r' c xs broken_frame h h' fits same = refl
  enough_after r r' c xs (message n headers payload) h h' fits same =
      same (read_message J codecs c headers payload) (drop n xs) (omega (arith, length-drop n xs))
        (omega (arith, length-drop n xs))

  pub read_rounds-enough :
      (r r' : ℕ) (c : EventStreamCursor J.Value) (xs : Bytes)
      → length xs < r
      → length xs < r'
      → read_rounds J codecs r c xs ≡ read_rounds J codecs r' c xs
  read_rounds-enough zero r' c xs h h' = absurd (omega arith)
  read_rounds-enough (suc r) zero c xs h h' = absurd (omega arith)
  read_rounds-enough (suc r) (suc r') c xs h h' = elim (Bool-cases (is_open c.progress)) [
    | inl o ↦
        round r c xs (next_message codecs.crc32 xs) o refl
        ∙ (enough_after r r' c xs (next_message codecs.crc32 xs) h h'
              (next_message-Fits codecs.crc32 xs) (read_rounds-enough r r')
            ∙ sym (round r' c xs (next_message codecs.crc32 xs) o refl))
    | inr o ↦ shut (suc r) c xs o ∙ sym (shut (suc r') c xs o)
  ]

  -- The loop's own end: the cursor is shut, or no whole message is left; what is left ends the input.
  abbrev pub IsOver : Bytes → Out → Type 0
  IsOver xs (c, rest) =
      (is_open c.progress ≡ true → next_message codecs.crc32 rest ≡ partial_frame)
      × ((used : ℕ) × (used ≤ length xs) × (rest ≡ drop used xs))

  IsOver-here :
      (c : EventStreamCursor J.Value) (xs : Bytes)
      → (is_open c.progress ≡ true → next_message codecs.crc32 xs ≡ partial_frame)
      → IsOver xs (c, xs)
  IsOver-here c xs h = (h, (0, omega arith, refl))

  IsOver-later :
      (n : ℕ) (xs : Bytes) (out : Out) → n ≤ length xs → IsOver (drop n xs) out → IsOver xs out
  IsOver-later n xs (c, rest) le (h, (used, fits, e)) = (
    h,
    (n + used, omega (arith, fits, length-drop n xs), e ∙ drop-drop n used (n + used) xs refl),
  )

  IsOver-after :
      (r : ℕ) (c : EventStreamCursor J.Value) (xs : Bytes) (f : Frame)
      → length xs < suc r
      → next_message codecs.crc32 xs ≡ f
      → Fits xs f
      → ((c' : EventStreamCursor J.Value) (ys : Bytes)
          → length ys < r
          → IsOver ys (read_rounds J codecs r c' ys))
      → IsOver xs (after_frame J codecs f c xs (read_rounds J codecs r))
  IsOver-after r c xs partial_frame h e fits later = IsOver-here c xs (λ o. e)
  IsOver-after r c xs broken_frame h e fits later =
      IsOver-here (record c { progress = broken }) xs (λ o. absurd cc)
  IsOver-after r c xs (message n headers payload) h e fits later =
      IsOver-later n xs
        (read_rounds J codecs r (read_message J codecs c headers payload) (drop n xs)) fits.1
        (later (read_message J codecs c headers payload) (drop n xs)
          (omega (arith, length-drop n xs)))

  read_rounds-IsOver :
      (r : ℕ) (c : EventStreamCursor J.Value) (xs : Bytes)
      → length xs < r
      → IsOver xs (read_rounds J codecs r c xs)
  read_rounds-IsOver zero c xs h = absurd (omega arith)
  read_rounds-IsOver (suc r) c xs h = elim (Bool-cases (is_open c.progress)) [
    | inl o ↦ subst (IsOver xs) (sym (round r c xs (next_message codecs.crc32 xs) o refl)) (
        IsOver-after r c xs (next_message codecs.crc32 xs) h refl
          (next_message-Fits codecs.crc32 xs) (read_rounds-IsOver r))
    | inr o ↦
        subst (IsOver xs) (sym (shut (suc r) c xs o)) (IsOver-here c xs (λ open_now. absurd cc))
  ]

  -- The loop over whole messages stops only where the source's loop does, never for want of
  -- rounds: what it leaves unread is the end of the bytes given, and either the cursor is shut or
  -- that rest starts with a message that is not whole yet.
  pub read_messages-IsOver :
      (c : EventStreamCursor J.Value) (xs : Bytes) → IsOver xs (read_messages J codecs c xs)
  unfolding read_messages
  read_messages-IsOver c xs = read_rounds-IsOver (length xs + 1) c xs (omega arith)

  -- Reading goes on with the bytes left and those that follow.
  abbrev pub resumed : Out → Bytes → Out
  resumed (c, rest) ys =
      if is_open c.progress then read_messages J codecs c (rest ++ ys) else (c, rest ++ ys)

  pub resumed_open :
      (c : EventStreamCursor J.Value) (rest ys : Bytes)
      → is_open c.progress ≡ true
      → resumed (c, rest) ys ≡ read_messages J codecs c (rest ++ ys)
  resumed_open c rest ys o = rw o refl

  pub resumed_shut :
      (c : EventStreamCursor J.Value) (rest ys : Bytes)
      → is_open c.progress ≡ false
      → resumed (c, rest) ys ≡ (c, rest ++ ys)
  resumed_shut c rest ys o = rw o refl

  -- One frame of the first part, with the second part behind it.
  resumed_frame :
      (r r' : ℕ) (c : EventStreamCursor J.Value) (xs ys : Bytes) (f : Frame)
      → is_open c.progress ≡ true
      → length xs < suc r
      → length (xs ++ ys) < suc r'
      → next_message codecs.crc32 xs ≡ f
      → Fits xs f
      → ((c' : EventStreamCursor J.Value) (zs : Bytes)
          → length zs < r
          → length (zs ++ ys) < r'
          → read_rounds J codecs r' c' (zs ++ ys) ≡ resumed (read_rounds J codecs r c' zs) ys)
      → read_rounds J codecs (suc r') c (xs ++ ys)
        ≡ resumed (after_frame J codecs f c xs (read_rounds J codecs r)) ys
  unfolding read_messages
  resumed_frame r r' c xs ys partial_frame o h h' e fits same =
      read_rounds-enough (suc r') (length (xs ++ ys) + 1) c (xs ++ ys) h' (omega arith)
      ∙ sym (resumed_open c xs ys o)
  resumed_frame r r' c xs ys broken_frame o h h' e fits same =
      round r' c (xs ++ ys) broken_frame o
        (next_message-append codecs.crc32 xs ys (ap is_partial e) ∙ e)
  resumed_frame r r' c xs ys (message n headers payload) o h h' e fits same =
      round r' c (xs ++ ys) (message n headers payload) o
        (next_message-append codecs.crc32 xs ys (ap is_partial e) ∙ e)
      ∙ (ap (λ (zs : Bytes). read_rounds J codecs r' (read_message J codecs c headers payload) zs)
            (drop-append_le n xs ys fits.1)
          ∙ same (read_message J codecs c headers payload) (drop n xs)
              (omega (arith, length-drop n xs))
              (omega (arith, length-drop n xs, length-append (drop n xs) ys, length-append xs ys)))

  read_rounds-append :
      (r r' : ℕ) (c : EventStreamCursor J.Value) (xs ys : Bytes)
      → length xs < r
      → length (xs ++ ys) < r'
      → read_rounds J codecs r' c (xs ++ ys) ≡ resumed (read_rounds J codecs r c xs) ys
  read_rounds-append zero r' c xs ys h h' = absurd (omega arith)
  read_rounds-append (suc r) zero c xs ys h h' = absurd (omega arith)
  read_rounds-append (suc r) (suc r') c xs ys h h' = elim (Bool-cases (is_open c.progress)) [
    | inl o ↦
        resumed_frame r r' c xs ys (next_message codecs.crc32 xs) o h h' refl
          (next_message-Fits codecs.crc32 xs) (λ c' zs. read_rounds-append r r' c' zs ys)
        ∙ sym (
            ap (λ (out : Out). resumed out ys) (round r c xs (next_message codecs.crc32 xs) o refl))
    | inr o ↦
        shut (suc r') c (xs ++ ys) o
        ∙ sym (ap (λ (out : Out). resumed out ys) (shut (suc r) c xs o) ∙ resumed_shut c xs ys o)
  ]

  pub read_messages-append :
      (c : EventStreamCursor J.Value) (xs ys : Bytes)
      → read_messages J codecs c (xs ++ ys) ≡ resumed (read_messages J codecs c xs) ys
  unfolding read_messages
  read_messages-append c xs ys =
      read_rounds-append (length xs + 1) (length (xs ++ ys) + 1) c xs ys (omega arith) (omega arith)
