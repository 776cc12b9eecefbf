-- ===== src/EventStream/Append.antt =====
-- A message at the start of a buffer is the same with more bytes behind it.
use honeybeepf_llm.Prelude.{
  ℕ, zero, suc, ◌+◌, ◌-◌, ◌≤◌, ◌<◌, ◌≡◌, refl, ap, Bool, true, false, not, [], ◌∷◌, ◌++◌, Bytes,
  length, take, drop, get_or, length-append, ltb, ltb→ge, ge→ltb, if◌then◌else◌, arith,
}
use honeybeepf_llm.EventStream.Message.{
  Frame, partial_frame, broken_frame, message, word, prelude_len, crc_len, checked_message,
  prelude_ok, next_message,
}

pub take-append_le : (n : ℕ) (xs ys : Bytes) → n ≤ length xs → take n (xs ++ ys) ≡ take n xs
take-append_le zero xs ys h = refl
take-append_le (suc n) [] ys h = absurd (omega arith)
take-append_le (suc n) (x ∷ xs) ys h = ap (◌∷◌ x) (take-append_le n xs ys (omega arith))

pub drop-append_le : (n : ℕ) (xs ys : Bytes) → n ≤ length xs → drop n (xs ++ ys) ≡ drop n xs ++ ys
drop-append_le zero xs ys h = refl
drop-append_le (suc n) [] ys h = absurd (omega arith)
drop-append_le (suc n) (x ∷ xs) ys h = drop-append_le n xs ys (omega arith)

get_or-append : (i : ℕ) (xs ys : Bytes) → i < length xs → get_or (xs ++ ys) i 0 ≡ get_or xs i 0
get_or-append i [] ys h = absurd (omega arith)
get_or-append zero (x ∷ xs) ys h = refl
get_or-append (suc i) (x ∷ xs) ys h = get_or-append i xs ys (omega arith)

word-append : (xs ys : Bytes) (at : ℕ) → at + 3 < length xs → word (xs ++ ys) at ≡ word xs at
unfolding word
word-append xs ys at h =
    rw
      (
        get_or-append at xs ys (omega arith),
        get_or-append (at + 1) xs ys (omega arith),
        get_or-append (at + 2) xs ys (omega arith),
        get_or-append (at + 3) xs ys (omega arith),
      )
      refl

abbrev pub is_partial : Frame → Bool
is_partial partial_frame = true
is_partial broken_frame = false
is_partial (message n headers payload) = false

abbrev chosen : Bool → Bool → Bool → Frame → Frame
chosen short ok waits f =
    if short
    then partial_frame
    else if not ok
    then broken_frame
    else if waits
    then partial_frame
    else f

chosen_same :
    (s s' o o' w w' : Bool) (f f' : Frame)
    → is_partial (chosen s o w f) ≡ false
    → (s ≡ false → s' ≡ false)
    → (s ≡ false → o' ≡ o)
    → (s ≡ false → o ≡ true → w ≡ false → (w' ≡ false) × (f' ≡ f))
    → chosen s' o' w' f' ≡ chosen s o w f
chosen_same true s' o o' w w' f f' h a b c = cc
chosen_same false s' false o' w w' f f' h a b c = rw (a refl, b refl) refl
chosen_same false s' true o' true w' f f' h a b c = cc
chosen_same false s' true o' false w' f f' h a b c =
    let last = c refl refl refl in rw (a refl, b refl, last.0, last.1) refl

module _ (crc32 : Bytes → ℕ) where
  prelude_ok-append :
      (xs ys : Bytes) → prelude_len ≤ length xs → prelude_ok crc32 (xs ++ ys) ≡ prelude_ok crc32 xs
  unfolding prelude_ok
  prelude_ok-append xs ys h =
      rw
        (
          take-append_le 8 xs ys (omega arith),
          word-append xs ys 0 (omega arith),
          word-append xs ys 4 (omega arith),
          word-append xs ys 8 (omega arith),
        )
        refl

  checked_message-append :
      (xs ys : Bytes) (total headers_len : ℕ)
      → crc_len ≤ total
      → total ≤ length xs
      → checked_message crc32 (xs ++ ys) total headers_len
        ≡ checked_message crc32 xs total headers_len
  unfolding checked_message
  checked_message-append xs ys total headers_len h le =
      rw
        (
          take-append_le (total - crc_len) xs ys (omega arith),
          word-append xs ys (total - crc_len) (omega arith),
        )
        refl

  -- What the prelude's checks guarantee of a message's length.
  pub total_ge : (xs : Bytes) → prelude_ok crc32 xs ≡ true → 16 ≤ word xs 0
  unfolding prelude_ok
  total_ge xs h = ground arith

  pub next_message-append :
      (xs ys : Bytes)
      → is_partial (next_message crc32 xs) ≡ false
      → next_message crc32 (xs ++ ys) ≡ next_message crc32 xs
  unfolding next_message
  next_message-append xs ys h =
      chosen_same (ltb (length xs) prelude_len) (ltb (length (xs ++ ys)) prelude_len)
        (prelude_ok crc32 xs) (prelude_ok crc32 (xs ++ ys)) (ltb (length xs) (word xs 0))
        (ltb (length (xs ++ ys)) (word (xs ++ ys) 0))
        (checked_message crc32 xs (word xs 0) (word xs 4))
        (checked_message crc32 (xs ++ ys) (word (xs ++ ys) 0) (word (xs ++ ys) 4)) h
        (λ long.
          ge→ltb (length (xs ++ ys)) prelude_len
            (omega (arith, length-append xs ys, ltb→ge _ _ long)))
        (λ long. prelude_ok-append xs ys (ltb→ge _ _ long))
        (λ long ok whole.
          let long' = ltb→ge (length xs) prelude_len long in
          let whole' = ltb→ge (length xs) (word xs 0) whole in
          rw (word-append xs ys 0 (omega arith), word-append xs ys 4 (omega arith))
            (
              ge→ltb (length (xs ++ ys)) (word xs 0) (omega (arith, length-append xs ys)),
              checked_message-append xs ys (word xs 0) (word xs 4) (omega (arith, total_ge xs ok))
                  whole',
            ))
