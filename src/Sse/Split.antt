-- ===== src/Sse/Split.antt =====
-- A stream fed in any reads is the stream fed byte by byte.
use honeybeepf_llm.Prelude.{
  suc, ==→eq, length, ltb, bytes_eq, not, ◌&&◌, ◌||◌, ℕ, ◌+◌, Bool, true, false, Bool-cases, ◌≡◌,
  refl, ap, sym, ◌∙◌, ◌⊎◌, inl, inr, Option, none, some, List, [], ◌∷◌, ◌++◌, append-nil,
  append_assoc, Bytes, take, drop, ◌==◌, if◌then◌else◌, arith,
}
use native.Mathlib.Numerals.{add-one}
use honeybeepf_llm.Text.{from_utf8_lossy, lines, trim}
use honeybeepf_llm.Text.Lines.{from_utf8_lossy-append_newline, lines-append_newline}
use honeybeepf_llm.ByteUtils.Search.{starts_with}
use honeybeepf_llm.Json.{Json}
use honeybeepf_llm.Sse.{
  SseCursor, last_newline, read_line, read_each, read_lines, read_complete, hold, feed, feed_at,
  read_end, push_fallback, merged, read_fallback, read_usage, read_data, done_line, any_marker,
  sse_end_markers, max_fallback_blocks, fallback_block, is_usage_event, data_prefix,
}

Option-cases {ℓ} : {A : Type ℓ} (o : Option A) → (o ≡ none) ⊎ ((x : A) × (o ≡ some x))
Option-cases none = inl refl
Option-cases (some x) = inr (x, refl)

newline_in :
    (bytes : Bytes) → (last_newline bytes ≡ none) ⊎ ((last : ℕ) × (last_newline bytes ≡ some last))
newline_in bytes = Option-cases (last_newline bytes)

module _ (J : Json) where
  abbrev cleared : SseCursor J.Value → SseCursor J.Value
  cleared c = record c { partial = [] }

  read_each-append :
      (c : SseCursor J.Value) (xs ys : List Bytes)
      → read_each J c (xs ++ ys) ≡ read_each J (read_each J c xs) ys
  unfolding read_each
  read_each-append c [] ys = refl
  read_each-append c (x ∷ xs) ys = read_each-append (read_line J c x) xs ys

  lossy_newline : from_utf8_lossy [] ≡ []
  unfolding from_utf8_lossy
  lossy_newline = refl

  -- Bytes up to a newline are read before the rest.
  read_lines-append :
      (c : SseCursor J.Value) (a b : Bytes)
      → read_lines J c (a ++ 10 ∷ b) ≡ read_lines J (read_lines J c (a ++ 10 ∷ [])) b
  unfolding read_lines
  read_lines-append c a b =
      rw (from_utf8_lossy-append_newline a b, from_utf8_lossy-append_newline a [], lossy_newline)
        (rw (lines-append_newline (from_utf8_lossy a) (from_utf8_lossy b))
          (read_each-append c (lines (from_utf8_lossy a ++ 10 ∷ [])) (lines (from_utf8_lossy b))))

  if_partial :
      (test : Bool) (x y : SseCursor J.Value) (held : Bytes)
      → x.partial ≡ held
      → y.partial ≡ held
      → (if test then x else y).partial ≡ held
  if_partial true x y held h k = h
  if_partial false x y held h k = k

  read_end_partial :
      (c : SseCursor J.Value) (line : Bytes) → (read_end J c line).partial ≡ c.partial
  read_end_partial c line =
      if_partial (bytes_eq line done_line) (record c { ended = true; done = true })
        (if not c.ended && any_marker sse_end_markers line then record c { ended = true } else c)
        c.partial refl
        (if_partial (not c.ended && any_marker sse_end_markers line) (record c { ended = true }) c
          c.partial refl refl)

  push_fallback_partial :
      (c : SseCursor J.Value) (block : Option J.Value)
      → (push_fallback J c block).partial ≡ c.partial
  push_fallback_partial c none = refl
  push_fallback_partial c (some block) = refl

  merged_partial :
      (c : SseCursor J.Value) (val : Option J.Value) → (merged J c val).partial ≡ c.partial
  merged_partial c none = refl
  merged_partial c (some val) = refl

  read_fallback_partial :
      (c : SseCursor J.Value) (text : Bytes) → (read_fallback J c text).partial ≡ c.partial
  read_fallback_partial c text =
      if_partial (ltb (length c.fallbacks) max_fallback_blocks)
        (push_fallback J c (fallback_block J text)) c c.partial
        (push_fallback_partial c (fallback_block J text)) refl

  read_usage_partial :
      (c : SseCursor J.Value) (text : Bytes) → (read_usage J c text).partial ≡ c.partial
  read_usage_partial c text =
      if_partial (is_usage_event J text) (merged J c (J.from_str text)) c c.partial
        (merged_partial c (J.from_str text)) refl

  read_data_partial :
      (c : SseCursor J.Value) (line : Bytes) → (read_data J c line).partial ≡ c.partial
  read_data_partial c line =
      let text = drop (length data_prefix) line in
      if_partial (c.done || not (starts_with line data_prefix)) c
        (read_usage J (read_fallback J c text) text) c.partial refl
        (read_usage_partial (read_fallback J c text) text ∙ read_fallback_partial c text)

  read_line_partial :
      (c : SseCursor J.Value) (line : Bytes) → (read_line J c line).partial ≡ c.partial
  unfolding read_line
  read_line_partial c line =
      read_data_partial (read_end J c (trim line)) (trim line) ∙ read_end_partial c (trim line)

  read_each_partial :
      (c : SseCursor J.Value) (xs : List Bytes) → (read_each J c xs).partial ≡ c.partial
  unfolding read_each
  read_each_partial c [] = refl
  read_each_partial c (x ∷ xs) = read_each_partial (read_line J c x) xs ∙ read_line_partial c x

  read_lines_partial :
      (c : SseCursor J.Value) (bytes : Bytes) → (read_lines J c bytes).partial ≡ c.partial
  unfolding read_lines
  read_lines_partial c bytes = read_each_partial c (lines (from_utf8_lossy bytes))

  -- What one byte comes to: a newline completes the line held, another byte is held.
  unfoldable pub each_byte : SseCursor J.Value → ℕ → SseCursor J.Value
  each_byte c b =
      if b == 10
      then record (read_lines J (cleared c) (c.partial ++ 10 ∷ [])) { partial = [] }
      else hold J c (b ∷ [])

  unfoldable pub feed_bytes : SseCursor J.Value → Bytes → SseCursor J.Value
  unfolding each_byte
  feed_bytes c [] = c
  feed_bytes c (b ∷ bs) = feed_bytes (each_byte c b) bs

  cleared_empty : (c : SseCursor J.Value) → c.partial ≡ [] → c ≡ cleared c
  cleared_empty c e =
      ap (λ (p : Bytes). let d : SseCursor J.Value = record c { partial = p } in d) e

  set_partial : (c : SseCursor J.Value) (p : Bytes) → c.partial ≡ p → c ≡ record c { partial = p }
  set_partial c p e =
      ap (λ (p : Bytes). let d : SseCursor J.Value = record c { partial = p } in d) e

  read_complete-cleared :
      (p : Bytes) (c : SseCursor J.Value) (complete : Bytes)
      → c.partial ≡ p
      → read_complete J p c complete ≡ read_lines J (cleared c) (p ++ complete)
  read_complete-cleared [] c complete e =
      ap (λ (d : SseCursor J.Value). read_lines J d complete) (cleared_empty c e)
  read_complete-cleared (b ∷ bs) c complete e = sym (
      set_partial (read_lines J (cleared c) ((b ∷ bs) ++ complete)) []
        (read_lines_partial (cleared c) ((b ∷ bs) ++ complete)))

  feed_newline :
      (c : SseCursor J.Value) (bytes : Bytes) (last : ℕ)
      → last_newline bytes ≡ some last
      → feed J c bytes ≡ record (read_lines J (cleared c) (c.partial ++ take (suc last) bytes)) {
        partial = drop (suc last) bytes;
      }
  unfolding feed
  feed_newline c bytes last e =
      ap (feed_at J c bytes) e
      ∙ (ap (λ (d : SseCursor J.Value). hold J d (drop (suc last) bytes))
            (read_complete-cleared c.partial c (take (suc last) bytes) refl)
          ∙ ap
              (λ (p : Bytes).
                let d : SseCursor J.Value =
                  record (read_lines J (cleared c) (c.partial ++ take (suc last) bytes)) {
                    partial = p ++ drop (suc last) bytes;
                  } in
                d)
              (read_lines_partial (cleared c) (c.partial ++ take (suc last) bytes)))

  feed_held :
      (c : SseCursor J.Value) (bytes : Bytes)
      → last_newline bytes ≡ none
      → feed J c bytes ≡ hold J c bytes
  unfolding feed
  feed_held c bytes e = ap (feed_at J c bytes) e

  -- What a byte in front of the last newline moves it to.
  last_newline_later :
      (b : ℕ) (bs : Bytes) (last : ℕ)
      → last_newline bs ≡ some last
      → last_newline (b ∷ bs) ≡ some (last + 1)
  unfolding last_newline
  last_newline_later b bs last e = ground arith

  last_newline_first :
      (b : ℕ) (bs : Bytes)
      → last_newline bs ≡ none
      → (b == 10) ≡ true
      → last_newline (b ∷ bs) ≡ some 0
  unfolding last_newline
  last_newline_first b bs e h = ground arith

  last_newline-none :
      (b : ℕ) (bs : Bytes)
      → last_newline bs ≡ none
      → (b == 10) ≡ false
      → last_newline (b ∷ bs) ≡ none
  unfolding last_newline
  last_newline-none b bs e h = ground arith

  each_newline :
      (c : SseCursor J.Value) (b : ℕ)
      → (b == 10) ≡ true
      → each_byte c b ≡ record (read_lines J (cleared c) (c.partial ++ b ∷ [])) { partial = [] }
  unfolding each_byte
  each_newline c b h = rw h (rw (==→eq b 10 h) refl)

  each_other :
      (c : SseCursor J.Value) (b : ℕ) → (b == 10) ≡ false → each_byte c b ≡ hold J c (b ∷ [])
  unfolding each_byte
  each_other c b h = rw h refl

  feed-none :
      (c : SseCursor J.Value) (b : ℕ) (bs : Bytes)
      → last_newline bs ≡ none
      → feed J c (b ∷ bs) ≡ feed J (each_byte c b) bs
  feed-none c b bs e = elim (Bool-cases (b == 10)) [
    | inl h ↦
        rw
          (
            feed_newline c (b ∷ bs) 0 (last_newline_first b bs e h),
            each_newline c b h,
            feed_held (record (read_lines J (cleared c) (c.partial ++ b ∷ [])) { partial = [] }) bs
                e,
          )
          refl
    | inr h ↦
        rw
          (
            feed_held c (b ∷ bs) (last_newline-none b bs e h),
            each_other c b h,
            feed_held (hold J c (b ∷ [])) bs e,
          )
          (ap (λ (p : Bytes). let d : SseCursor J.Value = record c { partial = p } in d)
            (sym (append_assoc c.partial (b ∷ []) bs)))
  ]

  abbrev fed : SseCursor J.Value → Bytes → Bytes → SseCursor J.Value
  fed c complete rest = record (read_lines J c complete) { partial = rest }

  newline_before :
      (c : SseCursor J.Value) (held t : Bytes) (b : ℕ)
      → c.partial ≡ []
      → b ≡ 10
      → read_lines J c (held ++ b ∷ t)
        ≡ read_lines J (record (read_lines J c (held ++ b ∷ [])) { partial = [] }) t
  newline_before c held t b e h = rw h (
      read_lines-append c held t
      ∙ ap (λ (d : SseCursor J.Value). read_lines J d t)
          (set_partial (read_lines J c (held ++ 10 ∷ [])) []
            (read_lines_partial c (held ++ 10 ∷ []) ∙ e)))

  feed-some :
      (c : SseCursor J.Value) (b : ℕ) (bs : Bytes) (last : ℕ)
      → last_newline bs ≡ some last
      → feed J c (b ∷ bs) ≡ feed J (each_byte c b) bs
  feed-some c b bs last e =
      feed_newline c (b ∷ bs) (last + 1) (last_newline_later b bs last e)
      ∙ rw add-one (elim (Bool-cases (b == 10)) [
        | inl h ↦
            ap
              (λ (d : SseCursor J.Value).
                let d' : SseCursor J.Value = record d { partial = drop (suc last) bs } in d')
              (newline_before (cleared c) c.partial (take (suc last) bs) b refl (==→eq b 10 h))
            ∙ sym (
                ap (λ (d : SseCursor J.Value). feed J d bs) (each_newline c b h)
                ∙ feed_newline
                    (record (read_lines J (cleared c) (c.partial ++ b ∷ [])) { partial = [] }) bs
                    last e)
        | inr h ↦
            ap (λ (p : Bytes). fed (cleared c) p (drop (suc last) bs))
              (sym (append_assoc c.partial (b ∷ []) (take (suc last) bs)))
            ∙ sym (
                ap (λ (d : SseCursor J.Value). feed J d bs) (each_other c b h)
                ∙ feed_newline (hold J c (b ∷ [])) bs last e)
      ])

  feed_nothing : (c : SseCursor J.Value) → feed J c [] ≡ c
  unfolding feed
  feed_nothing c = sym (set_partial c (c.partial ++ []) (sym (append-nil c.partial)))

  -- Feeding a server-sent event stream a read leaves the cursor that feeding its bytes one at a
  -- time leaves, where a byte that is no newline is held and a newline reads the line that it
  -- ends.
  pub feed-feed_bytes :
      (c : SseCursor J.Value) (bytes : Bytes) → feed J c bytes ≡ feed_bytes c bytes
  unfolding feed_bytes
  feed-feed_bytes c [] = feed_nothing c
  feed-feed_bytes c (b ∷ bs) = elim (newline_in bs) [
    | inl e ↦ feed-none c b bs e ∙ feed-feed_bytes (each_byte c b) bs
    | inr (last, e) ↦ feed-some c b bs last e ∙ feed-feed_bytes (each_byte c b) bs
  ]
