-- ===== src/Hpack/Table/Fit.antt =====
-- Eviction keeps the longest run of newest entries that fits.
use honeybeepf_llm.Prelude.{
  ℕ, zero, suc, ◌+◌, ◌-◌, ◌≤◌, ◌<◌, ◌≡◌, refl, ap, ◌∙◌, true, false, ◌||◌, some, List, [], ◌∷◌,
  ◌++◌, length, ltb, leb, if◌then◌else◌, Bool-cases, ◌⊎◌, inl, inr, arith, min, length-append,
}
use honeybeepf_llm.Hpack.Types.{Entry, Decoder, max_table_size}
use honeybeepf_llm.Hpack.Table.{
  entry_size, pop_back, drop_oldest, evict_over_size, evict_over_cap, evict,
}

unfoldable pub total : List Entry → ℕ
total [] = 0
total (e ∷ es) = entry_size e + total es

-- The newest entries, as many as there is room for.
unfoldable pub fit : ℕ → List Entry → List Entry
fit room [] = []
fit room (e ∷ es) = if leb (entry_size e) room then e ∷ fit (room - entry_size e) es else []

pub fit_all : (m : ℕ) (es : List Entry) → total es ≤ m → fit m es ≡ es
unfolding fit total
fit_all m [] h = refl
fit_all m (e ∷ es) h = ground (arith, fit_all (m - entry_size e) es)

pub total-fit_le : (m : ℕ) (es : List Entry) → total (fit m es) ≤ m
unfolding fit total
total-fit_le m [] = omega arith
total-fit_le m (e ∷ es) = ground (arith, total-fit_le (m - entry_size e) es)

pub pop_back-snoc {ℓ} :
    {A : Type ℓ} (front : List A) (last : A) → pop_back (front ++ last ∷ []) ≡ some (front, last)
unfolding pop_back
pop_back-snoc [] last = refl
pop_back-snoc (x ∷ xs) last = rw (pop_back-snoc xs last)

-- Every list is empty, or a front and a last element.
pub snoc-cases {ℓ} :
    {A : Type ℓ} (xs : List A)
    → (xs ≡ []) ⊎ ((front : List A) × (last : A) × (xs ≡ front ++ last ∷ []))
snoc-cases [] = inl refl
snoc-cases (x ∷ xs) = elim (snoc-cases xs) [
  | inl e ↦ inr ([], x, ap (◌∷◌ x) e)
  | inr (front, last, e) ↦ inr (x ∷ front, last, ap (◌∷◌ x) e)
]

pub total-snoc :
    (front : List Entry) (last : Entry) → total (front ++ last ∷ []) ≡ total front + entry_size last
unfolding total
total-snoc [] last = omega arith
total-snoc (x ∷ xs) last = omega (arith, total-snoc xs last)

pub length-snoc {ℓ} :
    {A : Type ℓ} (front : List A) (last : A) → length (front ++ last ∷ []) ≡ length front + 1
length-snoc front last = length-append front (last ∷ [])

-- An entry dropped from a table that is too full was not going to be kept.
fit-snoc :
    (m : ℕ) (front : List Entry) (last : Entry)
    → m < total (front ++ last ∷ [])
    → fit m (front ++ last ∷ []) ≡ fit m front
unfolding total fit
fit-snoc m [] last h = ground arith
fit-snoc m (x ∷ xs) last h = ground (arith, fit-snoc (m - entry_size x) xs last)

-- One round of either loop, on a table whose size is right.
drop_oldest-snoc :
    (d : Decoder) (front : List Entry) (last : Entry)
    → d.entries ≡ front ++ last ∷ []
    → d.size ≡ total d.entries
    → drop_oldest d ≡ record d { entries = front; size = total front }
unfolding drop_oldest
drop_oldest-snoc d front last e h =
    rw (e, pop_back-snoc front last) (ground (arith, total-snoc front last))

abbrev pub sized : Decoder → List Entry → Decoder
sized d es = record d { entries = es; size = total es }

sized_self : (d : Decoder) → d.size ≡ total d.entries → d ≡ sized d d.entries
sized_self d h = ground arith

total-nil : (es : List Entry) → es ≡ [] → total es ≡ 0
unfolding total
total-nil es e = rw e refl

evict_over_size-fit :
    (rounds : ℕ) (d : Decoder)
    → d.size ≡ total d.entries
    → length d.entries ≤ rounds
    → evict_over_size rounds d ≡ sized d (fit d.max_size d.entries)
unfolding evict_over_size
evict_over_size-fit zero d h n = elim (snoc-cases d.entries) [
  | inl e ↦ sized_self d h ∙ ap (sized d) (rw e (unfold fit in refl))
  | inr (front, last, e) ↦ absurd (omega (arith, ap length e, length-snoc front last))
]
evict_over_size-fit (suc rounds) d h n = elim (snoc-cases d.entries) [
  | inl e ↦ ground (arith, total-nil d.entries e, fit_all d.max_size d.entries, sized_self d h)
  | inr (front, last, e) ↦ elim (Bool-cases (ltb d.max_size d.size)) [
    | inl over ↦
        rw (over, drop_oldest-snoc d front last e h)
          (evict_over_size-fit rounds (sized d front) refl
              (omega (arith, ap length e, length-snoc front last))
            ∙ ap (sized d)
                (ground (arith, ap total e, ap (fit d.max_size) e, fit-snoc d.max_size front last)))
    | inr fits ↦
        rw fits (sized_self d h ∙ ap (sized d) (ground (arith, fit_all d.max_size d.entries)))
  ]
]

-- The second loop drops entries only to hold less memory than the encoder, and then says so.
abbrev capped : Decoder → List Entry → Decoder
capped d es = record d {
  entries = es;
  size = total es;
  forgotten = d.forgotten || ltb max_table_size d.size;
}

capped_self :
    (d : Decoder)
    → d.size ≡ total d.entries
    → ltb max_table_size d.size ≡ false
    → d ≡ capped d d.entries
capped_self d h e = ground arith

evict_over_cap-fit :
    (rounds : ℕ) (d : Decoder)
    → d.size ≡ total d.entries
    → length d.entries ≤ rounds
    → evict_over_cap rounds d ≡ capped d (fit max_table_size d.entries)
unfolding evict_over_cap
evict_over_cap-fit zero d h n = elim (snoc-cases d.entries) [
  | inl e ↦
      capped_self d h (ground (arith, total-nil d.entries e))
      ∙ ap (capped d) (rw e (unfold fit in refl))
  | inr (front, last, e) ↦ absurd (omega (arith, ap length e, length-snoc front last))
]
evict_over_cap-fit (suc rounds) d h n = elim (snoc-cases d.entries) [
  | inl e ↦ ground (arith, total-nil d.entries e, fit_all max_table_size d.entries, capped_self d h)
  | inr (front, last, e) ↦ elim (Bool-cases (ltb max_table_size d.size)) [
    | inl over ↦
        rw (over, drop_oldest-snoc d front last e h)
          (evict_over_cap-fit rounds (record (sized d front) { forgotten = true }) refl
              (omega (arith, ap length e, length-snoc front last))
            ∙ ground
                (arith, ap total e, ap (fit max_table_size) e, fit-snoc max_table_size front last))
    | inr fits ↦ ground (arith, capped_self d h fits, fit_all max_table_size d.entries)
  ]
]

pub fit-fit : (a b : ℕ) (es : List Entry) → fit a (fit b es) ≡ fit (min b a) es
unfolding fit
fit-fit a b [] = refl
fit-fit a b (e ∷ es) =
    let s = entry_size e in
    let rooms : fit (min b a - s) es ≡ fit (min (b - s) (a - s)) es =
      ap (λ m. fit m es) (omega arith) in
    ground (arith, fit-fit (a - s) (b - s) es, rooms)

-- On a table whose size is counted right, eviction keeps exactly the longest run of newest entries
-- that fits both the table's maximum and the memory cap, counts its size right, and marks the
-- table forgotten if it was so before or if the cap dropped an entry.
pub evict-fit :
    (d : Decoder)
    → d.size ≡ total d.entries
    → evict d ≡ record d {
      entries = fit (min d.max_size max_table_size) d.entries;
      size = total (fit (min d.max_size max_table_size) d.entries);
      forgotten = d.forgotten || ltb max_table_size (total (fit d.max_size d.entries));
    }
unfolding evict
evict-fit d h = rw (
  evict_over_size-fit (length d.entries) d h (omega arith),
  evict_over_cap-fit (length (fit d.max_size d.entries)) (sized d (fit d.max_size d.entries)) refl
      (omega arith),
  fit-fit,
)
