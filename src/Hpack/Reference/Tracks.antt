-- ===== src/Hpack/Reference/Tracks.antt =====
-- When a decoder's table keeps in step with the encoder's, and that table operations keep it so.
use honeybeepf_llm.Prelude.{
  ℕ, ◌+◌, ◌-◌, ◌≤◌, ◌<◌, ◌≡◌, refl, sym, ap, ◌∙◌, ◌⊎◌, inl, inr, Bool, true, false, ◌||◌, none,
  some, List, [], ◌∷◌, length, ltb, leb, if◌then◌else◌, Bool-cases, arith, min, ltb→lt, ltb→ge,
  ==→eq, ◌==◌,
}
use mathlib.Core.Path.{subst}
use honeybeepf_llm.Hpack.Types.{Entry, Decoder, max_table_size}
use honeybeepf_llm.Hpack.Table.{entry_size, evict, set_limit, forget, empty, insert}
use honeybeepf_llm.Hpack.Table.Fit.{total, fit, evict-fit, fit_all, fit-fit}
use honeybeepf_llm.Hpack.Table.Invariant.{IsValid, evict-IsValid, empty-IsValid, forget-IsValid}
use honeybeepf_llm.Hpack.Decode
use honeybeepf_llm.Hpack.Reference.{
  Header, Table, header_size, keep_fitting, add, resize, change_limit,
}

-- The entry has the header's value, and its name unless that was lost.
pub record Matches (e : Entry) (h : Header) : Type 0 where
  pub value_eq : e.value ≡ h.1
  pub name_eq : (e.name ≡ none) ⊎ (e.name ≡ some h.0)

-- Entries at the same index match, as far as both tables go.
abbrev pub Agree : List Entry → List Header → Type 0
Agree [] hs = Unit
Agree (e ∷ es) [] = Unit
Agree (e ∷ es) (h ∷ hs) = Matches e h × Agree es hs

pub record Tracks (d : Decoder) (t : Table) : Type 0 where
  pub valid : IsValid d
  pub agree : Agree d.entries t.entries
  pub same_limit : d.limit ≡ t.limit
  pub max_le : t.max_size ≤ d.max_size
  pub max_le_limit : t.max_size ≤ t.limit
  pub whole : d.forgotten ≡ false → length t.entries ≤ length d.entries

Agree-nil : (es : List Entry) → Agree es []
Agree-nil [] = tt
Agree-nil (e ∷ es) = tt

-- A lost name only makes an entry look smaller.
size_le : (e : Entry) (h : Header) → Matches e h → entry_size e ≤ header_size h
size_le e h m = ground (arith, ap length m.value_eq)

Agree-kept :
    (kept kept' : Bool) (e : Entry) (h : Header) (es : List Entry) (hs : List Header)
    → Matches e h
    → Agree es hs
    → Agree (if kept then e ∷ es else []) (if kept' then h ∷ hs else [])
Agree-kept true true e h es hs m g = (m, g)
Agree-kept true false e h es hs m g = tt
Agree-kept false kept' e h es hs m g = tt

Agree-fit :
    (a b : ℕ) (es : List Entry) (hs : List Header)
    → Agree es hs
    → Agree (fit a es) (keep_fitting b hs)
unfolding fit keep_fitting
Agree-fit a b [] hs g = tt
Agree-fit a b (e ∷ es) [] g = Agree-nil _
Agree-fit a b (e ∷ es) (h ∷ hs) g =
    Agree-kept (leb (entry_size e) a) (leb (header_size h) b) e h _ _ g.0
      (Agree-fit (a - entry_size e) (b - header_size h) es hs g.1)

length-fit :
    (a b : ℕ) (es : List Entry) (hs : List Header)
    → Agree es hs
    → b ≤ a
    → length hs ≤ length es
    → length (keep_fitting b hs) ≤ length (fit a es)
unfolding fit keep_fitting
length-fit a b [] [] g h n = omega arith
length-fit a b [] (x ∷ hs) g h n = absurd (omega arith)
length-fit a b (e ∷ es) [] g h n = omega arith
length-fit a b (e ∷ es) (x ∷ hs) g h n =
    ground (arith, size_le e x g.0, length-fit (a - entry_size e) (b - header_size x) es hs g.1)

-- What holds between the tables before both evict.
record Loaded (d : Decoder) (t : Table) : Type 0 where
  counted : d.size ≡ total d.entries
  limited : d.max_size ≤ d.limit
  agree : Agree d.entries t.entries
  same_limit : d.limit ≡ t.limit
  max_le : t.max_size ≤ d.max_size
  max_le_limit : t.max_size ≤ t.limit
  whole : d.forgotten ≡ false → length t.entries ≤ length d.entries

||-left : (a b : Bool) → (a || b) ≡ false → a ≡ false
||-left a b h = ground arith

||-right : (a b : Bool) → (a || b) ≡ false → b ≡ false
||-right a b h = ground arith

uncapped_fit :
    (m : ℕ) (es : List Entry)
    → ltb max_table_size (total (fit m es)) ≡ false
    → fit (min m max_table_size) es ≡ fit m es
uncapped_fit m es h =
    sym (fit-fit max_table_size m es) ∙ fit_all max_table_size (fit m es) (ltb→ge _ _ h)

evict-Tracks :
    (d : Decoder) (t : Table)
    → Loaded d t
    → Tracks (evict d) (record t { entries = keep_fitting t.max_size t.entries })
evict-Tracks d t l = record {
  valid = evict-IsValid d l.counted l.limited;
  agree = rw (evict-fit d l.counted) (Agree-fit _ _ d.entries t.entries l.agree);
  same_limit = rw (evict-fit d l.counted) l.same_limit;
  max_le = rw (evict-fit d l.counted) l.max_le;
  max_le_limit = l.max_le_limit;
  whole = rw (evict-fit d l.counted) (λ e.
      rw (uncapped_fit d.max_size d.entries (||-right d.forgotten _ e)) (
        length-fit d.max_size t.max_size d.entries t.entries l.agree l.max_le
          (l.whole (||-left d.forgotten _ e))));
}

emptied : (d : Decoder) (t : Table) → Tracks d t → Tracks (empty d) (record t { entries = [] })
unfolding empty
emptied d t k = record {
  valid = empty-IsValid d k.valid;
  agree = tt;
  same_limit = k.same_limit;
  max_le = k.max_le;
  max_le_limit = k.max_le_limit;
  whole = λ e. omega arith;
}

add_large :
    (t : Table) (h : Header) → t.max_size < header_size h → add t h ≡ record t { entries = [] }
unfolding add keep_fitting
add_large t h l = ground arith

inserted_large :
    (d : Decoder) (t : Table) (e : Entry) (h : Header)
    → Tracks d t
    → Matches e h
    → ltb d.max_size (entry_size e) ≡ true
    → Tracks (insert d e) (add t h)
unfolding insert
inserted_large d t e h k m large =
    rw (large, add_large t h (omega (arith, size_le e h m, ltb→lt _ _ large, k.max_le)))
      (emptied d t k)

inserted_small :
    (d : Decoder) (t : Table) (e : Entry) (h : Header)
    → Tracks d t
    → Matches e h
    → ltb d.max_size (entry_size e) ≡ false
    → Tracks (insert d e) (add t h)
unfolding insert add total
inserted_small d t e h k m small = rw small (
    evict-Tracks (record d { entries = e ∷ d.entries; size = d.size + entry_size e })
      (record t { entries = h ∷ t.entries })
      (record {
        counted = omega (arith, k.valid.counted);
        limited = k.valid.limited;
        agree = (m, k.agree);
        same_limit = k.same_limit;
        max_le = k.max_le;
        max_le_limit = k.max_le_limit;
        whole = λ f. omega (arith, k.whole f);
      }))

-- Inserting an entry that matches a header keeps the decoder's table tracking the RFC table to
-- which that header is added, also where the entry empties the table.
pub insert-Tracks :
    (d : Decoder) (t : Table) (e : Entry) (h : Header)
    → Tracks d t
    → Matches e h
    → Tracks (insert d e) (add t h)
insert-Tracks d t e h k m = elim (Bool-cases (ltb d.max_size (entry_size e))) [
  | inl large ↦ inserted_large d t e h k m large
  | inr small ↦ inserted_small d t e h k m small
]

keep_none : (hs : List Header) → keep_fitting 0 hs ≡ []
unfolding keep_fitting
keep_none [] = refl
keep_none (h ∷ hs) = ground arith

resize_zero :
    (d : Decoder) (t : Table)
    → Tracks d t
    → Tracks (Decode.resize 0 d) (record t { max_size = 0; entries = keep_fitting 0 t.entries })
unfolding empty keep_fitting total
resize_zero d t k = rw keep_none (
    evict-Tracks (empty (record d { max_size = 0 })) (record t { max_size = 0; entries = [] })
      (record {
        counted = refl;
        limited = omega arith;
        agree = tt;
        same_limit = k.same_limit;
        max_le = omega arith;
        max_le_limit = omega arith;
        whole = λ e. omega arith;
      }))

-- A size update within the limit keeps the decoder's table tracking the RFC table that is resized
-- alike, also to size zero.
pub resize-Tracks :
    (d : Decoder) (t : Table) (size : ℕ)
    → size ≤ t.limit
    → Tracks d t
    → Tracks (Decode.resize size d) (resize t size)
unfolding resize
resize-Tracks d t size h k = elim (Bool-cases (size == 0)) [
  | inl zeroed ↦
      subst
        (λ n.
          Tracks (Decode.resize n d)
            (record t { max_size = n; entries = keep_fitting n t.entries }))
        (sym (==→eq _ _ zeroed)) (resize_zero d t k)
  | inr kept ↦ rw kept (
      evict-Tracks (record d { max_size = size }) (record t { max_size = size })
        (record {
          counted = k.valid.counted;
          limited = omega (arith, k.same_limit);
          agree = k.agree;
          same_limit = k.same_limit;
          max_le = omega arith;
          max_le_limit = h;
          whole = k.whole;
        }))
]

pub set_limit-Tracks :
    (d : Decoder) (t : Table) (size : ℕ)
    → Tracks d t
    → Tracks (set_limit d size) (change_limit t size)
unfolding set_limit change_limit
set_limit-Tracks d t size k =
    evict-Tracks (record d { limit = size; max_size = min d.max_size size })
      (record t { limit = size; max_size = min t.max_size size })
      (record {
        counted = k.valid.counted;
        limited = omega arith;
        agree = k.agree;
        same_limit = refl;
        max_le = omega (arith, k.max_le);
        max_le_limit = omega arith;
        whole = k.whole;
      })

-- Whatever was lost, and whatever table the encoder has now, a forgotten decoder is in step.
pub forget-Tracks :
    (d : Decoder) (t : Table)
    → IsValid d
    → d.limit ≡ t.limit
    → t.max_size ≤ t.limit
    → Tracks (forget d) t
unfolding forget
forget-Tracks d t v same le = record {
  valid = forget-IsValid d v;
  agree = tt;
  same_limit = same;
  max_le = omega arith;
  max_le_limit = le;
  whole = λ e. cc;
}
