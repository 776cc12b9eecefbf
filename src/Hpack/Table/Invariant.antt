-- ===== src/Hpack/Table/Invariant.antt =====
-- What stays true of a decoder's table, and so bounds its memory.
use honeybeepf_llm.Prelude.{ℕ, ◌+◌, ◌≤◌, ◌≡◌, refl, ◌∷◌, ltb, Bool-cases, inl, inr, arith, min}
use honeybeepf_llm.Hpack.Types.{Entry, Decoder, max_table_size}
use honeybeepf_llm.Hpack.Table.{entry_size, new, evict, set_limit, forget, empty, insert}
use honeybeepf_llm.Hpack.Table.Fit.{total, evict-fit, total-fit_le}

-- The size is that of the entries, below the encoder's size, the limit and the memory cap.
pub record IsValid (d : Decoder) : Type 0 where
  pub counted : d.size ≡ total d.entries
  pub within : d.size ≤ d.max_size
  pub limited : d.max_size ≤ d.limit
  pub capped : d.size ≤ max_table_size

pub evict-IsValid :
    (d : Decoder) → d.size ≡ total d.entries → d.max_size ≤ d.limit → IsValid (evict d)
evict-IsValid d h l = rw (evict-fit d h) (record {
  counted = refl;
  within = omega (arith, total-fit_le (min d.max_size max_table_size) d.entries);
  limited = l;
  capped = omega (arith, total-fit_le (min d.max_size max_table_size) d.entries);
})

pub new-IsValid : IsValid new
unfolding new total
new-IsValid = omega arith

pub set_limit-IsValid : (d : Decoder) (size : ℕ) → IsValid d → IsValid (set_limit d size)
unfolding set_limit
set_limit-IsValid d size v =
    evict-IsValid (record d { limit = size; max_size = min d.max_size size }) v.counted
      (omega arith)

pub forget-IsValid : (d : Decoder) → IsValid d → IsValid (forget d)
unfolding forget total
forget-IsValid d v = omega arith

pub empty-IsValid : (d : Decoder) → IsValid d → IsValid (empty d)
unfolding empty total
empty-IsValid d v = omega arith

pub empty_counted :
    (d : Decoder)
    → ((empty d).size ≡ total (empty d).entries)
      × ((empty d).max_size ≡ d.max_size)
      × ((empty d).limit ≡ d.limit)
unfolding empty total
empty_counted d = (refl, refl, refl)

-- Inserting into a valid table leaves a valid one: its size is the sum of its entries' sizes, at
-- most the maximum size, which is at most the limit, and at most the memory cap.
pub insert-IsValid : (d : Decoder) (e : Entry) → IsValid d → IsValid (insert d e)
unfolding insert
insert-IsValid d e v = elim (Bool-cases (ltb d.max_size (entry_size e))) [
  | inl large ↦ rw large (empty-IsValid d v)
  | inr small ↦ rw small (
      evict-IsValid (record d { entries = e ∷ d.entries; size = d.size + entry_size e })
        (unfold total in omega (arith, v.counted)) v.limited)
]
