-- ===== src/Hpack/Table.antt =====
-- The dynamic table of h2/hpack.rs, and `lookup` over both tables.
pub mod Fit
pub mod Invariant
use honeybeepf_llm.Prelude.{
  ℕ, zero, suc, ◌+◌, ◌-◌, Bool, true, false, Option, none, some, List, [], ◌∷◌, ◌++◌, Bytes, length,
  get_elem?, ltb, ◌==◌, if◌then◌else◌, min,
}
use honeybeepf_llm.Hpack.Types.{
  Outcome, ok, err, HpackError, bad_index, Text, known, unknown, Entry, Decoder, entry_overhead,
  max_table_size, default_table_size,
}
use honeybeepf_llm.Hpack.Static.{static_table}

abbrev pub name_len : Option Bytes → ℕ
name_len none = 0
name_len (some name) = length name

-- `Entry::size`: an unknown name counts as empty.
abbrev pub entry_size : Entry → ℕ
entry_size e = name_len e.name + length e.value + entry_overhead

unfoldable pub new : Decoder
new = record {
  entries = [];
  size = 0;
  max_size = default_table_size;
  limit = default_table_size;
  forgotten = false;
  name = [];
  value = [];
}

-- `VecDeque::pop_back`: the deque without its last element, and that element.
unfoldable pub pop_back {ℓ} : {A : Type ℓ} → List A → Option (List A × A)
pop_back [] = none
pop_back (x ∷ xs) = elim (pop_back xs) [
  | none ↦ some ([], x)
  | some (front, last) ↦ some (x ∷ front, last)
]

abbrev without_oldest : Decoder → Option (List Entry × Entry) → Decoder
without_oldest d none = d
without_oldest d (some (front, old)) = record d { entries = front; size = d.size - entry_size old }

unfoldable pub drop_oldest : Decoder → Decoder
unfolding pop_back
drop_oldest d = without_oldest d (pop_back d.entries)

-- `while self.size > self.max_size`, a round for each entry at most.
unfoldable pub evict_over_size : ℕ → Decoder → Decoder
evict_over_size zero d = d
evict_over_size (suc rounds) d =
    let next = evict_over_size rounds (drop_oldest d) in if ltb d.max_size d.size then next else d

-- `while self.size > MAX_TABLE_SIZE`, likewise.
unfoldable pub evict_over_cap : ℕ → Decoder → Decoder
evict_over_cap zero d = d
evict_over_cap (suc rounds) d =
    let next = evict_over_cap rounds (record (drop_oldest d) { forgotten = true }) in
    if ltb max_table_size d.size then next else d

unfoldable pub evict : Decoder → Decoder
evict d = let d' = evict_over_size (length d.entries) d in evict_over_cap (length d'.entries) d'

unfoldable pub set_limit : Decoder → ℕ → Decoder
set_limit d size = evict (record d { limit = size; max_size = min d.max_size size })

unfoldable pub forget : Decoder → Decoder
forget d = record d { entries = []; size = 0; forgotten = true; max_size = d.limit }

unfoldable pub empty : Decoder → Decoder
empty d = record d { entries = []; size = 0; forgotten = false }

unfoldable pub insert : Decoder → Entry → Decoder
unfolding empty
insert d entry =
    let size = entry_size entry in
    if ltb d.max_size size
    then empty d
    else evict (record d { entries = entry ∷ d.entries; size = d.size + size })

abbrev pub text_of : Option Bytes → Text
text_of none = unknown
text_of (some t) = known t

abbrev pub of_dynamic : Bool → Option Entry → Outcome (Text × Text)
of_dynamic forgotten (some e) = ok (text_of e.name, known e.value)
of_dynamic true none = ok (unknown, unknown)
of_dynamic false none = err bad_index

abbrev pub of_static : Option (Bytes × Bytes) → Outcome (Text × Text) → Outcome (Text × Text)
of_static (some (name, value)) dynamic = ok (known name, known value)
of_static none dynamic = dynamic

-- The static table first, then the dynamic table, newest first.
unfoldable pub lookup : List Entry → Bool → ℕ → Outcome (Text × Text)
lookup entries forgotten zero = err bad_index
lookup entries forgotten (suc index) =
    of_static (get_elem? static_table index)
      (of_dynamic forgotten (get_elem? entries (index - length static_table)))
