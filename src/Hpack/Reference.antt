-- ===== src/Hpack/Reference.antt =====
-- The decoder that RFC 7541 prescribes, with the whole dynamic table and no memory cap: what an
-- encoder keeps in step with, and what h2/hpack.rs is measured against after it has lost bytes.
pub mod Tracks
pub mod Rules
pub mod Lookups
pub mod Follows
pub mod Blocks
use honeybeepf_llm.Prelude.{
  ℕ, zero, suc, ◌+◌, ◌-◌, Bool, true, false, ◌||◌, Option, none, some, List, [], ◌∷◌, ◌++◌, Bytes,
  length, drop, get_elem?, ltb, leb, ◌==◌, if◌then◌else◌, bit_and, min,
}
use honeybeepf_llm.Hpack.Types.{Outcome, ok, err, stuck, entry_overhead}
use honeybeepf_llm.Hpack.Static.{static_table}
use honeybeepf_llm.Hpack.Integer.{decode_int}
use honeybeepf_llm.Hpack.Strings.{decode_string}
use honeybeepf_llm.Hpack.Decode.{has, first_of_input}

-- A header field: its name and its value.
abbrev pub Header : Type 0
Header = Bytes × Bytes

pub record Table : Type 0 where
  pub entries : List Header
  pub max_size : ℕ
  pub limit : ℕ

abbrev pub header_size : Header → ℕ
header_size h = length h.0 + length h.1 + entry_overhead

-- RFC 7541 §4.3 and §4.4: the oldest entries go until the rest fits.
unfoldable pub keep_fitting : ℕ → List Header → List Header
keep_fitting room [] = []
keep_fitting room (h ∷ hs) =
    if leb (header_size h) room then h ∷ keep_fitting (room - header_size h) hs else []

unfoldable pub add : Table → Header → Table
add t h = record t { entries = keep_fitting t.max_size (h ∷ t.entries) }

unfoldable pub resize : Table → ℕ → Table
resize t size = record t { max_size = size; entries = keep_fitting size t.entries }

unfoldable pub change_limit : Table → ℕ → Table
change_limit t size =
    let max_size = min t.max_size size in
    record t { limit = size; max_size = max_size; entries = keep_fitting max_size t.entries }

-- RFC 7541 §2.3.3.
unfoldable pub find : List Header → ℕ → Option Header
find entries zero = none
find entries (suc index) = elim (get_elem? static_table index) [
  | some h ↦ some h
  | none ↦ get_elem? entries (index - length static_table)
]

-- The table, and the fields decoded so far; `none` is a block that no conforming encoder sends.
pub record State : Type 0 where
  pub table : Table
  pub headers : List Header

abbrev pub D : Type 0 → Type 0
D A = State → Option (A × State)

abbrev pub next : {A B : Type 0} → Option (A × State) → (A → D B) → Option (B × State)
next none f = none
next (some (a, s)) f = f a s

infixl 5 ◌>>=◌ ◌>>◌
abbrev pub ◌>>=◌ : {A B : Type 0} → D A → (A → D B) → D B
◌>>=◌ m f s = next (m s) f

abbrev pub ◌>>◌ : {B : Type 0} → D (Unit {0}) → D B → D B
m >> k = m >>= λ _. k

abbrev pub pure : {A : Type 0} → A → D A
pure a s = some (a, s)

abbrev pub of_option : {A : Type 0} → Option A → D A
of_option none s = none
of_option (some a) s = some (a, s)

abbrev pub ok? : {A : Type 0} → Outcome A → Option A
ok? (ok a) = some a
ok? (err e) = none
ok? stuck = none

abbrev pub text? : Bytes × Outcome ℕ → Option (Bytes × ℕ)
text? (text, ok used) = some (text, used)
text? (text, err e) = none
text? (text, stuck) = none

abbrev pub emit : Header → D (Unit {0})
emit h s = some (tt, record s { headers = s.headers ++ h ∷ [] })

abbrev pub update : (Table → Table) → D (Unit {0})
update f s = some (tt, record s { table = f s.table })

abbrev pub get : D State
get s = some (s, s)

abbrev pub read_int : Bytes → ℕ → D (ℕ × ℕ)
read_int input prefix = of_option (ok? (decode_int input prefix))

abbrev pub read_string : Bytes → D (Bytes × ℕ)
read_string input = of_option (text? (decode_string input []))

abbrev pub find_index : ℕ → D Header
find_index index s = of_option (find s.table.entries index) s

-- The name of a literal, and the position behind it.
unfoldable pub name_at : Bytes → ℕ → ℕ → D (Bytes × ℕ)
name_at input zero pos = do (name, used) ← read_string (drop pos input); pure (name, pos + used)
name_at input (suc index) pos = do (name, _) ← find_index (suc index); pure (name, pos)

unfoldable pub literal : Bytes → D ℕ
literal input = do
  let indexing = has (first_of_input input) 0x40
  (index, pos) ← read_int input (if indexing then 6 else 4)
  (name, pos') ← name_at input index pos
  (value, used) ← read_string (drop pos' input)
  emit (name, value)
  update (λ t. if indexing then add t (name, value) else t)
  pure (pos' + used)

unfoldable pub size_update : Bytes → ℕ → D ℕ
size_update rest fields = do
  (size, used) ← read_int rest 5
  s ← get
  if ltb 0 fields || ltb s.table.limit size then of_option none else update (λ t. resize t size)
  pure used

unfoldable pub indexed : Bytes → D ℕ
indexed rest = do (index, used) ← read_int rest 7; h ← find_index index; emit h; pure used

-- RFC 7541 §6: one representation; the bytes it takes, and how many fields there are with it.
unfoldable pub decode_step : Bytes → ℕ → D (ℕ × ℕ)
decode_step rest fields =
    if has (first_of_input rest) 0x80
    then (do used ← indexed rest; pure (used, fields + 1))
    else if bit_and (first_of_input rest) 0xe0 == 0x20
    then (do used ← size_update rest fields; pure (used, fields))
    else (do used ← literal rest; pure (used, fields + 1))

unfoldable pub decode_loop : ℕ → Bytes → ℕ → D (Unit {0})
decode_loop fuel [] fields = pure tt
decode_loop zero (b ∷ bs) fields = of_option none
decode_loop (suc fuel) (b ∷ bs) fields = do
  (used, fields') ← decode_step (b ∷ bs) fields
  decode_loop fuel (drop used (b ∷ bs)) fields'

unfoldable pub decode : Bytes → D (Unit {0})
decode block = decode_loop (length block) block 0
