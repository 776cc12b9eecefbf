-- ===== src/Hpack/Decode.antt =====
-- `Decoder::decode` of h2/hpack.rs: whole header blocks.
pub mod Rules
pub mod Progress
use honeybeepf_llm.Prelude.{
  ℕ, zero, suc, ◌+◌, Bool, true, false, not, ◌||◌, Option, none, some, List, [], ◌∷◌, Bytes, length,
  drop, ltb, ◌==◌, if◌then◌else◌, bit_and,
}
use honeybeepf_llm.Hpack.Types.{
  Outcome, ok, err, stuck, HpackError, table_size, Text, known, unknown, Entry, Decoder, Run, M,
  continue, ◌>>=◌, ◌>>◌, lift, get, modify, on, Field,
}
use honeybeepf_llm.Hpack.Integer.{decode_int}
use honeybeepf_llm.Hpack.Strings.{decode_string}
use honeybeepf_llm.Hpack.Table.{lookup, insert, evict, empty, forget}

abbrev pub has : ℕ → ℕ → Bool
has byte mask = not (bit_and byte mask == 0)

-- `input[0]`; the callers pass what begins with a byte.
abbrev pub first_of_input : Bytes → ℕ
first_of_input [] = 0
first_of_input (first ∷ rest) = first

abbrev pub name_from : Run → Bytes × Outcome ℕ → Outcome ℕ × Run
name_from s (name, used) = (used, record s { decoder = record (s.decoder) { name = name } })

abbrev pub value_from : Run → Bytes × Outcome ℕ → Outcome ℕ × Run
value_from s (value, used) = (used, record s { decoder = record (s.decoder) { value = value } })

-- `decode_string(input, &mut self.name)`, and the same into `self.value`.
unfoldable pub string_into_name : Bytes → M ℕ
string_into_name input s = name_from s (decode_string input s.decoder.name)

unfoldable pub string_into_value : Bytes → M ℕ
string_into_value input s = value_from s (decode_string input s.decoder.value)

unfoldable pub lookup_index : ℕ → M (Text × Text)
lookup_index index s = (lookup s.decoder.entries s.decoder.forgotten index, s)

abbrev pub take_name : Text → M Bool
take_name (known name) = do modify (λ d. record d { name = name }); lift (ok true)
take_name unknown = lift (ok false)

-- The name's place, read up to `pos`: the position behind it, and whether the name is known.
unfoldable pub literal_name : Bytes → ℕ → ℕ → M (ℕ × Bool)
unfolding string_into_name lookup_index
literal_name input zero pos = do
  used ← string_into_name (drop pos input)
  lift (ok (pos + used, true))
literal_name input (suc index) pos = do
  (name, _) ← lookup_index (suc index)
  name_known ← take_name name
  lift (ok (pos, name_known))

abbrev pub name_text : Bool → Bytes → Text
name_text true name = known name
name_text false name = unknown

abbrev pub name_option : Bool → Bytes → Option Bytes
name_option true name = some name
name_option false name = none

abbrev pub literal_field : Bool → Decoder → Field
literal_field name_known d = record { name = name_text name_known d.name; value = known d.value }

abbrev pub literal_entry : Bool → Decoder → Entry
literal_entry name_known d = record { name = name_option name_known d.name; value = d.value }

abbrev pub insert_if : Bool → Bool → Decoder → Decoder
insert_if indexing name_known d = if indexing then insert d (literal_entry name_known d) else d

abbrev pub clear_literal : Decoder → Decoder
clear_literal d = record d { name = []; value = [] }

-- What the field and the table get once both strings are read.
unfoldable pub finish_literal : Bool → Bool → M (Unit {0})
finish_literal indexing name_known = do
  s ← get
  on (literal_field name_known s.decoder)
  modify (insert_if indexing name_known)

unfoldable pub literal : Bytes → M ℕ
unfolding literal_name string_into_value finish_literal
literal input = do
  let indexing = has (first_of_input input) 0x40
  (index, pos) ← lift (decode_int input (if indexing then 6 else 4))
  modify clear_literal
  (pos', name_known) ← literal_name input index pos
  used ← string_into_value (drop pos' input)
  finish_literal indexing name_known
  lift (ok (pos' + used))

-- `size == 0` empties the table before the eviction.
abbrev pub resize : ℕ → Decoder → Decoder
resize size d = let d' = record d { max_size = size } in evict (if size == 0 then empty d' else d')

unfoldable pub size_update : Bytes → ℕ → M ℕ
size_update rest fields = do
  (size, used) ← lift (decode_int rest 5)
  s ← get
  if ltb 0 fields || ltb s.decoder.limit size then lift (err table_size) else modify (resize size)
  lift (ok used)

unfoldable pub indexed : Bytes → M ℕ
unfolding lookup_index
indexed rest = do
  (index, used) ← lift (decode_int rest 7)
  (name, value) ← lookup_index index
  on (record { name = name; value = value })
  lift (ok used)

-- One round of the loop, at `rest = block[pos..]`: the bytes it took, and the new field count.
unfoldable pub decode_step : Bytes → ℕ → M (ℕ × ℕ)
unfolding indexed size_update literal
decode_step rest fields =
    if has (first_of_input rest) 0x80
    then (do used ← indexed rest; lift (ok (used, fields + 1)))
    else if bit_and (first_of_input rest) 0xe0 == 0x20
    then (do used ← size_update rest fields; lift (ok (used, fields)))
    else (do used ← literal rest; lift (ok (used, fields + 1)))

unfoldable pub decode_loop : ℕ → Bytes → ℕ → M (Unit {0})
unfolding decode_step
decode_loop fuel [] fields = lift (ok tt)
decode_loop zero (b ∷ bs) fields = lift stuck
decode_loop (suc fuel) (b ∷ bs) fields = do
  (used, fields') ← decode_step (b ∷ bs) fields
  decode_loop fuel (drop used (b ∷ bs)) fields'

-- Each round takes a byte at least, so as many rounds as the block has bytes are enough.
unfoldable pub decode_fields : Bytes → M (Unit {0})
unfolding decode_loop
decode_fields block = decode_loop (length block) block 0

abbrev pub forget_on_error : Outcome (Unit {0}) × Run → Outcome (Unit {0}) × Run
forget_on_error (ok u, s) = (ok u, s)
forget_on_error (err e, s) = (err e, record s { decoder = forget s.decoder })
forget_on_error (stuck, s) = (stuck, s)

unfoldable pub decode : Bytes → M (Unit {0})
unfolding decode_fields
decode block s = forget_on_error (decode_fields block s)
