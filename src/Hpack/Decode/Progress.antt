-- ===== src/Hpack/Decode/Progress.antt =====
-- Decoding ends on every block, and leaves a valid table whatever happens.
use honeybeepf_llm.Prelude.{
  ℕ, zero, suc, ◌+◌, ◌≤◌, ◌≡◌, ◌≢◌, refl, Bool, true, false, ◌||◌, List, [], ◌∷◌, Bytes, length,
  drop, length-drop, if◌then◌else◌, ltb, ◌==◌, bit_and, arith, Bool-cases, inl, inr,
}
use honeybeepf_llm.Hpack.Types.{
  Outcome, ok, err, stuck, Run, ◌>>=◌, ◌>>◌, lift, get, modify, on, Decoder, Text, known, unknown,
  Entry, table_size,
}
use honeybeepf_llm.Hpack.Integer.{decode_int}
use honeybeepf_llm.Hpack.Integer.Bounds.{decode_int_takes, decode_int-ne-stuck}
use honeybeepf_llm.Hpack.Strings.{decode_string}
use honeybeepf_llm.Hpack.Strings.Bounds.{decode_string-ne-stuck}
use honeybeepf_llm.Hpack.Table.{lookup, empty, forget}
use honeybeepf_llm.Hpack.Table.Invariant.{
  IsValid, insert-IsValid, forget-IsValid, evict-IsValid, empty_counted,
}
use honeybeepf_llm.Hpack.Decode.{
  string_into_name, string_into_value, lookup_index, literal_name, finish_literal, literal,
  size_update, indexed, decode_step, decode_loop, decode_fields, decode, resize, forget_on_error,
  insert_if, first_of_input, has, literal_entry, clear_literal, take_name,
}
use honeybeepf_llm.Hpack.Decode.Rules.{Ends, bind-Ends}

abbrev Keeps : Run → Type 0
Keeps s = IsValid s.decoder

-- The bytes that a step takes, of which there is one at least.
abbrev Takes : ℕ → Run → Type 0
Takes used s = (1 ≤ used) × Keeps s

abbrev TakesPair : ℕ × ℕ → Run → Type 0
TakesPair p s = (1 ≤ p.0) × Keeps s

abbrev SecondTakes {ℓ} : {A : Type ℓ} → A × ℕ → Run → Type 0
SecondTakes p s = (1 ≤ p.1) × Keeps s

int-Ends :
    (r : Outcome (ℕ × ℕ)) (s : Run)
    → r ≢ stuck
    → ((v used : ℕ) → r ≡ ok (v, used) → 1 ≤ used)
    → Keeps s
    → Ends SecondTakes Keeps (r, s)
int-Ends (ok (v, used)) s ne h k = (h v used refl, k)
int-Ends (err e) s ne h k = k
int-Ends stuck s ne h k = absurd (ne refl)

decode_int-Ends :
    (input : Bytes) (prefix : ℕ) (s : Run)
    → prefix ≤ 8
    → Keeps s
    → Ends SecondTakes Keeps (lift (decode_int input prefix) s)
decode_int-Ends input prefix s h k =
    int-Ends (decode_int input prefix) s (decode_int-ne-stuck input prefix)
      (λ v used e. (decode_int_takes input prefix h e).1) k

pub with_name-IsValid : {d : Decoder} (n : Bytes) → IsValid d → IsValid (record d { name = n })
with_name-IsValid n v = omega arith

pub with_value-IsValid : {d : Decoder} (n : Bytes) → IsValid d → IsValid (record d { value = n })
with_value-IsValid n v = omega arith

abbrev KeepsAny {ℓ} : {A : Type ℓ} → A → Run → Type 0
KeepsAny a s = Keeps s

lift-Ends {ℓ} :
    {A : Type ℓ} (r : Outcome A) (s : Run) → r ≢ stuck → Keeps s → Ends KeepsAny Keeps (lift r s)
lift-Ends (ok a) s ne k = k
lift-Ends (err e) s ne k = k
lift-Ends stuck s ne k = absurd (ne refl)

string_into_name-Ends :
    (input : Bytes) (s : Run) → Keeps s → Ends KeepsAny Keeps (string_into_name input s)
unfolding string_into_name
string_into_name-Ends input s k =
    lift-Ends (decode_string input s.decoder.name).1
      (record s { decoder = record (s.decoder) { name = (decode_string input s.decoder.name).0 } })
      (decode_string-ne-stuck input s.decoder.name) (with_name-IsValid _ k)

string_into_value-Ends :
    (input : Bytes) (s : Run) → Keeps s → Ends KeepsAny Keeps (string_into_value input s)
unfolding string_into_value
string_into_value-Ends input s k =
    lift-Ends (decode_string input s.decoder.value).1
      (record s {
        decoder = record (s.decoder) { value = (decode_string input s.decoder.value).0 };
      })
      (decode_string-ne-stuck input s.decoder.value) (with_value-IsValid _ k)

lookup-ne-stuck :
    (entries : List Entry) (forgotten : Bool) (index : ℕ) → lookup entries forgotten index ≢ stuck
unfolding lookup
lookup-ne-stuck entries forgotten zero = ground arith
lookup-ne-stuck entries forgotten (suc index) = ground arith

lookup_index-Ends : (index : ℕ) (s : Run) → Keeps s → Ends KeepsAny Keeps (lookup_index index s)
unfolding lookup_index
lookup_index-Ends index s k =
    lift-Ends (lookup s.decoder.entries s.decoder.forgotten index) s (lookup-ne-stuck _ _ index) k

take_name-Ends : (t : Text) (s : Run) → Keeps s → Ends KeepsAny Keeps (take_name t s)
take_name-Ends (known name) s k = with_name-IsValid name k
take_name-Ends unknown s k = k

abbrev FirstTakes {ℓ} : {A : Type ℓ} → ℕ × A → Run → Type 0
FirstTakes p s = (1 ≤ p.0) × Keeps s

literal_name-Ends :
    (input : Bytes) (index pos : ℕ) (s : Run)
    → 1 ≤ pos
    → Keeps s
    → Ends FirstTakes Keeps (literal_name input index pos s)
unfolding literal_name
literal_name-Ends input zero pos s h k =
    bind-Ends KeepsAny FirstTakes Keeps (string_into_name (drop pos input)) _ s
      (string_into_name-Ends (drop pos input) s k) (λ used t kt. (omega arith, kt))
literal_name-Ends input (suc index) pos s h k =
    bind-Ends KeepsAny FirstTakes Keeps (lookup_index (suc index)) _ s
      (lookup_index-Ends (suc index) s k)
      (λ p t kt.
        bind-Ends KeepsAny FirstTakes Keeps (take_name p.0) _ t (take_name-Ends p.0 t kt)
          (λ b t' kt'. (h, kt')))

insert_if-IsValid :
    (indexing name_known : Bool) (d : Decoder)
    → IsValid d
    → IsValid (insert_if indexing name_known d)
insert_if-IsValid true name_known d v = insert-IsValid d (literal_entry name_known d) v
insert_if-IsValid false name_known d v = v

finish_literal-Ends :
    (indexing name_known : Bool) (s : Run)
    → Keeps s
    → Ends KeepsAny Keeps (finish_literal indexing name_known s)
unfolding finish_literal
finish_literal-Ends indexing name_known s k = insert_if-IsValid indexing name_known s.decoder k

clear_literal-IsValid : {d : Decoder} → IsValid d → IsValid (clear_literal d)
clear_literal-IsValid v = omega arith

literal_prefix : (indexing : Bool) → (if indexing then 6 else 4) ≤ 8
literal_prefix true = omega arith
literal_prefix false = omega arith

literal-Ends : (input : Bytes) (s : Run) → Keeps s → Ends Takes Keeps (literal input s)
unfolding literal
literal-Ends input s k =
    let indexing = has (first_of_input input) 0x40 in
    let finish =
      λ (q : ℕ × Bool) (used : ℕ). finish_literal indexing q.1 >> lift (ok (q.0 + used)) in
    let rest = λ (q : ℕ × Bool). string_into_value (drop q.0 input) >>= finish q in
    let named = λ (p : ℕ × ℕ). modify clear_literal >> (literal_name input p.0 p.1 >>= rest) in
    bind-Ends SecondTakes Takes Keeps (lift (decode_int input (if indexing then 6 else 4))) named s
      (decode_int-Ends input (if indexing then 6 else 4) s (literal_prefix indexing) k)
      (λ p t h.
        bind-Ends FirstTakes Takes Keeps (literal_name input p.0 p.1) rest
          (record t { decoder = clear_literal t.decoder })
          (literal_name-Ends input p.0 p.1 (record t { decoder = clear_literal t.decoder }) h.0
            (clear_literal-IsValid h.1))
          (λ q u g.
            bind-Ends KeepsAny Takes Keeps (string_into_value (drop q.0 input)) (finish q) u
              (string_into_value-Ends (drop q.0 input) u g.1)
              (λ used w kw.
                bind-Ends KeepsAny Takes Keeps (finish_literal indexing q.1)
                  (λ _. lift (ok (q.0 + used))) w (finish_literal-Ends indexing q.1 w kw)
                  (λ _ x kx. (omega (arith, g.0), kx)))))

indexed-Ends : (rest : Bytes) (s : Run) → Keeps s → Ends Takes Keeps (indexed rest s)
unfolding indexed
indexed-Ends rest s k =
    let report =
      λ (p : ℕ × ℕ) (q : Text × Text). on (record { name = q.0; value = q.1 }) >> lift (ok p.1) in
    bind-Ends SecondTakes Takes Keeps (lift (decode_int rest 7))
      (λ p. lookup_index p.0 >>= report p) s (decode_int-Ends rest 7 s (omega arith) k)
      (λ p t h.
        bind-Ends KeepsAny Takes Keeps (lookup_index p.0) (report p) t (lookup_index-Ends p.0 t h.1)
          (λ q u ku. (h.0, ku)))

resize-IsValid : (size : ℕ) (d : Decoder) → size ≤ d.limit → IsValid d → IsValid (resize size d)
resize-IsValid size d h v = elim (Bool-cases (size == 0)) [
  | inl zeroed ↦ rw zeroed (
      let (counted, same_max, same_limit) = empty_counted (record d { max_size = size }) in
      evict-IsValid (empty (record d { max_size = size })) counted (omega arith))
  | inr kept ↦ rw kept (evict-IsValid (record d { max_size = size }) v.counted h)
]

checked_resize-Ends :
    (size fields : ℕ) (refused : Bool) (s : Run)
    → (refused ≡ false → size ≤ s.decoder.limit)
    → Keeps s
    → Ends KeepsAny Keeps ((if refused then lift (err table_size) else modify (resize size)) s)
checked_resize-Ends size fields true s h k = k
checked_resize-Ends size fields false s h k = resize-IsValid size s.decoder (h refl) k

not_over : (fields limit size : ℕ) → (ltb 0 fields || ltb limit size) ≡ false → size ≤ limit
not_over fields limit size h = ground arith

size_update-Ends :
    (rest : Bytes) (fields : ℕ) (s : Run) → Keeps s → Ends Takes Keeps (size_update rest fields s)
unfolding size_update
size_update-Ends rest fields s k =
    let checked = λ (size : ℕ) (t : Run).
      if ltb 0 fields || ltb t.decoder.limit size
      then lift (err table_size)
      else modify (resize size) in
    bind-Ends SecondTakes Takes Keeps (lift (decode_int rest 5))
      (λ p. get >>= λ t. checked p.0 t >> lift (ok p.1)) s
      (decode_int-Ends rest 5 s (omega arith) k)
      (λ p t h.
        bind-Ends KeepsAny Takes Keeps (checked p.0 t) (λ _. lift (ok p.1)) t
          (checked_resize-Ends p.0 fields (ltb 0 fields || ltb t.decoder.limit p.0) t
            (not_over fields t.decoder.limit p.0) h.1)
          (λ _ u ku. (h.0, ku)))

decode_step-Ends :
    (rest : Bytes) (fields : ℕ) (s : Run)
    → Keeps s
    → Ends FirstTakes Keeps (decode_step rest fields s)
unfolding decode_step
decode_step-Ends rest fields s k = elim (Bool-cases (has (first_of_input rest) 0x80)) [
  | inl e ↦
      rw e (
        bind-Ends Takes FirstTakes Keeps (indexed rest) _ s (indexed-Ends rest s k) (λ used t h. h))
  | inr e ↦ elim (Bool-cases (bit_and (first_of_input rest) 0xe0 == 0x20)) [
    | inl f ↦
        rw (e, f)
          (bind-Ends Takes FirstTakes Keeps (size_update rest fields) _ s
            (size_update-Ends rest fields s k) (λ used t h. h))
    | inr f ↦
        rw (e, f)
          (bind-Ends Takes FirstTakes Keeps (literal rest) _ s (literal-Ends rest s k)
            (λ used t h. h))
  ]
]

decode_loop-Ends :
    (fuel : ℕ) (rest : Bytes) (fields : ℕ) (s : Run)
    → length rest ≤ fuel
    → Keeps s
    → Ends KeepsAny Keeps (decode_loop fuel rest fields s)
unfolding decode_loop
decode_loop-Ends fuel [] fields s h k = k
decode_loop-Ends zero (b ∷ bs) fields s h k = absurd (omega arith)
decode_loop-Ends (suc fuel) (b ∷ bs) fields s h k =
    bind-Ends FirstTakes KeepsAny Keeps (decode_step (b ∷ bs) fields) _ s
      (decode_step-Ends (b ∷ bs) fields s k)
      (λ p t g.
        decode_loop-Ends fuel (drop p.0 (b ∷ bs)) p.1 t
          (omega (arith, length-drop p.0 (b ∷ bs), g.0)) g.1)

forget_on_error-Ends :
    (r : Outcome (Unit {0}) × Run)
    → Ends KeepsAny Keeps r
    → Ends KeepsAny
        (λ t. Keeps t × (t.decoder.forgotten ≡ true) × (t.decoder.entries ≡ []))
        (forget_on_error r)
unfolding forget
forget_on_error-Ends (ok u, s) h = h
forget_on_error-Ends (err e, s) h = (unfold forget in forget-IsValid s.decoder h, refl, refl)
forget_on_error-Ends (stuck, s) h = h

-- From a valid decoder, `decode` ends on every block; a block that is accepted leaves a valid
-- decoder, and an error leaves a valid decoder whose table is empty and forgotten.
pub decode-Ends :
    (block : Bytes) (s : Run)
    → IsValid s.decoder
    → Ends
        (λ _ t. IsValid t.decoder)
        (λ t. IsValid t.decoder × (t.decoder.forgotten ≡ true) × (t.decoder.entries ≡ []))
        (decode block s)
unfolding decode
decode-Ends block s v =
    forget_on_error-Ends (decode_fields block s)
      (unfold decode_fields in decode_loop-Ends (length block) block 0 s (omega arith) v)
