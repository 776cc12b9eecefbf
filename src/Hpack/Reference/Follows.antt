-- ===== src/Hpack/Reference/Follows.antt =====
-- The decoder follows the reference: each step, and whole blocks.
use honeybeepf_llm.Prelude.{
  ℕ, zero, suc, ◌+◌, ◌≡◌, refl, ap, inl, inr, Bool, true, false, Option, none, some, [], Bytes,
  drop, if◌then◌else◌,
}
use mathlib.Core.Path.{subst, ap₂}
use honeybeepf_llm.Hpack.Types.{
  Outcome, ok, err, stuck, Run, M, ◌>>=◌, ◌>>◌, lift, modify, Decoder, Text, known, unknown,
}
use honeybeepf_llm.Hpack.Integer.{decode_int}
use honeybeepf_llm.Hpack.Strings.{decode_string}
use honeybeepf_llm.Hpack.Decode
use honeybeepf_llm.Hpack.Decode.{
  string_into_name, string_into_value, lookup_index, literal_name, finish_literal, take_name,
  clear_literal, literal_field, literal_entry, insert_if, has, first_of_input, name_text,
  name_option,
}
use honeybeepf_llm.Hpack.Reference
use honeybeepf_llm.Hpack.Reference.{
  ◌>>=◌ as ◌then'◌, ◌>>◌ as ◌next'◌, Header, State, D, next, read_int, read_string, of_option, ok?,
  text?, emit, update, pure, name_at, find_index, add,
}
use honeybeepf_llm.Hpack.Reference.Rules.{Post, FollowsAt, follows_bind}
use honeybeepf_llm.Hpack.Reference.Tracks.{Tracks, Matches, insert-Tracks}
use honeybeepf_llm.Hpack.Reference.Lookups.{
  TextMatches, FieldMatches, FieldsMatch-concat, InStep, with_name-InStep, with_value-InStep,
  clear-InStep, Same, int_follows, Found, lookup_follows,
}

-- The decoder's scratch name is the literal's, if it counts as known; its scratch value is empty.
abbrev NameIs : Bool → Bytes → Bytes → Type 0
NameIs true scratch name = scratch ≡ name
NameIs false scratch name = Unit

abbrev Named : Post (ℕ × Bool) (Bytes × ℕ)
Named q r s t = (q.0 ≡ r.1) × NameIs q.1 s.decoder.name r.0 × (s.decoder.value ≡ []) × InStep s t

-- A literal read into an emptied scratch string.
name_follows :
    (r : Bytes × Outcome ℕ) (s : Run) (t : State)
    → InStep s t
    → s.decoder.value ≡ []
    → FollowsAt
        (λ used p s' t'.
          (used ≡ p.1) × (s'.decoder.name ≡ p.0) × (s'.decoder.value ≡ []) × InStep s' t')
        (Decode.name_from s r)
        (of_option (text? r) t)
name_follows (name, ok used) s t i e = (refl, refl, e, with_name-InStep s t name i)
name_follows (name, err x) s t i e = tt
name_follows (name, stuck) s t i e = tt

value_follows :
    (name_known : Bool) (name : Bytes) (r : Bytes × Outcome ℕ) (s : Run) (t : State)
    → InStep s t
    → NameIs name_known s.decoder.name name
    → FollowsAt
        (λ used p s' t'.
          (used ≡ p.1)
          × (s'.decoder.value ≡ p.0)
          × NameIs name_known s'.decoder.name name
          × InStep s' t')
        (Decode.value_from s r)
        (of_option (text? r) t)
value_follows name_known name (value, ok used) s t i e =
    (refl, refl, e, with_value-InStep s t value i)
value_follows name_known name (value, err x) s t i e = tt
value_follows name_known name (value, stuck) s t i e = tt

take_name_follows :
    (n : Text) (name : Bytes) (s : Run) (t : State)
    → TextMatches n name
    → s.decoder.value ≡ []
    → InStep s t
    → FollowsAt {B = Unit {0}}
        (λ b _ s' t'. NameIs b s'.decoder.name name × (s'.decoder.value ≡ []) × InStep s' t')
        (take_name n s)
        (some (tt, t))
take_name_follows (known n) name s t m e i = (m, e, with_name-InStep s t n i)
take_name_follows unknown name s t m e i = (tt, e, i)

string_into_name_follows :
    (input : Bytes) (s : Run) (t : State)
    → InStep s t
    → s.decoder.name ≡ []
    → s.decoder.value ≡ []
    → FollowsAt
        (λ used p s' t'.
          (used ≡ p.1) × (s'.decoder.name ≡ p.0) × (s'.decoder.value ≡ []) × InStep s' t')
        (string_into_name input s)
        (read_string input t)
unfolding string_into_name
string_into_name_follows input s t i e f = rw e (name_follows (decode_string input []) s t i f)

string_into_value_follows :
    (input : Bytes) (name_known : Bool) (name : Bytes) (s : Run) (t : State)
    → InStep s t
    → s.decoder.value ≡ []
    → NameIs name_known s.decoder.name name
    → FollowsAt
        (λ used p s' t'.
          (used ≡ p.1)
          × (s'.decoder.value ≡ p.0)
          × NameIs name_known s'.decoder.name name
          × InStep s' t')
        (string_into_value input s)
        (read_string input t)
unfolding string_into_value
string_into_value_follows input name_known name s t i e f =
    rw e (value_follows name_known name (decode_string input []) s t i f)

-- A lookup leaves the scratch strings alone.
abbrev FoundUnread : Post (Text × Text) Header
FoundUnread p h s t = TextMatches p.0 h.0 × (s.decoder.value ≡ []) × InStep s t

unread :
    (r : Outcome (Text × Text)) (s : Run) (o : Option (Header × State))
    → s.decoder.value ≡ []
    → FollowsAt Found (r, s) o
    → FollowsAt FoundUnread (r, s) o
unread r s none e f = tt
unread (ok p) s (some (h, t)) e f = (f.0, e, f.2)
unread (err x) s (some (h, t)) e f = absurd f
unread stuck s (some (h, t)) e f = absurd f

lookup_keeps_value :
    (index : ℕ) (s : Run) (t : State)
    → InStep s t
    → s.decoder.value ≡ []
    → FollowsAt FoundUnread (lookup_index index s) (find_index index t)
unfolding lookup_index
lookup_keeps_value index s t i e = unread _ s (find_index index t) e (lookup_follows index s t i)

literal_name_follows :
    (input : Bytes) (index pos : ℕ) (s : Run) (t : State)
    → InStep s t
    → s.decoder.name ≡ []
    → s.decoder.value ≡ []
    → FollowsAt Named (literal_name input index pos s) (name_at input index pos t)
unfolding literal_name name_at
literal_name_follows input zero pos s t i e f =
    follows_bind
      (λ used p s' t'.
        (used ≡ p.1) × (s'.decoder.name ≡ p.0) × (s'.decoder.value ≡ []) × InStep s' t')
      Named (string_into_name (drop pos input)) (read_string (drop pos input))
      (λ used. lift (ok (pos + used, true))) (λ p. pure (p.0, pos + p.1)) s t
      (string_into_name_follows (drop pos input) s t i e f)
      (λ used p s' t' h. (ap (◌+◌ pos) h.0, h.1, h.2, h.3))
literal_name_follows input (suc index) pos s t i e f =
    follows_bind FoundUnread Named (lookup_index (suc index)) (find_index (suc index))
      (λ p. take_name p.0 >>= λ b. lift (ok (pos, b))) (λ h. pure (h.0, pos)) s t
      (lookup_keeps_value (suc index) s t i f)
      (λ p h s' t' m.
        follows_bind {B = Unit {0}}
          (λ b _ s'' t''. NameIs b s''.decoder.name h.0 × (s''.decoder.value ≡ []) × InStep s'' t'')
          Named (take_name p.0) (λ t. some (tt, t)) (λ b. lift (ok (pos, b))) (λ _. pure (h.0, pos))
          s' t' (take_name_follows p.0 h.0 s' t' m.0 m.1 m.2)
          (λ b _ s'' t'' n. (refl, n.0, n.1, n.2)))

Matches-entry :
    (name_known : Bool) (d : Decoder) (name value : Bytes)
    → NameIs name_known d.name name
    → d.value ≡ value
    → Matches (literal_entry name_known d) (name, value)
Matches-entry true d name value n v = record { value_eq = v; name_eq = inr (ap some n) }
Matches-entry false d name value n v = record { value_eq = v; name_eq = inl refl }

matches_field :
    (name_known : Bool) (d : Decoder) (name value : Bytes)
    → NameIs name_known d.name name
    → d.value ≡ value
    → FieldMatches (literal_field name_known d) (name, value)
matches_field true d name value n v = (n, v)
matches_field false d name value n v = (tt, v)

inserted_if :
    (indexing name_known : Bool) (s : Run) (t : State) (h : Header)
    → Tracks s.decoder t.table
    → Matches (literal_entry name_known s.decoder) h
    → Tracks (insert_if indexing name_known s.decoder) (if indexing then add t.table h else t.table)
inserted_if true name_known s t h k m = insert-Tracks s.decoder t.table _ h k m
inserted_if false name_known s t h k m = k

-- Both sides behind the length of the first integer, for either kind of literal.
module _ (indexing : Bool) (input : Bytes) where
  abbrev put : ℕ × Bool → ℕ → M ℕ
  put q used = finish_literal indexing q.1 >> lift (ok (q.0 + used))

  abbrev put' : Bytes × ℕ → Bytes × ℕ → D ℕ
  put' r v =
      emit (r.0, v.0)
      next' update (λ t. if indexing then add t (r.0, v.0) else t)
      next' pure (r.1 + v.1)

  put_follows :
      (q : ℕ × Bool) (r : Bytes × ℕ) (used : ℕ) (v : Bytes × ℕ) (s : Run) (t : State)
      → q.0 ≡ r.1
      → used ≡ v.1
      → s.decoder.value ≡ v.0
      → NameIs q.1 s.decoder.name r.0
      → InStep s t
      → FollowsAt Same (put q used s) (put' r v t)
  unfolding finish_literal
  put_follows q r used v s t e f val n i = (
    ap₂ ◌+◌ e f,
    record {
      table =
          inserted_if indexing q.1 s t (r.0, v.0) i.table
            (Matches-entry q.1 s.decoder r.0 v.0 n val);
      fields =
          FieldsMatch-concat s.fields t.headers _ _ i.fields
            (matches_field q.1 s.decoder r.0 v.0 n val);
    },
  )

  abbrev with_value : ℕ × Bool → M ℕ
  with_value q = string_into_value (drop q.0 input) >>= put q

  abbrev with_value' : Bytes × ℕ → D ℕ
  with_value' r = read_string (drop r.1 input) then' put' r

  with_value_follows :
      (q : ℕ × Bool) (r : Bytes × ℕ) (s : Run) (t : State)
      → Named q r s t
      → FollowsAt Same (with_value q s) (with_value' r t)
  with_value_follows q r s t n =
      subst (λ at. FollowsAt Same (with_value q s) ((read_string (drop at input) then' put' r) t))
        n.0
        (follows_bind _ Same (string_into_value (drop q.0 input)) (read_string (drop q.0 input))
          (put q) (put' r) s t (string_into_value_follows (drop q.0 input) q.1 r.0 s t n.3 n.2 n.1)
          (λ used v s' t' h. put_follows q r used v s' t' n.0 h.0 h.1 h.2 h.3))

  abbrev with_name : ℕ × ℕ → M ℕ
  with_name p = modify clear_literal >> (literal_name input p.0 p.1 >>= with_value)

  abbrev with_name' : ℕ × ℕ → D ℕ
  with_name' p = name_at input p.0 p.1 then' with_value'

  with_name_follows :
      (p : ℕ × ℕ) (s : Run) (t : State)
      → InStep s t
      → FollowsAt Same (with_name p s) (with_name' p t)
  with_name_follows p s t i =
      let s' : Run = record s { decoder = clear_literal s.decoder } in
      follows_bind Named Same (literal_name input p.0 p.1) (name_at input p.0 p.1) with_value
        with_value' s' t (literal_name_follows input p.0 p.1 s' t (clear-InStep s t i) refl refl)
        (λ q r s'' t' n. with_value_follows q r s'' t' n)

-- One integer read by both, and what follows it.
pub int_bind_follows :
    (input : Bytes) (prefix : ℕ) (f : ℕ × ℕ → M ℕ) (g : ℕ × ℕ → D ℕ) (s : Run) (t : State)
    → InStep s t
    → ((p : ℕ × ℕ) (s : Run) (t : State) → InStep s t → FollowsAt Same (f p s) (g p t))
    → FollowsAt Same ((lift (decode_int input prefix) >>= f) s) ((read_int input prefix then' g) t)
int_bind_follows input prefix f g s t i k =
    follows_bind Same Same (lift (decode_int input prefix)) (read_int input prefix) f g s t
      (int_follows (decode_int input prefix) s t i)
      (λ p q s' t' h. subst (λ x. FollowsAt Same (f p s') (g x t')) h.0 (k p s' t' h.1))

pub literal_follows :
    (input : Bytes) (s : Run) (t : State)
    → InStep s t
    → FollowsAt Same (Decode.literal input s) (Reference.literal input t)
unfolding Decode.literal Reference.literal
literal_follows input s t i =
    let indexing = has (first_of_input input) 0x40 in
    int_bind_follows input (if indexing then 6 else 4) (with_name indexing input)
      (with_name' indexing input) s t i (with_name_follows indexing input)
