-- ===== src/Hpack/Reference/Blocks.antt =====
-- The decoder follows the reference on whole header blocks.
use honeybeepf_llm.Prelude.{
  ℕ, zero, suc, ◌+◌, ◌≤◌, ◌≡◌, refl, sym, ap, inl, inr, Bool, true, false, ◌||◌, Option, none, some,
  [], ◌∷◌, Bytes, length, drop, if◌then◌else◌, ltb, ◌==◌, bit_and, Bool-cases, arith,
}
use mathlib.Core.Path.{subst}
use honeybeepf_llm.Hpack.Types.{
  Outcome, ok, err, stuck, Run, M, ◌>>=◌, ◌>>◌, lift, get, modify, on, Decoder, Text, table_size,
}
use honeybeepf_llm.Hpack.Table.{forget}
use honeybeepf_llm.Hpack.Table.Invariant.{IsValid}
use honeybeepf_llm.Hpack.Decode
use honeybeepf_llm.Hpack.Decode.{lookup_index, has, first_of_input, forget_on_error}
use honeybeepf_llm.Hpack.Reference
use honeybeepf_llm.Hpack.Reference.{
  ◌>>=◌ as ◌then'◌, ◌>>◌ as ◌next'◌, Header, State, D, next, read_int, of_option, emit, update,
  pure, find_index,
}
use honeybeepf_llm.Hpack.Reference.Rules.{FollowsAt, follows_bind}
use honeybeepf_llm.Hpack.Reference.Tracks.{resize-Tracks, forget-Tracks}
use honeybeepf_llm.Hpack.Reference.Lookups.{FieldsMatch-concat, InStep, Same, Found, lookup_follows}
use honeybeepf_llm.Hpack.Reference.Follows.{int_bind_follows, literal_follows}

indexed_follows :
    (rest : Bytes) (s : Run) (t : State)
    → InStep s t
    → FollowsAt Same (Decode.indexed rest s) (Reference.indexed rest t)
unfolding Decode.indexed Reference.indexed
indexed_follows rest s t i =
    let report =
      λ (p : ℕ × ℕ) (q : Text × Text). on (record { name = q.0; value = q.1 }) >> lift (ok p.1) in
    let report' = λ (p : ℕ × ℕ) (h : Header). emit h next' pure p.1 in
    int_bind_follows rest 7 (λ p. lookup_index p.0 >>= report p)
      (λ p. find_index p.0 then' report' p) s t i
      (λ p s' t' j.
        follows_bind Found Same (lookup_index p.0) (find_index p.0) (report p) (report' p) s' t'
          (lookup_follows p.0 s' t' j)
          (λ q h u v f. (
            refl,
            record {
              table = f.2.table;
              fields = FieldsMatch-concat u.fields v.headers _ h f.2.fields (f.0, f.1);
            },
          )))

resized :
    (size fields : ℕ) (refused : Bool) (s : Run) (t : State)
    → (refused ≡ false → size ≤ t.table.limit)
    → InStep s t
    → FollowsAt {A = Unit {0}} {B = Unit {0}}
        (λ _ _. InStep)
        ((if refused then lift (err table_size) else modify (Decode.resize size)) s)
        ((if refused then of_option none else update (λ x. Reference.resize x size)) t)
resized size fields true s t h i = tt
resized size fields false s t h i = record {
  table = resize-Tracks s.decoder t.table size (h refl) i.table;
  fields = i.fields;
}

within_limit : (fields limit size : ℕ) → (ltb 0 fields || ltb limit size) ≡ false → size ≤ limit
within_limit fields limit size h = ground arith

size_update_follows :
    (rest : Bytes) (fields : ℕ) (s : Run) (t : State)
    → InStep s t
    → FollowsAt Same (Decode.size_update rest fields s) (Reference.size_update rest fields t)
unfolding Decode.size_update Reference.size_update
size_update_follows rest fields s t i =
    let checked = λ (size : ℕ) (limit : ℕ).
      if ltb 0 fields || ltb limit size
      then lift (err table_size)
      else modify (Decode.resize size) in
    let checked' = λ (size : ℕ) (limit : ℕ).
      if ltb 0 fields || ltb limit size
      then of_option none
      else update (λ x. Reference.resize x size) in
    int_bind_follows rest 5 (λ p. get >>= λ u. checked p.0 u.decoder.limit >> lift (ok p.1))
      (λ p. Reference.get then' λ u. checked' p.0 u.table.limit next' pure p.1) s t i
      (λ p s' t' j.
        subst
          (λ limit.
            FollowsAt Same ((checked p.0 limit >> lift (ok p.1)) s')
              ((checked' p.0 t'.table.limit next' pure p.1) t'))
          (sym j.table.same_limit)
          (follows_bind (λ _ _. InStep) Same (checked p.0 t'.table.limit)
            (checked' p.0 t'.table.limit) (λ _. lift (ok p.1)) (λ _. pure p.1) s' t'
            (resized p.0 fields (ltb 0 fields || ltb t'.table.limit p.0) s' t'
              (within_limit fields t'.table.limit p.0) j)
            (λ _ _ u v k. (refl, k))))

counted :
    (n : ℕ) (m : M ℕ) (m' : D ℕ) (s : Run) (t : State)
    → FollowsAt Same (m s) (m' t)
    → FollowsAt {A = ℕ × ℕ} {B = ℕ × ℕ} Same
        ((m >>= λ used. lift (ok (used, n))) s)
        ((m' then' λ used. pure (used, n)) t)
counted n m m' s t f =
    follows_bind Same Same m m' (λ used. lift {A = ℕ × ℕ} (ok (used, n)))
      (λ used. pure {A = ℕ × ℕ} (used, n)) s t f
      (λ u u' s' t' h. (ap (λ (x : ℕ). let p : ℕ × ℕ = (x, n) in p) h.0, h.1))

step_follows :
    (rest : Bytes) (fields : ℕ) (s : Run) (t : State)
    → InStep s t
    → FollowsAt Same (Decode.decode_step rest fields s) (Reference.decode_step rest fields t)
unfolding Decode.decode_step Reference.decode_step
step_follows rest fields s t i = elim (Bool-cases (has (first_of_input rest) 0x80)) [
  | inl e ↦ rw e (
      counted (fields + 1) (Decode.indexed rest) (Reference.indexed rest) s t
        (indexed_follows rest s t i))
  | inr e ↦ elim (Bool-cases (bit_and (first_of_input rest) 0xe0 == 0x20)) [
    | inl f ↦
        rw (e, f)
          (counted fields (Decode.size_update rest fields) (Reference.size_update rest fields) s t
            (size_update_follows rest fields s t i))
    | inr f ↦
        rw (e, f)
          (counted (fields + 1) (Decode.literal rest) (Reference.literal rest) s t
            (literal_follows rest s t i))
  ]
]

loop_follows :
    (fuel : ℕ) (rest : Bytes) (fields : ℕ) (s : Run) (t : State)
    → InStep s t
    → FollowsAt Same
        (Decode.decode_loop fuel rest fields s)
        (Reference.decode_loop fuel rest fields t)
unfolding Decode.decode_loop Reference.decode_loop
loop_follows fuel [] fields s t i = (refl, i)
loop_follows zero (b ∷ bs) fields s t i = tt
loop_follows (suc fuel) (b ∷ bs) fields s t i =
    follows_bind Same Same (Decode.decode_step (b ∷ bs) fields)
      (Reference.decode_step (b ∷ bs) fields) (λ p. Decode.decode_loop fuel (drop p.0 (b ∷ bs)) p.1)
      (λ p. Reference.decode_loop fuel (drop p.0 (b ∷ bs)) p.1) s t
      (step_follows (b ∷ bs) fields s t i)
      (λ p q s' t' h.
        subst
          (λ x.
            FollowsAt Same (Decode.decode_loop fuel (drop p.0 (b ∷ bs)) p.1 s')
              (Reference.decode_loop fuel (drop x.0 (b ∷ bs)) x.1 t'))
          h.0 (loop_follows fuel (drop p.0 (b ∷ bs)) p.1 s' t' h.1))

forget_unless_ok :
    (r : Outcome (Unit {0}) × Run) (o : Option (Unit {0} × State))
    → FollowsAt Same r o
    → FollowsAt Same (forget_on_error r) o
forget_unless_ok r none f = tt
forget_unless_ok (ok u, s) (some (b, t)) f = f
forget_unless_ok (err e, s) (some (b, t)) f = absurd f
forget_unless_ok (stuck, s) (some (b, t)) f = absurd f

-- Take a decoder and an RFC 7541 decoder that are in step. Whenever the RFC decoder accepts a
-- block, `decode` accepts it too, and both are in step again: the reported fields agree where they
-- are known, and so do the tables.
pub decode_follows :
    (block : Bytes) (s : Run) (t : State)
    → InStep s t
    → FollowsAt Same (Decode.decode block s) (Reference.decode block t)
unfolding Decode.decode Decode.decode_fields Reference.decode
decode_follows block s t i =
    forget_unless_ok (Decode.decode_fields block s) (Reference.decode block t)
      (loop_follows (length block) block 0 s t i)

-- Take a valid decoder that has just forgotten its table, and an RFC 7541 decoder with the same
-- limit and any table whose maximum size is within that limit. Whenever the RFC decoder accepts a
-- block, `decode` accepts it too, reports the same fields, each with a name or value either equal
-- or unknown, and is left in step with the RFC decoder's table.
pub decode_follows-forget :
    (block : Bytes) (d : Decoder) (t : Reference.Table)
    → IsValid d
    → d.limit ≡ t.limit
    → t.max_size ≤ t.limit
    → let s : Run = record { decoder = forget d; fields = [] } in
      let u : State = record { table = t; headers = [] } in
      FollowsAt Same (Decode.decode block s) (Reference.decode block u)
decode_follows-forget block d t v same le =
    decode_follows block _ _ (record { table = forget-Tracks d t v same le; fields = tt })
