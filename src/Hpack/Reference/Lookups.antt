-- ===== src/Hpack/Reference/Lookups.antt =====
-- The decoder in step with the reference, and lookups in both.
use honeybeepf_llm.Prelude.{
  ℕ, zero, suc, ◌-◌, ◌≤◌, ◌≡◌, refl, inl, inr, Bool, true, false, Option, none, some, List, [], ◌∷◌,
  ◌++◌, Bytes, length, arith, get_elem?, ◌≢◌,
}
use mathlib.Core.Path.{subst₂}
use mathlib.Core.Option.{some-injective}
use honeybeepf_llm.Hpack.Types.{
  Outcome, ok, err, stuck, Run, lift, Text, known, unknown, Entry, Field,
}
use honeybeepf_llm.Hpack.Static.{static_table}
use honeybeepf_llm.Hpack.Table.{lookup, text_of, of_dynamic, of_static}
use honeybeepf_llm.Hpack.Decode.{lookup_index, clear_literal}
use honeybeepf_llm.Hpack.Decode.Progress.{with_name-IsValid, with_value-IsValid}
use honeybeepf_llm.Hpack.Reference.{Header, State, find, of_option, ok?, find_index}
use honeybeepf_llm.Hpack.Reference.Rules.{Post, FollowsAt}
use honeybeepf_llm.Hpack.Reference.Tracks.{Tracks, Matches, Agree}

-- A text that is known is the right one.
abbrev pub TextMatches : Text → Bytes → Type 0
TextMatches unknown b = Unit
TextMatches (known a) b = a ≡ b

abbrev pub FieldMatches : Field → Header → Type 0
FieldMatches f h = TextMatches f.name h.0 × TextMatches f.value h.1

-- As many fields as headers, in the same order.
abbrev pub FieldsMatch : List Field → List Header → Type 0
FieldsMatch [] [] = Unit
FieldsMatch [] (h ∷ hs) = ⊥
FieldsMatch (f ∷ fs) [] = ⊥
FieldsMatch (f ∷ fs) (h ∷ hs) = FieldMatches f h × FieldsMatch fs hs

pub FieldsMatch-concat :
    (fs : List Field) (hs : List Header) (f : Field) (h : Header)
    → FieldsMatch fs hs
    → FieldMatches f h
    → FieldsMatch (fs ++ f ∷ []) (hs ++ h ∷ [])
FieldsMatch-concat [] [] f h g m = (m, tt)
FieldsMatch-concat [] (x ∷ hs) f h g m = absurd g
FieldsMatch-concat (x ∷ fs) [] f h g m = absurd g
FieldsMatch-concat (x ∷ fs) (y ∷ hs) f h g m = (g.0, FieldsMatch-concat fs hs f h g.1 m)

pub record InStep (s : Run) (t : State) : Type 0 where
  pub table : Tracks s.decoder t.table
  pub fields : FieldsMatch s.fields t.headers

pub with_name-InStep :
    (s : Run) (t : State) (n : Bytes)
    → InStep s t
    → InStep (record s { decoder = record (s.decoder) { name = n } }) t
with_name-InStep s t n i = record {
  table = record {
    valid = with_name-IsValid n i.table.valid;
    agree = i.table.agree;
    same_limit = i.table.same_limit;
    max_le = i.table.max_le;
    max_le_limit = i.table.max_le_limit;
    whole = i.table.whole;
  };
  fields = i.fields;
}

pub with_value-InStep :
    (s : Run) (t : State) (n : Bytes)
    → InStep s t
    → InStep (record s { decoder = record (s.decoder) { value = n } }) t
with_value-InStep s t n i = record {
  table = record {
    valid = with_value-IsValid n i.table.valid;
    agree = i.table.agree;
    same_limit = i.table.same_limit;
    max_le = i.table.max_le;
    max_le_limit = i.table.max_le_limit;
    whole = i.table.whole;
  };
  fields = i.fields;
}

pub clear-InStep :
    (s : Run) (t : State) → InStep s t → InStep (record s { decoder = clear_literal s.decoder }) t
clear-InStep s t i = with_value-InStep _ t [] (with_name-InStep s t [] i)

abbrev pub Same : {A : Type 0} → Post A A
Same a b s t = (a ≡ b) × InStep s t

pub int_follows :
    (r : Outcome (ℕ × ℕ)) (s : Run) (t : State)
    → InStep s t
    → FollowsAt Same (lift r s) (of_option (ok? r) t)
int_follows (ok p) s t i = (refl, i)
int_follows (err e) s t i = tt
int_follows stuck s t i = tt

-- Both names and values match, as far as they are known.
abbrev pub Found : Post (Text × Text) Header
Found p h s t = TextMatches p.0 h.0 × TextMatches p.1 h.1 × InStep s t

Agree-at :
    (es : List Entry) (hs : List Header) (i : ℕ) {e : Entry} {h : Header}
    → Agree es hs
    → get_elem? es i ≡ some e
    → get_elem? hs i ≡ some h
    → Matches e h
Agree-at [] hs i g p q = absurd (cc)
Agree-at (x ∷ es) [] i g p q = absurd (cc)
Agree-at (x ∷ es) (y ∷ hs) zero {e} {h} g p q =
    subst₂ Matches (some-injective _ _ p) (some-injective _ _ q) g.0
Agree-at (x ∷ es) (y ∷ hs) (suc i) g p q = Agree-at es hs i g.1 p q

in_range :
    (es : List Entry) (hs : List Header) (i : ℕ) {h : Header}
    → length hs ≤ length es
    → get_elem? hs i ≡ some h
    → get_elem? es i ≢ none
in_range es [] i n q = λ e. cc
in_range [] (y ∷ hs) i n q = absurd (omega arith)
in_range (x ∷ es) (y ∷ hs) zero n q = λ e. cc
in_range (x ∷ es) (y ∷ hs) (suc i) n q = in_range es hs i (omega arith) q

name-Matches : (e : Entry) (h : Header) → Matches e h → TextMatches (text_of e.name) h.0
name-Matches e h m = elim m.name_eq [ inl p ↦ rw p tt | inr p ↦ rw p refl ]

dynamic_follows :
    (found : Option Entry) (expected : Option Header) (forgotten : Bool) (s : Run) (t : State)
    → ((e : Entry) (h : Header) → found ≡ some e → expected ≡ some h → Matches e h)
    → (forgotten ≡ false → (h : Header) → expected ≡ some h → found ≢ none)
    → InStep s t
    → FollowsAt Found (of_dynamic forgotten found, s) (of_option expected t)
dynamic_follows (some e) (some h) forgotten s t m w i =
    let k = m e h refl refl in (name-Matches e h k, k.value_eq, i)
dynamic_follows none (some h) true s t m w i = (tt, tt, i)
dynamic_follows none (some h) false s t m w i = absurd (w refl h refl refl)
dynamic_follows found none forgotten s t m w i = tt

static_follows :
    (fixed : Option Header) (r : Outcome (Text × Text)) (expected : Option Header) (s : Run)
    (t : State)
    → InStep s t
    → FollowsAt Found (r, s) (of_option expected t)
    → FollowsAt Found
        (of_static fixed r, s)
        (of_option (elim fixed [ some h ↦ some h | none ↦ expected ]) t)
static_follows (some h) r expected s t i f = (refl, refl, i)
static_follows none r expected s t i f = f

pub lookup_follows :
    (index : ℕ) (s : Run) (t : State)
    → InStep s t
    → FollowsAt Found (lookup_index index s) (find_index index t)
unfolding lookup_index lookup find
lookup_follows zero s t i = tt
lookup_follows (suc index) s t i =
    let at = index - length static_table in
    static_follows (get_elem? static_table index)
      (of_dynamic s.decoder.forgotten (get_elem? s.decoder.entries at))
      (get_elem? t.table.entries at) s t i
      (dynamic_follows (get_elem? s.decoder.entries at) (get_elem? t.table.entries at)
        s.decoder.forgotten s t (λ e h p q. Agree-at _ _ at i.table.agree p q)
        (λ f h q. in_range _ _ at (i.table.whole f) q) i)
