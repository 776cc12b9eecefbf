-- ===== src/Prelude/Maps.antt =====
-- Maps with text for keys, as lists of their entries; no key stands in one twice.
use Prim.Native.Nat.{◌≤◌, suc}
use mathlib.Core.Bool.{Bool, true, false}
use mathlib.Core.List.{List, [], ◌∷◌}
use mathlib.Core.Option.{Option, none, some}
use mathlib.Core.Path.{subst, ◌≡◌, refl, sym, ap, ◌∙◌}
use mathlib.Core.Logic.{inl, inr}
use native.Mathlib.Omega.{arith}
use honeybeepf_llm.Prelude.Tests.{if◌then◌else◌, Bool-cases, is_some}
use honeybeepf_llm.Prelude.Lists.{Bytes, bytes_eq, bytes_eq→eq, bytes_eq_refl, length}

abbrev pub Map {ℓ} : Type ℓ → Type ℓ
Map V = List (Bytes × V)

bytes_eq_sym : (xs ys : Bytes) → bytes_eq xs ys ≡ bytes_eq ys xs
bytes_eq_sym [] [] = refl
bytes_eq_sym [] (y ∷ ys) = refl
bytes_eq_sym (x ∷ xs) [] = refl
bytes_eq_sym (x ∷ xs) (y ∷ ys) = ground (arith, bytes_eq_sym xs ys)

module _ {ℓ} {V : Type ℓ} where
  abbrev pub lookup : Bytes → Map V → Option V
  lookup key [] = none
  lookup key ((k, v) ∷ m) = if bytes_eq k key then some v else lookup key m

  abbrev pub contains_key : Bytes → Map V → Bool
  contains_key key m = is_some (lookup key m)

  abbrev pub insert : Bytes → V → Map V → Map V
  insert key v [] = (key, v) ∷ []
  insert key v ((k, w) ∷ m) = if bytes_eq k key then (k, v) ∷ m else (k, w) ∷ insert key v m

  abbrev pub remove : Bytes → Map V → Map V
  remove key [] = []
  remove key ((k, w) ∷ m) = if bytes_eq k key then m else (k, w) ∷ remove key m

  -- Every key once.
  abbrev pub Distinct : Map V → Type 0
  Distinct [] = Unit
  Distinct ((k, v) ∷ m) = (contains_key k m ≡ false) × Distinct m

  pub lookup-insert : (key : Bytes) (v : V) (m : Map V) → lookup key (insert key v m) ≡ some v
  lookup-insert key v [] = ground (arith, bytes_eq_refl key)
  lookup-insert key v ((k, w) ∷ m) = ground (arith, lookup-insert key v m)

  pub length-insert_new :
      (key : Bytes) (v : V) (m : Map V)
      → lookup key m ≡ none
      → length (insert key v m) ≡ suc (length m)
  length-insert_new key v [] h = refl
  length-insert_new key v ((k, w) ∷ m) h = ground (arith, length-insert_new key v m)

  pub length-insert_old :
      (key : Bytes) (v w : V) (m : Map V)
      → lookup key m ≡ some w
      → length (insert key v m) ≡ length m
  length-insert_old key v w [] h = cc
  length-insert_old key v w ((k, u) ∷ m) h = ground (arith, length-insert_old key v w m)

  pub length-remove :
      (key : Bytes) (v : V) (m : Map V)
      → lookup key m ≡ some v
      → suc (length (remove key m)) ≡ length m
  length-remove key v [] h = cc
  length-remove key v ((k, w) ∷ m) h = ground (arith, length-remove key v m)

  missing-insert :
      (k key : Bytes) (v : V) (m : Map V)
      → bytes_eq key k ≡ false
      → contains_key k m ≡ false
      → contains_key k (insert key v m) ≡ false
  missing-insert k key v [] ne h = ground arith
  missing-insert k key v ((j, w) ∷ m) ne h = elim (Bool-cases (bytes_eq j key)) [
    | inl same ↦ rw same (ground arith)
    | inr other ↦ rw other (ground (arith, missing-insert k key v m ne))
  ]

  missing-remove :
      (k key : Bytes) (m : Map V) → contains_key k m ≡ false → contains_key k (remove key m) ≡ false
  missing-remove k key [] h = refl
  missing-remove k key ((j, w) ∷ m) h = ground (arith, missing-remove k key m)

  pub insert-Distinct : (key : Bytes) (v : V) (m : Map V) → Distinct m → Distinct (insert key v m)
  insert-Distinct key v [] h = (refl, tt)
  insert-Distinct key v ((j, w) ∷ m) h = elim (Bool-cases (bytes_eq j key)) [
    | inl same ↦ rw same h
    | inr other ↦
        rw other
          (missing-insert j key v m (bytes_eq_sym key j ∙ other) h.0, insert-Distinct key v m h.1)
  ]

  pub remove-Distinct : (key : Bytes) (m : Map V) → Distinct m → Distinct (remove key m)
  remove-Distinct key [] h = tt
  remove-Distinct key ((j, w) ∷ m) h =
      ground (arith, remove-Distinct key m h.1, missing-remove j key m h.0)

  pub missing-removed :
      (key : Bytes) (m : Map V) → Distinct m → contains_key key (remove key m) ≡ false
  missing-removed key [] h = refl
  missing-removed key ((j, w) ∷ m) h = elim (Bool-cases (bytes_eq j key)) [
    | inl same ↦
        rw same (subst (λ (k : Bytes). contains_key k m ≡ false) (bytes_eq→eq j key same) h.0)
    | inr other ↦ rw other (rw other (missing-removed key m h.1))
  ]

  pub length-remove_le : (key : Bytes) (m : Map V) → length (remove key m) ≤ length m
  length-remove_le key [] = omega arith
  length-remove_le key ((j, w) ∷ m) = ground (arith, length-remove_le key m)

  pub length-insert_known :
      (key : Bytes) (v : V) (m : Map V)
      → contains_key key m ≡ true
      → length (insert key v m) ≡ length m
  length-insert_known key v [] h = cc
  length-insert_known key v ((k, u) ∷ m) h = ground (arith, length-insert_known key v m)

  pub length-insert_le :
      (key : Bytes) (v : V) (m : Map V) → length (insert key v m) ≤ suc (length m)
  length-insert_le key v [] = omega arith
  length-insert_le key v ((k, u) ∷ m) = ground (arith, length-insert_le key v m)

  pub lookup_missing : (key : Bytes) (m : Map V) → contains_key key m ≡ false → lookup key m ≡ none
  lookup_missing key m h = ground arith

  pub lookup-remove_other :
      (k key : Bytes) (m : Map V) → bytes_eq key k ≡ false → lookup k (remove key m) ≡ lookup k m
  lookup-remove_other k key [] ne = refl
  lookup-remove_other k key ((j, w) ∷ m) ne = elim (Bool-cases (bytes_eq j key)) [
    | inl same ↦
        rw (same, subst (λ (i : Bytes). bytes_eq i k ≡ false) (sym (bytes_eq→eq j key same)) ne)
          refl
    | inr other ↦
        rw other (ap (λ o. if bytes_eq j k then some w else o) (lookup-remove_other k key m ne))
  ]

  pub lookup-insert_other :
      (k key : Bytes) (v : V) (m : Map V)
      → bytes_eq key k ≡ false
      → lookup k (insert key v m) ≡ lookup k m
  lookup-insert_other k key v [] ne = rw ne refl
  lookup-insert_other k key v ((j, w) ∷ m) ne = elim (Bool-cases (bytes_eq j key)) [
    | inl same ↦
        rw (same, subst (λ (i : Bytes). bytes_eq i k ≡ false) (sym (bytes_eq→eq j key same)) ne)
          refl
    | inr other ↦
        rw other (ap (λ o. if bytes_eq j k then some w else o) (lookup-insert_other k key v m ne))
  ]

  -- Of every value.
  abbrev pub Every {κ} : (V → Type κ) → Map V → Type κ
  Every P [] = Unit
  Every P ((k, v) ∷ m) = P v × Every P m

  -- Of a value, if there is one.
  abbrev pub OfSome {κ} : (V → Type κ) → Option V → Type κ
  OfSome P none = Unit
  OfSome P (some v) = P v

  module _ {κ} (P : V → Type κ) where
    pub Every-lookup : (key : Bytes) (m : Map V) → Every P m → OfSome P (lookup key m)
    Every-lookup key [] h = tt
    Every-lookup key ((k, v) ∷ m) h = elim (Bool-cases (bytes_eq k key)) [
      | inl same ↦ rw same (h.0)
      | inr other ↦ rw other (Every-lookup key m h.1)
    ]

    pub Every-insert :
        (key : Bytes) (v : V) (m : Map V) → P v → Every P m → Every P (insert key v m)
    Every-insert key v [] pv h = (pv, tt)
    Every-insert key v ((k, w) ∷ m) pv h = elim (Bool-cases (bytes_eq k key)) [
      | inl same ↦ rw same (pv, h.1)
      | inr other ↦ rw other (h.0, Every-insert key v m pv h.1)
    ]

    pub Every-remove : (key : Bytes) (m : Map V) → Every P m → Every P (remove key m)
    Every-remove key [] h = tt
    Every-remove key ((k, w) ∷ m) h = elim (Bool-cases (bytes_eq k key)) [
      | inl same ↦ rw same (h.1)
      | inr other ↦ rw other (h.0, Every-remove key m h.1)
    ]
