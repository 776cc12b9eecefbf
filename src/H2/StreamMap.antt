-- ===== src/H2/StreamMap.antt =====
-- The map of a connection's streams by their id, a BTreeMap: entries with increasing ids.
use honeybeepf_llm.Prelude.{
  ℕ, suc, ◌+◌, ◌≤◌, ◌≡◌, refl, Bool, Option, none, some, List, [], ◌∷◌, length, ltb, ◌==◌,
  if◌then◌else◌, is_some, arith,
}

abbrev pub StreamMap {ℓ} : Type ℓ → Type ℓ
StreamMap S = List (ℕ × S)

module _ {ℓ} {S : Type ℓ} where
  abbrev pub lookup : ℕ → StreamMap S → Option S
  lookup id [] = none
  lookup id ((k, s) ∷ m) = if k == id then some s else lookup id m

  abbrev pub contains_key : ℕ → StreamMap S → Bool
  contains_key id m = is_some (lookup id m)

  abbrev pub insert : ℕ → S → StreamMap S → StreamMap S
  insert id s [] = (id, s) ∷ []
  insert id s ((k, t) ∷ m) =
      let rest = insert id s m in
      if k == id then (id, s) ∷ m else if ltb id k then (id, s) ∷ (k, t) ∷ m else (k, t) ∷ rest

  abbrev pub remove : ℕ → StreamMap S → StreamMap S
  remove id [] = []
  remove id ((k, t) ∷ m) = if k == id then m else (k, t) ∷ remove id m

  -- A change through `get_mut`.
  abbrev pub replace : ℕ → S → StreamMap S → StreamMap S
  replace id s [] = []
  replace id s ((k, t) ∷ m) = if k == id then (k, s) ∷ m else (k, t) ∷ replace id s m

  -- The ids of `range(low..)`.
  abbrev pub ids_from : ℕ → StreamMap S → List ℕ
  ids_from low [] = []
  ids_from low ((k, t) ∷ m) = if ltb k low then ids_from low m else k ∷ ids_from low m

  -- What a measure of the streams sums up to.
  abbrev pub total : (S → ℕ) → StreamMap S → ℕ
  total measure [] = 0
  total measure ((k, s) ∷ m) = measure s + total measure m

  module _ (measure : S → ℕ) where
    pub total-insert :
        (id : ℕ) (s : S) (m : StreamMap S)
        → lookup id m ≡ none
        → (total measure (insert id s m) ≡ measure s + total measure m)
          × (length (insert id s m) ≡ suc (length m))
    total-insert id s [] h = (refl, refl)
    total-insert id s ((k, t) ∷ m) h = ground (arith, total-insert id s m)

    pub total-remove :
        (id : ℕ) (s : S) (m : StreamMap S)
        → lookup id m ≡ some s
        → (measure s + total measure (remove id m) ≡ total measure m)
          × (suc (length (remove id m)) ≡ length m)
    total-remove id s [] h = cc
    total-remove id s ((k, t) ∷ m) h = ground (arith, total-remove id s m)

    pub total-replace :
        (id : ℕ) (s s' : S) (m : StreamMap S)
        → lookup id m ≡ some s
        → (measure s + total measure (replace id s' m) ≡ measure s' + total measure m)
          × (length (replace id s' m) ≡ length m)
    total-replace id s s' [] h = cc
    total-replace id s s' ((k, t) ∷ m) h = ground (arith, total-replace id s s' m)

    pub total-lookup_le :
        (id : ℕ) (s : S) (m : StreamMap S) → lookup id m ≡ some s → measure s ≤ total measure m
    total-lookup_le id s [] h = cc
    total-lookup_le id s ((k, t) ∷ m) h = ground (arith, total-lookup_le id s m)

  pub remove_missing : (id : ℕ) (m : StreamMap S) → lookup id m ≡ none → remove id m ≡ m
  remove_missing id [] h = refl
  remove_missing id ((k, t) ∷ m) h = ground (arith, remove_missing id m)

-- The streams of a map all satisfy a predicate.
abbrev pub Every {ℓ κ} : {S : Type ℓ} → (S → Type κ) → StreamMap S → Type κ
Every P [] = Unit {κ}
Every P ((k, s) ∷ m) = P s × Every P m

module _ {ℓ κ} {S : Type ℓ} (P : S → Type κ) where
  pub Every-lookup : (id : ℕ) (s : S) (m : StreamMap S) → Every P m → lookup id m ≡ some s → P s
  Every-lookup id s [] h e = cc
  Every-lookup id s ((k, t) ∷ m) h e = ground (arith, Every-lookup id s m h.1)

  pub Every-insert : (id : ℕ) (s : S) (m : StreamMap S) → Every P m → P s → Every P (insert id s m)
  Every-insert id s [] h p = (p, tt)
  Every-insert id s ((k, t) ∷ m) h p = ground (arith, Every-insert id s m h.1 p)

  pub Every-remove : (id : ℕ) (m : StreamMap S) → Every P m → Every P (remove id m)
  Every-remove id [] h = tt
  Every-remove id ((k, t) ∷ m) h = ground (arith, Every-remove id m h.1)

  pub Every-replace :
      (id : ℕ) (s : S) (m : StreamMap S) → Every P m → P s → Every P (replace id s m)
  Every-replace id s [] h p = tt
  Every-replace id s ((k, t) ∷ m) h p = ground (arith, Every-replace id s m h.1 p)
