-- ===== src/Pricing/ModelName.antt =====
-- pricing/model_name.rs: a model's name without its snapshot date.
use honeybeepf_llm.Prelude.{
  ℕ, ◌+◌, ◌-◌, ◌*◌, Bool, false, ◌&&◌, ◌||◌, Option, none, some, [], ◌∷◌, Bytes, length, take, drop,
  leb, ◌==◌, if◌then◌else◌, is_some,
}

-- `rsplit_once`: the parts before and after the last byte that passes the test.
unfoldable pub rsplit_once : (ℕ → Bool) → Bytes → Option (Bytes × Bytes)
rsplit_once test [] = none
rsplit_once test (b ∷ bs) = elim (rsplit_once test bs) [
  | some (before, after) ↦ some (b ∷ before, after)
  | none ↦ if test b then some ([], bs) else none
]

unfoldable pub decimal : ℕ → Bytes → Option ℕ
decimal value [] = some value
decimal value (b ∷ bs) =
    let rest = decimal (value * 10 + (b - 48)) bs in if leb 48 b && leb b 57 then rest else none

-- `num`: `n` digits, as a number.
abbrev pub num : Bytes → ℕ → Option ℕ
num s n = if length s == n then decimal 0 s else none

abbrev pub ranged : ℕ → Option ℕ → Bool
ranged high none = false
ranged high (some n) = leb 1 n && leb n high

unfoldable pub is_date : Bytes → Bytes → Bytes → Bool
unfolding decimal
is_date y m d = is_some (num y 4) && ranged 12 (num m 2) && ranged 31 (num d 2)

abbrev pub dash : ℕ → Bool
dash b = b == 45

-- `base-yyyy-mm-dd`
abbrev pub without_dashed : Bytes → Option Bytes
without_dashed name = elim (rsplit_once dash name) [
  | none ↦ none
  | some (rest, dd) ↦ elim (rsplit_once dash rest) [
    | none ↦ none
    | some (rest', mm) ↦ elim (rsplit_once dash rest') [
      | none ↦ none
      | some (base, yyyy) ↦ if is_date yyyy mm dd then some base else none
    ]
  ]
]

-- `base-yyyymmdd` and `base@yyyymmdd`, and where neither fits, the dashed form.
unfoldable pub without_date : Bytes → Option Bytes
unfolding rsplit_once is_date
without_date name = elim (rsplit_once (λ b. b == 45 || b == 64) name) [
  | none ↦ without_dashed name
  | some (base, date) ↦
      if leb 6 (length date) && is_date (take 4 date) (take 2 (drop 4 date)) (drop 6 date)
      then some base
      else without_dashed name
]
