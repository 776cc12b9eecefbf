-- ===== src/Pricing/Types.antt =====
-- pricing/mod.rs, pricing/table.rs and types.rs: prices, models and the usage of a call. Numbers of type
-- f64 are a parameter: `F`, with the operations of `Floats`.
use honeybeepf_llm.Prelude.{ℕ, Option, none, some, List, [], ◌∷◌, Bytes, bytes_eq, if◌then◌else◌}

-- What the pricing code does with f64 values.
pub record Floats (F : Type 0) : Type 0 where
  pub zero_usd : F
  pub one : F
  pub of_tokens : ℕ → F
  pub times : F → F → F
  pub plus : F → F → F
  pub minus : F → F → F
  pub per_million : F → F
  pub at_least_zero : F → F

pub data Unpriced : Type 0 where
  unknown_model missing_price unsupported_modifier inconsistent_usage : Unpriced

pub data Priced {ℓ} (A : Type ℓ) : Type ℓ where
  ok : A → Priced A
  err : Unpriced → Priced A

abbrev pub then_with {ℓ κ} : {A : Type ℓ} {B : Type κ} → Priced A → (A → Priced B) → Priced B
then_with (ok x) f = f x
then_with (err why) f = err why

abbrev pub ok_or {ℓ} : {A : Type ℓ} → Unpriced → Option A → Priced A
ok_or why none = err why
ok_or why (some x) = ok x

abbrev pub unwrap_or {ℓ} : {A : Type ℓ} → A → Option A → A
unwrap_or d none = d
unwrap_or d (some x) = x

-- A map with text for keys.
abbrev pub Map {ℓ} : Type ℓ → Type ℓ
Map A = List (Bytes × A)

abbrev pub lookup {ℓ} : {A : Type ℓ} → Map A → Bytes → Option A
lookup [] key = none
lookup ((k, v) ∷ rest) key = let later = lookup rest key in if bytes_eq k key then some v else later

-- `UsageInfo`, the fields that pricing reads.
pub record UsageInfo : Type 0 where
  pub prompt_tokens : ℕ
  pub completion_tokens : ℕ
  pub cache_read_tokens : Option ℕ
  pub cache_write_tokens : Option ℕ
  pub cache_write_long_ttl_tokens : Option ℕ
  pub model : Option Bytes
  pub service_tier : Option Bytes
  pub speed : Option Bytes
  pub inference_geo : Option Bytes

module _ (F : Type 0) where
  pub record Prices : Type 0 where
    pub input : Option F
    pub output : Option F
    pub cache_read : Option F
    pub cache_write : Option F
    pub cache_write_long : Option F

  mutual
    -- The prices, `above_tokens`, `above`, `until` and `then`.
    pub data Rates : Type 0 where
      rates : Prices → Option ℕ → MaybeRates → Option ℕ → MaybeRates → Rates

    pub data MaybeRates : Type 0 where
      absent : MaybeRates
      present : Rates → MaybeRates

  pub record ModelPrices : Type 0 where
    pub standard : Rates
    pub tiers : Map Rates
    pub speed_factors : Map F
    pub geo_factors : Map F
    pub price_multiplier : F

  pub record Cost : Type 0 where
    pub input_usd : F
    pub cache_read_usd : F
    pub cache_write_usd : F
    pub output_usd : F
