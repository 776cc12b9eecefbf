-- ===== src/Pricing/Cost.antt =====
-- pricing/mod.rs: the rates of a call and its cost.
use honeybeepf_llm.Prelude.{
  ℕ, zero, suc, ◌+◌, ◌-◌, ◌^◌, Bool, true, false, ◌&&◌, ◌||◌, Option, none, some, [], ◌∷◌, Bytes,
  bytes_eq, ltb, leb, if◌then◌else◌, min,
}
use honeybeepf_llm.Pricing.Types.{
  Floats, Unpriced, Priced, ok, err, then_with, ok_or, unwrap_or, Map, lookup, UsageInfo, Prices,
  Rates, rates, MaybeRates, absent, present, ModelPrices, Cost,
}
use honeybeepf_llm.Pricing.ModelName.{without_date}

-- `checked_add` of 64-bit counts, then `checked_sub`.
unfoldable pub uncached_input : UsageInfo → Priced ℕ
uncached_input usage =
    let read = unwrap_or 0 usage.cache_read_tokens in
    let write = unwrap_or 0 usage.cache_write_tokens in
    if ltb (read + write) (2 ^ 64) && leb (read + write) usage.prompt_tokens
    then ok (usage.prompt_tokens - (read + write))
    else err Unpriced.inconsistent_usage

module _ {F : Type 0} where
  abbrev pub prices_of : Rates F → Prices F
  prices_of (rates p limit above until next) = p

  abbrev pub above_tokens : Rates F → Option ℕ
  above_tokens (rates p limit above until next) = limit

  abbrev pub above_of : Rates F → MaybeRates F
  above_of (rates p limit above until next) = above

  abbrev pub some_rates : MaybeRates F → Priced (Rates F)
  some_rates absent = err Unpriced.missing_price
  some_rates (present r) = ok r

unfoldable mutual
  -- `Rates::on`: each round of its loop goes to `then`.
  pub on : {F : Type 0} → Rates F → ℕ → Priced (Rates F)
  on (rates p limit above none next) day = ok (rates p limit above none next)
  on (rates p limit above (some until) next) day =
      let later = then_on next day in
      if ltb until day then later else ok (rates p limit above (some until) next)

  pub then_on : {F : Type 0} → MaybeRates F → ℕ → Priced (Rates F)
  then_on absent day = err Unpriced.missing_price
  then_on (present r) day = on r day

abbrev pub default_tier : Bytes
default_tier = 100 ∷ 101 ∷ 102 ∷ 97 ∷ 117 ∷ 108 ∷ 116 ∷ []

abbrev pub auto_tier : Bytes
auto_tier = 97 ∷ 117 ∷ 116 ∷ 111 ∷ []

-- The tier and the neutral speed.
abbrev pub standard_name : Bytes
standard_name = 115 ∷ 116 ∷ 97 ∷ 110 ∷ 100 ∷ 97 ∷ 114 ∷ 100 ∷ []

abbrev pub fast_tier : Bytes
fast_tier = 102 ∷ 97 ∷ 115 ∷ 116 ∷ []

abbrev pub priority_tier : Bytes
priority_tier = 112 ∷ 114 ∷ 105 ∷ 111 ∷ 114 ∷ 105 ∷ 116 ∷ 121 ∷ []

-- The neutral geography.
abbrev pub global_name : Bytes
global_name = 103 ∷ 108 ∷ 111 ∷ 98 ∷ 97 ∷ 108 ∷ []

module _ {F : Type 0} (f : Floats F) where
  abbrev pub multiplier : Map F → Option Bytes → Bytes → Priced F
  multiplier map none neutral = ok f.one
  multiplier map (some v) neutral =
      if bytes_eq v neutral then ok f.one else ok_or Unpriced.unsupported_modifier (lookup map v)

  abbrev pub tier_rates : ModelPrices F → Option Bytes → Option (Rates F)
  tier_rates model none = some model.standard
  tier_rates model (some tier) =
      if bytes_eq tier default_tier || bytes_eq tier auto_tier || bytes_eq tier standard_name
      then some model.standard
      else if bytes_eq tier fast_tier
      then lookup model.tiers priority_tier
      else lookup model.tiers tier

  -- `models.get(name)`, or the name without its date.
  abbrev pub find_model : Map (ModelPrices F) → Bytes → Option (ModelPrices F)
  find_model models name = elim (lookup models name) [
    | some model ↦ some model
    | none ↦ elim (without_date name) [ none ↦ none | some base ↦ lookup models base ]
  ]

  -- A tier without its own threshold has the standard one.
  abbrev pub limit_of : ModelPrices F → Rates F → ℕ → Priced (Option ℕ)
  limit_of model r day = elim (above_tokens r) [
    | some limit ↦ ok (some limit)
    | none ↦ then_with (on model.standard day) (λ s. ok (above_tokens s))
  ]

  abbrev pub sized_rates : Option ℕ → ℕ → Rates F → Priced (Rates F)
  sized_rates none tokens r = ok r
  sized_rates (some limit) tokens r = if ltb limit tokens then some_rates (above_of r) else ok r

  abbrev pub factor_of : ModelPrices F → UsageInfo → Priced F
  factor_of model usage = then_with (multiplier model.speed_factors usage.speed standard_name) (λ s.
      then_with (multiplier model.geo_factors usage.inference_geo global_name)
        (λ g. ok (f.times (f.times model.price_multiplier s) g)))

  abbrev pub rates_of : ModelPrices F → UsageInfo → ℕ → Priced (Rates F)
  rates_of model usage day =
      then_with (ok_or Unpriced.unsupported_modifier (tier_rates model usage.service_tier)) (λ tier.
        then_with (on tier day) (λ r.
          then_with (limit_of model r day) (λ limit. sized_rates limit usage.prompt_tokens r)))

  unfoldable pub resolve : Map (ModelPrices F) → UsageInfo → ℕ → Priced (Rates F × F)
  unfolding on without_date
  resolve models usage day = then_with (ok_or Unpriced.unknown_model usage.model) (λ name.
      then_with (ok_or Unpriced.unknown_model (find_model models name)) (λ model.
        then_with (rates_of model usage day)
          (λ r. then_with (factor_of model usage) (λ factor. ok (r, factor)))))

  abbrev pub usd : ℕ → F → F → F
  usd tokens rate factor = f.per_million (f.times (f.times (f.of_tokens tokens) rate) factor)

  -- The closure `price`.
  abbrev pub price : F → ℕ → Option F → Priced F
  price factor zero rate = ok f.zero_usd
  price factor (suc n) (some rate) = ok (usd (suc n) rate factor)
  price factor (suc n) none = err Unpriced.missing_price

  abbrev pub long_writes : UsageInfo → ℕ
  long_writes usage =
      min (unwrap_or 0 usage.cache_write_long_ttl_tokens) (unwrap_or 0 usage.cache_write_tokens)

  abbrev pub cost_at : Prices F → F → UsageInfo → ℕ → Priced (Cost F)
  cost_at p factor usage uncached =
      let long = long_writes usage in
      let write = unwrap_or 0 usage.cache_write_tokens in
      then_with (price factor uncached p.input) (λ input.
        then_with (price factor (unwrap_or 0 usage.cache_read_tokens) p.cache_read) (λ read.
          then_with (price factor (write - long) p.cache_write) (λ short_usd.
            then_with (price factor long p.cache_write_long) (λ long_usd.
              then_with (price factor usage.completion_tokens p.output) (λ output. ok (record {
                input_usd = input;
                cache_read_usd = read;
                cache_write_usd = f.plus short_usd long_usd;
                output_usd = output;
              }))))))

  unfoldable pub cost_on : Map (ModelPrices F) → UsageInfo → ℕ → Priced (Cost F)
  unfolding resolve uncached_input
  cost_on models usage day =
      then_with (resolve models usage day)
        (λ found. then_with (uncached_input usage) (cost_at (prices_of found.0) found.1 usage))

  abbrev pub ceiling : Prices F → F → ℕ → Priced (F × Bool)
  ceiling p factor uncached = then_with (ok_or Unpriced.missing_price p.input) (λ input.
      elim p.cache_read [
        | some cache_read ↦ ok (
          f.at_least_zero (f.minus (usd uncached input factor) (usd uncached cache_read factor)),
          true,
        )
        | none ↦ ok (usd uncached input factor, false)
      ])

  unfoldable pub cache_savings_ceiling_on : Map (ModelPrices F) → UsageInfo → ℕ → Priced (F × Bool)
  unfolding resolve uncached_input
  cache_savings_ceiling_on models usage day =
      then_with (resolve models usage day)
        (λ found. then_with (uncached_input usage) (ceiling (prices_of found.0) found.1))
