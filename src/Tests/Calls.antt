-- ===== src/Tests/Calls.antt =====
-- Runs of ssl_class.rs and pricing, and the theorems on them at concrete inputs.
use honeybeepf_llm.Prelude.{
  ℕ, ◌+◌, ◌-◌, ◌*◌, ◌≡◌, refl, Bool, true, false, leb, none, some, List, [], ◌∷◌, arith,
}
use honeybeepf_llm.SslClass.Entry.{new, class, born, low_byte, drops}
use honeybeepf_llm.SslClass.Spec.{Standing}
use honeybeepf_llm.SslClass.Refine.{Probe, wrote, was_read, after_calls, steps}
use honeybeepf_llm.SslClass.Drops.{dropped, class_of, drops-after_calls}
use honeybeepf_llm.Pricing.Types.{
  Floats, ok, UsageInfo, Prices, Rates, rates, absent, present, ModelPrices, Map,
}
use honeybeepf_llm.Pricing.Cost.{uncached_input, resolve, cost_on, on}
use honeybeepf_llm.Pricing.Dates.{here, onward, on-InForce}
use honeybeepf_llm.Pricing.Check.{check}
use honeybeepf_llm.Pricing.Dated.{InTime, on-check}
use honeybeepf_llm.Pricing.Billing.{
  WithinPrompt, uncached_input-WithinPrompt, Billed, cost_on-Billed,
}

-- `POST /v1`, a Read, then `GET /v1/`.
abbrev calls : List Probe
calls =
    wrote (80 ∷ 79 ∷ 83 ∷ 84 ∷ 32 ∷ 47 ∷ 118 ∷ 49 ∷ []) 200 false
    ∷ was_read
    ∷ wrote (71 ∷ 69 ∷ 84 ∷ 32 ∷ 47 ∷ 118 ∷ 49 ∷ 47 ∷ []) 90 false
    ∷ []

dropped_last : dropped (steps Standing.fresh calls) ≡ true
unfolding steps
dropped_last = refl

drops-after_calls_example :
    (drops (after_calls (new 70000) calls) ≡ dropped (steps Standing.fresh calls))
    × (class (after_calls (new 70000) calls) ≡ class_of (steps Standing.fresh calls))
    × (born (after_calls (new 70000) calls) ≡ 70000 - low_byte 70000)
drops-after_calls_example = drops-after_calls 70000 calls (omega arith, (tt, (omega arith, tt)))

-- Whole numbers in place of f64.
abbrev whole : Floats ℕ
whole = record {
  zero_usd = 0;
  one = 1;
  of_tokens = λ n. n;
  times = λ a b. a * b;
  plus = λ a b. a + b;
  minus = λ a b. a - b;
  per_million = λ a. a;
  at_least_zero = λ a. a;
}

abbrev all_prices : Prices ℕ
all_prices = record {
  input = some 5;
  output = some 7;
  cache_read = some 1;
  cache_write = none;
  cache_write_long = none;
}

abbrev standard_rates : Rates ℕ
standard_rates = rates all_prices none absent none absent

abbrev models : Map (ModelPrices ℕ)
models =
    (
      109 ∷ [],
      record {
        standard = standard_rates;
        tiers = [];
        speed_factors = [];
        geo_factors = [];
        price_multiplier = 2;
      },
    )
    ∷ []

abbrev usage : UsageInfo
usage = record {
  prompt_tokens = 10;
  completion_tokens = 4;
  cache_read_tokens = some 3;
  cache_write_tokens = none;
  cache_write_long_ttl_tokens = none;
  model = some (109 ∷ []);
  service_tier = none;
  speed = none;
  inference_geo = none;
}

uncached_input-WithinPrompt_example : WithinPrompt usage (uncached_input usage)
uncached_input-WithinPrompt_example = uncached_input-WithinPrompt usage (omega arith)

found : resolve whole models usage 0 ≡ ok (standard_rates, 2)
unfolding resolve
found = refl

seven : uncached_input usage ≡ ok 7
unfolding uncached_input
seven = refl

cost_on-Billed_example : Billed whole all_prices 2 usage 7 (cost_on whole models usage 0)
cost_on-Billed_example = cost_on-Billed whole models usage 0 7 standard_rates 2 found seven

-- Up to day 10, then up to day 20, then the standard prices.
abbrev dated_rates : Rates ℕ
dated_rates =
    rates all_prices none absent (some 10)
      (present (rates all_prices (some 3) absent (some 20) (present standard_rates)))

on-InForce_example :
    on dated_rates 12 ≡ ok (rates all_prices (some 3) absent (some 20) (present standard_rates))
on-InForce_example = on-InForce {last = none} 12 (onward 10 tt here) (omega arith) (omega arith)

abbrev up_to_1000 : ℕ → Bool
up_to_1000 price = leb price 1000

dated_rates_checked : check up_to_1000 dated_rates ≡ none
unfolding check
dated_rates_checked = refl

on-check_example : InTime up_to_1000 none dated_rates 12 (on dated_rates 12)
on-check_example = on-check up_to_1000 dated_rates 12 dated_rates_checked
