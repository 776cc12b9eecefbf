-- ===== src/Pricing/Check.antt =====
-- pricing/table.rs: the checks that `Rates::check` makes of prices as written.
use honeybeepf_llm.Prelude.{
  ℕ, Bool, true, false, ◌&&◌, ◌||◌, Option, none, some, leb, if◌then◌else◌,
}
use honeybeepf_llm.Pricing.Types.{Prices, Rates, rates, MaybeRates, absent, present}

-- The messages of the errors.
pub data Unusable : Type 0 where
  price_out_of_range above_needs_above_tokens above_has_own_threshold_or_dates : Unusable
  then_needs_until dates_must_increase : Unusable

abbrev pub is_given {ℓ} : {A : Type ℓ} → Option A → Bool
is_given none = false
is_given (some x) = true

-- What a check found, or else what the next one finds.
abbrev pub or_else : Option Unusable → Option Unusable → Option Unusable
or_else none next = next
or_else (some why) next = some why

abbrev pub not_after : Option ℕ → ℕ → Bool
not_after none until = false
not_after (some later) until = leb later until

module _ {F : Type 0} where
  abbrev pub is_present : MaybeRates F → Bool
  is_present absent = false
  is_present (present r) = true

  abbrev pub until_of : Rates F → Option ℕ
  until_of (rates p limit above until next) = until

  -- `in_range` stands for the comparison of an f64 with 0 and `MAX_PRICE`.
  abbrev pub price_fits : (F → Bool) → Option F → Bool
  price_fits in_range none = true
  price_fits in_range (some p) = in_range p

  abbrev pub prices_fit : (F → Bool) → Prices F → Bool
  prices_fit in_range p =
      price_fits in_range p.input
      && (price_fits in_range p.output
          && (price_fits in_range p.cache_read
              && (price_fits in_range p.cache_write && price_fits in_range p.cache_write_long)))

  -- Does `above` have a threshold or dates of its own?
  abbrev pub has_own : Rates F → Bool
  has_own (rates p limit above until next) =
      (is_given limit || is_present above) || (is_given until || is_present next)

unfoldable mutual
  -- The reason against the prices, if there is one.
  pub check : {F : Type 0} → (F → Bool) → Rates F → Option Unusable
  check in_range (rates p limit above until next) =
      let own_above = check_above in_range limit above in
      let own_next = check_next in_range until next in
      if prices_fit in_range p then or_else own_above own_next else some Unusable.price_out_of_range

  pub check_above : {F : Type 0} → (F → Bool) → Option ℕ → MaybeRates F → Option Unusable
  check_above in_range limit absent = none
  check_above in_range none (present above) = some Unusable.above_needs_above_tokens
  check_above in_range (some limit) (present above) =
      let inner = check in_range above in
      if has_own above then some Unusable.above_has_own_threshold_or_dates else inner

  pub check_next : {F : Type 0} → (F → Bool) → Option ℕ → MaybeRates F → Option Unusable
  check_next in_range until absent = none
  check_next in_range none (present next) = some Unusable.then_needs_until
  check_next in_range (some until) (present next) =
      let inner = check in_range next in
      if not_after (until_of next) until then some Unusable.dates_must_increase else inner
