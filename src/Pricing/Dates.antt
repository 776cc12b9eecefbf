-- ===== src/Pricing/Dates.antt =====
-- `Rates::on` of prices whose last days increase: the prices of the period that holds the day.
use honeybeepf_llm.Prelude.{ℕ, ◌<◌, ◌≤◌, ◌≡◌, refl, Option, none, some, arith, ge→ltb, lt→ltb}
use honeybeepf_llm.Pricing.Types.{ok, Prices, Rates, rates, MaybeRates, present}
use honeybeepf_llm.Pricing.Cost.{on}

-- After the last day of the period before, if there is one.
abbrev pub After : Option ℕ → ℕ → Type 0
After none day = Unit
After (some last) day = last < day

module _ {F : Type 0} where
  -- Up to the last day of these prices, if they have one.
  abbrev pub InForce : Rates F → ℕ → Type 0
  InForce (rates p limit above none next) day = Unit
  InForce (rates p limit above (some until) next) day = day ≤ until

  -- From prices that follow a last day, `then` leads to others, and last days increase on the way.
  pub data Leads : Option ℕ → Rates F → Option ℕ → Rates F → Type 0 where
    here : {last : Option ℕ} {r : Rates F} → Leads last r last r
    onward :
        {last last' : Option ℕ} {p : Prices F} {limit : Option ℕ} {above : MaybeRates F}
        {r r' : Rates F} (until : ℕ)
        → After last until
        → Leads (some until) r last' r'
        → Leads last (rates p limit above (some until) (present r)) last' r'

  in_force : (r : Rates F) (day : ℕ) → InForce r day → on r day ≡ ok r
  unfolding on
  in_force (rates p limit above none next) day h = refl
  in_force (rates p limit above (some until) next) day h = rw (ge→ltb until day h) refl

  -- A day in a later period is past the last day of every period before.
  later_day :
      {last' : Option ℕ} {r r' : Rates F} (until day : ℕ)
      → Leads (some until) r last' r'
      → After last' day
      → until < day
  later_day until day here h = h
  later_day until day (onward until' lt leads) h = omega (arith, later_day until' day leads h)

  -- Where the last days along a chain of dated prices increase, `on` returns the prices of the
  -- period that holds the day: past the last day of the period before, and up to the period's own
  -- last day if it has one.
  pub on-InForce :
      {last last' : Option ℕ} {r r' : Rates F} (day : ℕ)
      → Leads last r last' r'
      → After last' day
      → InForce r' day
      → on r day ≡ ok r'
  unfolding on
  on-InForce {r' = r'} day here after h = in_force r' day h
  on-InForce day (onward until lt leads) after h =
      rw (lt→ltb until day (later_day until day leads after)) (on-InForce day leads after h)
