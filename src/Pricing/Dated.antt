-- ===== src/Pricing/Dated.antt =====
-- `Rates::on` of prices that passed `Rates::check`: the periods on the way follow each other.
use honeybeepf_llm.Prelude.{
  ℕ, ◌≡◌, inl, inr, refl, Bool, true, false, if◌then◌else◌, Bool-cases, Option, none, some, arith,
  ltb, ltb→lt, ltb→ge, leb→gt,
}
use honeybeepf_llm.Pricing.Types.{
  Unpriced, Priced, ok, err, Prices, Rates, rates, MaybeRates, absent, present,
}
use honeybeepf_llm.Pricing.Cost.{on}
use honeybeepf_llm.Pricing.Check.{
  Unusable, check, check_above, check_next, or_else, until_of, not_after, prices_fit,
}
use honeybeepf_llm.Pricing.Dates.{After, InForce, Leads, here, onward}

-- Every last day given is after the one before.
abbrev Upcoming : Option ℕ → Option ℕ → Type 0
Upcoming last none = Unit
Upcoming last (some until) = After last until

next_unfaulted :
    (fits : Bool) (x y : Option Unusable) (why : Unusable)
    → (if fits then or_else x y else some why) ≡ none
    → y ≡ none
next_unfaulted true none y why h = h
next_unfaulted true (some x) y why h = ground arith
next_unfaulted false x y why h = ground arith

unfaulted_branch :
    (b : Bool) (x : Option Unusable) (why : Unusable)
    → (if b then some why else x) ≡ none
    → (b ≡ false) × (x ≡ none)
unfaulted_branch true x why h = ground arith
unfaulted_branch false x why h = (refl, h)

upcoming :
    (later : Option ℕ) (until : ℕ) → not_after later until ≡ false → Upcoming (some until) later
upcoming none until h = tt
upcoming (some later) until h = leb→gt later until h

module _ {F : Type 0} (in_range : F → Bool) where
  -- The prices of the period that holds the day, or none is left.
  abbrev pub InTime : Option ℕ → Rates F → ℕ → Priced (Rates F) → Type 0
  InTime last r day (ok r') =
      (last' : Option ℕ) × (Leads last r last' r' × (After last' day × InForce r' day))
  InTime last r day (err why) = why ≡ Unpriced.missing_price

  next_checked :
      (p : Prices F) (limit : Option ℕ) (above : MaybeRates F) (until : Option ℕ)
      (next : MaybeRates F)
      → check in_range (rates p limit above until next) ≡ none
      → check_next in_range until next ≡ none
  unfolding check
  next_checked p limit above until next h =
      next_unfaulted (prices_fit in_range p) (check_above in_range limit above)
        (check_next in_range until next) Unusable.price_out_of_range h

  then_checked :
      (until : ℕ) (r : Rates F)
      → check_next in_range (some until) (present r) ≡ none
      → (not_after (until_of r) until ≡ false) × (check in_range r ≡ none)
  unfolding check_next
  then_checked until r h =
      unfaulted_branch (not_after (until_of r) until) (check in_range r)
        Unusable.dates_must_increase h

  one_later :
      (last : Option ℕ) (p : Prices F) (limit : Option ℕ) (above : MaybeRates F) (until : ℕ)
      (r : Rates F) (day : ℕ)
      → After last until
      → (found : Priced (Rates F)) → InTime (some until) r day found
      → InTime last (rates p limit above (some until) (present r)) day found
  one_later last p limit above until r day first (ok r') (last', (leads, rest)) =
      (last', (onward until first leads, rest))
  one_later last p limit above until r day first (err why) h = h

  in_time :
      (last : Option ℕ) (r : Rates F) (day : ℕ)
      → Upcoming last (until_of r)
      → After last day
      → check in_range r ≡ none
      → InTime last r day (on r day)
  unfolding on
  in_time last (rates p limit above none next) day first after h = (last, (here, (after, tt)))
  in_time last (rates p limit above (some until) absent) day first after h =
      elim (Bool-cases (ltb until day)) [
        | inl past ↦ rw past refl
        | inr held ↦ rw held (last, (here, (after, ltb→ge until day held)))
      ]
  in_time last (rates p limit above (some until) (present r)) day first after h =
      elim (Bool-cases (ltb until day)) [
        | inl past ↦
            let checked =
              then_checked until r (next_checked p limit above (some until) (present r) h) in
            rw past (
              one_later last p limit above until r day first (on r day) (
                in_time (some until) r day (upcoming (until_of r) until checked.0)
                  (ltb→lt until day past) checked.1))
        | inr held ↦ rw held (last, (here, (after, ltb→ge until day held)))
      ]

  first-Upcoming : (until : Option ℕ) → Upcoming none until
  first-Upcoming none = tt
  first-Upcoming (some until) = tt

  -- For prices in which `check` finds no fault, whatever it takes for a price in range, `on`
  -- returns prices that the chain of dated prices leads to with last days that increase on the
  -- way, for a day past the last day of the period before and up to that of their own period;
  -- otherwise the reason is a missing price.
  pub on-check : (r : Rates F) (day : ℕ) → check in_range r ≡ none → InTime none r day (on r day)
  on-check r day h = in_time none r day (first-Upcoming (until_of r)) tt h
