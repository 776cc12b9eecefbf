-- ===== src/Pricing/Billing.antt =====
-- A call's tokens are each billed once, and a cost is given only with every price that it needs.
use honeybeepf_llm.Prelude.{
  ℕ, zero, suc, ◌+◌, ◌-◌, ◌^◌, ◌<◌, ◌≡◌, refl, ◌⊎◌, inl, inr, true, ◌&&◌, Option, none, some, ltb,
  leb, is_some, arith, Bool-cases,
}
use honeybeepf_llm.Pricing.Types.{
  Floats, Unpriced, Priced, ok, err, unwrap_or, Map, UsageInfo, Prices, Rates, ModelPrices, Cost,
}
use honeybeepf_llm.Pricing.Cost.{
  uncached_input, prices_of, resolve, price, usd, long_writes, cost_at, cost_on,
}

abbrev pub WithinPrompt : UsageInfo → Priced ℕ → Type 0
WithinPrompt usage (ok uncached) =
    uncached + unwrap_or 0 usage.cache_read_tokens + unwrap_or 0 usage.cache_write_tokens
    ≡ usage.prompt_tokens
WithinPrompt usage (err why) =
    (why ≡ Unpriced.inconsistent_usage)
    × (usage.prompt_tokens
        < unwrap_or 0 usage.cache_read_tokens + unwrap_or 0 usage.cache_write_tokens)

-- Where the prompt count is a 64-bit number, the uncached count is given exactly when cache reads
-- and writes fit in the prompt, and then makes up the prompt together with them; otherwise the
-- usage is reported as inconsistent.
pub uncached_input-WithinPrompt :
    (usage : UsageInfo) → usage.prompt_tokens < 2 ^ 64 → WithinPrompt usage (uncached_input usage)
unfolding uncached_input
uncached_input-WithinPrompt usage h =
    let read = unwrap_or 0 usage.cache_read_tokens in
    let write = unwrap_or 0 usage.cache_write_tokens in
    elim (Bool-cases (ltb (read + write) (2 ^ 64) && leb (read + write) usage.prompt_tokens)) [
      | inl e ↦ rw e (ground arith)
      | inr e ↦ rw e (refl, ground arith)
    ]

module _ {F : Type 0} (f : Floats F) where
  -- The charge for tokens at a rate; nothing for no tokens.
  abbrev pub amount : F → ℕ → Option F → F
  amount factor zero rate = f.zero_usd
  amount factor (suc n) none = f.zero_usd
  amount factor (suc n) (some rate) = usd f (suc n) rate factor

  -- Tokens with a price, where there are any.
  abbrev pub Known : ℕ → Option F → Type 0
  Known tokens rate = 0 < tokens → is_some rate ≡ true

  abbrev pub Lacks : ℕ → Option F → Type 0
  Lacks tokens rate = (0 < tokens) × (rate ≡ none)

  abbrev Priceable : F → ℕ → Option F → Type 0
  Priceable factor tokens rate =
      ((price f factor tokens rate ≡ ok (amount factor tokens rate)) × Known tokens rate)
      ⊎ ((price f factor tokens rate ≡ err Unpriced.missing_price) × Lacks tokens rate)

  priceable : (factor : F) (tokens : ℕ) (rate : Option F) → Priceable factor tokens rate
  priceable factor zero rate = inl (refl, λ h. absurd (omega arith))
  priceable factor (suc n) none = inr (refl, (omega arith, refl))
  priceable factor (suc n) (some rate) = inl (refl, λ h. refl)

  -- A cost has every price that it needs and each category's charge; a refusal lacks a price.
  abbrev pub Billed : Prices F → F → UsageInfo → ℕ → Priced (Cost F) → Type 0
  Billed p factor usage uncached (ok c) =
      let read = unwrap_or 0 usage.cache_read_tokens in
      let long = long_writes f usage in
      let short = unwrap_or 0 usage.cache_write_tokens - long in
      (Known uncached p.input
        × Known read p.cache_read
        × Known short p.cache_write
        × Known long p.cache_write_long
        × Known usage.completion_tokens p.output)
      × (c.input_usd ≡ amount factor uncached p.input)
      × (c.cache_read_usd ≡ amount factor read p.cache_read)
      × (c.cache_write_usd
          ≡ f.plus (amount factor short p.cache_write) (amount factor long p.cache_write_long))
      × (c.output_usd ≡ amount factor usage.completion_tokens p.output)
  Billed p factor usage uncached (err why) =
      let read = unwrap_or 0 usage.cache_read_tokens in
      let long = long_writes f usage in
      let short = unwrap_or 0 usage.cache_write_tokens - long in
      (why ≡ Unpriced.missing_price)
      × (Lacks uncached p.input
          ⊎ (Lacks read p.cache_read
              ⊎ (Lacks short p.cache_write
                  ⊎ (Lacks long p.cache_write_long ⊎ Lacks usage.completion_tokens p.output))))

  cost_at-Billed :
      (p : Prices F) (factor : F) (usage : UsageInfo) (uncached : ℕ)
      → Billed p factor usage uncached (cost_at f p factor usage uncached)
  cost_at-Billed p factor usage uncached =
      let read = unwrap_or 0 usage.cache_read_tokens in
      let long = long_writes f usage in
      let short = unwrap_or 0 usage.cache_write_tokens - long in
      elim (priceable factor uncached p.input) [
        | inr (e, l) ↦ rw e (refl, inl l)
        | inl (e1, k1) ↦ rw e1 (elim (priceable factor read p.cache_read) [
          | inr (e, l) ↦ rw e (refl, inr (inl l))
          | inl (e2, k2) ↦ rw e2 (elim (priceable factor short p.cache_write) [
            | inr (e, l) ↦ rw e (refl, inr (inr (inl l)))
            | inl (e3, k3) ↦ rw e3 (elim (priceable factor long p.cache_write_long) [
              | inr (e, l) ↦ rw e (refl, inr (inr (inr (inl l))))
              | inl (e4, k4) ↦ rw e4 (elim (priceable factor usage.completion_tokens p.output) [
                | inr (e, l) ↦ rw e (refl, inr (inr (inr (inr l))))
                | inl (e5, k5) ↦ rw e5 ((k1, k2, k3, k4, k5), refl, refl, refl, refl)
              ])
            ])
          ])
        ])
      ]

  -- Where the rates, the factor and the uncached count of a call are known, a cost is given only
  -- if every category with tokens has a price, and is then the charge of uncached input, cache
  -- reads, short and long cache writes, and output, each at its own price; without a cost, the
  -- reason is a missing price and a category with tokens lacks its price.
  pub cost_on-Billed :
      (models : Map (ModelPrices F)) (usage : UsageInfo) (day uncached : ℕ) (r : Rates F)
      (factor : F)
      → resolve f models usage day ≡ ok (r, factor)
      → uncached_input usage ≡ ok uncached
      → Billed (prices_of r) factor usage uncached (cost_on f models usage day)
  unfolding cost_on
  cost_on-Billed models usage day uncached r factor e u =
      rw (e, u) (cost_at-Billed (prices_of r) factor usage uncached)
