-- ===== src/Pricing.antt =====
-- honeybeepf-llm/honeybeepf-llm-core/src/pricing: the cost of one call from its usage.
pub mod Types
pub mod ModelName
pub mod Cost
pub mod Billing
pub mod Check
pub mod Dated
pub mod Dates
