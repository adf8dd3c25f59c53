-- ===== src/Pricing.antt =====
-- internal/pricing: the currencies, the price of a leg and the prices of a journey.
pub mod Currency
pub mod Fares
pub mod Totals
