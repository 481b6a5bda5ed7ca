-- ===== src/Pricing.antt =====
-- pricing.go: rate tables, the price of usage, and the store that resolves rates.
pub mod Rates
pub mod Store
