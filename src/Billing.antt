-- ===== src/Billing.antt =====
-- Subscriptions, entitlements and quotas of swx_core/services/billing.
pub mod Model
pub mod Subscriptions
pub mod Stripe
pub mod Counting
pub mod Single
pub mod History
pub mod Entitlements
pub mod Usage
pub mod Resets
mod Tests
