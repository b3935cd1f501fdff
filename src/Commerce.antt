-- ===== src/Commerce.antt =====
-- modules/commerce: values, idempotent operations, fingerprints.
pub mod MoneyVnd
pub mod Quantity
pub mod Operations
pub mod Fingerprint
