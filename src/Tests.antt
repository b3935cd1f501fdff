-- ===== src/Tests.antt =====
-- Concrete runs of the code, and the theorems applied to them.
pub mod Data
mod Sums
mod Values
mod Commerce
mod Payments
mod Orders
mod Contracts
mod Reviews
mod Products
