-- ===== src/Orders.antt =====
-- modules/orders: orders, their status machine, their repository and use cases.
pub mod Status
pub mod Order
pub mod Repository
pub mod UseCases
