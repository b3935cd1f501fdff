-- ===== src/Payments.antt =====
-- modules/payments: the payment of an order, its repository and use cases.
pub mod Payment
pub mod Repository
pub mod UseCases
