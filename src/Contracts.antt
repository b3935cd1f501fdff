-- ===== src/Contracts.antt =====
-- modules/contracts: purchase requests and the contracts made from them.
pub mod PurchaseRequest
pub mod Contract
pub mod RequestRepository
pub mod ContractRepository
pub mod UseCases
