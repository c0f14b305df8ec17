-- ===== src/TransactionUsecase.antt =====
-- Money movement: internal/usecase/transaction.go.
pub mod Common
pub mod TopUp
pub mod Transfer
pub mod Queries
