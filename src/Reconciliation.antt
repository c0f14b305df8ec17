-- ===== src/Reconciliation.antt =====
-- Reconciliation: internal/usecase/reconciliation.go.
pub mod Report
pub mod Entry
pub mod Order
pub mod Check
pub mod Run
