-- ===== src/Gorm.antt =====
-- internal/repository/gorm.go: the repositories over gorm.
pub mod Query
pub mod Session
pub mod Handles
pub mod Within
pub mod Page
pub mod Users
pub mod Wallets
pub mod Transactions
pub mod Ledgers
pub mod Idempotency
pub mod Audits
pub mod Reconciliation
pub mod Webhooks
pub mod Repositories
pub mod Semantics
pub mod Laws
pub mod Locking
pub mod Statements
pub mod StoreLaws
pub mod AccountLaws
pub mod WorkerLaws
pub mod Refines
pub mod Listing
pub mod Access
pub mod Reads
pub mod Due
