-- ===== src/Reconciliation/Report.antt =====
-- The issues and the report of a reconciliation: internal/usecase/types.go.
use go_hermes.Base.{ℕ, String, Bool, List}
use go_hermes.Base.Int.{ℤ}
use go_hermes.Entity.{Time}

pub record WalletIssue : Type 0 where
  pub wallet_id : String
  pub user_id : String
  pub stored_balance : ℤ
  pub derived_balance : ℤ
  pub ledger_entry_count : ℕ
  pub reason : String

pub record TransactionIssue : Type 0 where
  pub transaction_id : String
  pub transaction_ref : String
  pub type : String
  pub amount : ℤ
  pub ledger_entry_ids : List String
  pub reason : String

pub record LedgerIssue : Type 0 where
  pub ledger_entry_id : String
  pub transaction_id : String
  pub wallet_id : String
  pub reason : String

pub record Summary : Type 0 where
  pub wallets_checked : ℕ
  pub transactions_checked : ℕ
  pub ledger_entries_checked : ℕ
  pub wallet_balance_mismatch_count : ℕ
  pub transaction_issue_count : ℕ
  pub ledger_issue_count : ℕ
  pub issue_count : ℕ

pub record Report : Type 0 where
  pub checked_at : Time
  pub healthy : Bool
  pub summary : Summary
  pub wallets : List WalletIssue
  pub transactions : List TransactionIssue
  pub ledger_entries : List LedgerIssue
