-- ===== src/Gorm/Reconciliation.antt =====
-- GormReconciliationRepository of internal/repository/gorm.go.
use go_hermes.Base.{List, [], ◌∷◌}
use go_hermes.Entity.{Wallet, Transaction, LedgerEntry}
use go_hermes.Store.{M, ReconciliationRepository}
use go_hermes.Gorm.Query.{Model, Direction, Query, no_clauses}
use go_hermes.Gorm.Session.{Gorm, Session, with_db}

-- ORDER BY created_at ASC, id ASC
abbrev pub oldest_first : Query
oldest_first = record no_clauses {
  order = ("created_at", Direction.asc) ∷ ("id", Direction.asc) ∷ [];
}

module _ (g : Gorm) (db : g.Handle) where
  unfoldable pub list_wallets : M (Session g) (List Wallet)
  unfolding with_db
  list_wallets = with_db g db λ h. g.find h oldest_first Model.wallets

  unfoldable pub list_transactions : M (Session g) (List Transaction)
  unfolding with_db
  list_transactions = with_db g db λ h. g.find h oldest_first Model.transactions

  unfoldable pub list_ledger_entries : M (Session g) (List LedgerEntry)
  unfolding with_db
  list_ledger_entries = with_db g db λ h. g.find h oldest_first Model.ledger_entries

  abbrev pub repository : ReconciliationRepository (Session g)
  repository = record {
    list_wallets = list_wallets;
    list_transactions = list_transactions;
    list_ledger_entries = list_ledger_entries;
  }
