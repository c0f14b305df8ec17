-- ===== src/Gorm/Repositories.antt =====
-- The repositories of internal/repository/gorm.go together, on one connection.
use go_hermes.Store.{Repositories}
use go_hermes.UuidLib.{UuidLib}
use go_hermes.Gorm.Session.{Gorm, Session, transaction_manager}
use go_hermes.Gorm.Users
use go_hermes.Gorm.Wallets
use go_hermes.Gorm.Transactions
use go_hermes.Gorm.Ledgers
use go_hermes.Gorm.Idempotency
use go_hermes.Gorm.Audits
use go_hermes.Gorm.Reconciliation
use go_hermes.Gorm.Webhooks

abbrev pub gorm_repositories : (g : Gorm) → UuidLib → g.Handle → Repositories
gorm_repositories g u db = record {
  Db = Session g;
  tx = transaction_manager g db;
  users = Users.repository g db;
  wallets = Wallets.repository g u db;
  transactions = Transactions.repository g db;
  ledgers = Ledgers.repository g db;
  idempotency = Idempotency.repository g db;
  audits = Audits.repository g db;
  health = Audits.health_repository g db;
  reconciliation = Reconciliation.repository g db;
  webhooks = Webhooks.repository g db;
}
