-- ===== src/Store.antt =====
-- The repositories of internal/repository/interfaces.go, as records of operations over an abstract
-- database state. PostgreSQL and gorm stand behind them: what the code relies on is Store/Laws.
-- A pointer argument that the database layer stamps comes back as part of the result.
mod Monad
pub mod View
pub mod Calls
pub mod Laws
pub mod Deliveries
pub mod Wallets
pub mod Validity
unfoldable pub use Monad.*
use go_hermes.Base.{ℕ, String, Bool, List}
use go_hermes.Base.Int.{ℤ}
use go_hermes.Json.{Json}
use go_hermes.Pagination.{Params}
use go_hermes.Entity.{
  Uuid, Time, User, Wallet, Transaction, LedgerEntry, IdempotencyRecord, AuditLog, WebhookDelivery,
}

pub record TransactionManager (Db : Type 0) : Type 1 where
  pub within_transaction : (A : Type 0) → M Db A → M Db A

pub record UserRepository (Db : Type 0) : Type 0 where
  pub create : User → M Db User
  pub get_by_email : String → M Db User
  pub get_by_id : Uuid → M Db User

pub record WalletRepository (Db : Type 0) : Type 0 where
  pub create : Wallet → M Db Wallet
  pub get_by_user_id : Uuid → M Db Wallet
  pub get_by_id : Uuid → M Db Wallet
  pub lock_by_ids : List Uuid → M Db (List Wallet)
  pub update : Wallet → M Db Wallet

pub record TransactionRepository (Db : Type 0) : Type 0 where
  pub create : Transaction → M Db Transaction
  pub get_by_id : Uuid → M Db Transaction
  pub list_by_user : Uuid → Params → M Db (List Transaction × ℤ)
  pub get_by_id_for_user : Uuid → Uuid → M Db Transaction
  pub list_all : Params → M Db (List Transaction × ℤ)

pub record LedgerRepository (Db : Type 0) : Type 0 where
  pub create_many : List LedgerEntry → M Db (Unit {0})
  pub list_by_user : Uuid → Params → M Db (List LedgerEntry × ℤ)
  pub list_by_transaction_for_user : Uuid → Uuid → M Db (List LedgerEntry)

pub record IdempotencyRepository (Db : Type 0) : Type 0 where
  pub reserve : IdempotencyRecord → M Db Bool
  pub get : String → Uuid → String → M Db IdempotencyRecord
  pub mark_completed : Uuid → ℕ → Json → M Db (Unit {0})

pub record AuditLogRepository (Db : Type 0) : Type 0 where
  pub create : AuditLog → M Db (Unit {0})
  pub list : Params → M Db (List AuditLog × ℤ)

pub record HealthRepository (Db : Type 0) : Type 0 where
  pub ping : M Db (Unit {0})

pub record ReconciliationRepository (Db : Type 0) : Type 0 where
  pub list_wallets : M Db (List Wallet)
  pub list_transactions : M Db (List Transaction)
  pub list_ledger_entries : M Db (List LedgerEntry)

pub record WebhookDeliveryFilter : Type 0 where
  pub event_type : String
  pub status : String
  pub transaction_ref : String

pub record WebhookDeliveryRepository (Db : Type 0) : Type 0 where
  pub create : WebhookDelivery → M Db WebhookDelivery
  pub update : WebhookDelivery → M Db WebhookDelivery
  pub get_by_id : Uuid → M Db WebhookDelivery
  pub list : WebhookDeliveryFilter → Params → M Db (List WebhookDelivery × ℤ)
  pub list_due : Time → ℤ → M Db (List WebhookDelivery)

pub record Repositories : Type 1 where
  pub Db : Type 0
  pub tx : TransactionManager Db
  pub users : UserRepository Db
  pub wallets : WalletRepository Db
  pub transactions : TransactionRepository Db
  pub ledgers : LedgerRepository Db
  pub idempotency : IdempotencyRepository Db
  pub audits : AuditLogRepository Db
  pub health : HealthRepository Db
  pub reconciliation : ReconciliationRepository Db
  pub webhooks : WebhookDeliveryRepository Db
