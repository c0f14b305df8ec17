-- ===== src/Entity.antt =====
-- The domain entities of internal/entity/models.go. A string type with named constants is a data
-- type with `other` for every further string; a pointer is an Option; a UUID is its 128-bit
-- number; a time is a number of nanoseconds.
use go_hermes.Base.{ℕ, String, Bool, true, false, Option}
use go_hermes.Base.Int.{ℤ}
use go_hermes.Json.{Json}

abbrev pub Uuid : Type 0
Uuid = ℕ

abbrev pub Time : Type 0
Time = ℕ

pub data Role : Type 0 where
  user admin : Role
  other : String → Role

pub data WalletStatus : Type 0 where
  active : WalletStatus
  other : String → WalletStatus

pub data TransactionType : Type 0 where
  top_up transfer : TransactionType
  other : String → TransactionType

pub data TransactionStatus : Type 0 where
  success failed pending : TransactionStatus
  other : String → TransactionStatus

pub data LedgerEntryType : Type 0 where
  debit credit : LedgerEntryType
  other : String → LedgerEntryType

pub data WebhookDeliveryStatus : Type 0 where
  pending success failed retrying : WebhookDeliveryStatus
  other : String → WebhookDeliveryStatus

pub record User : Type 0 where
  pub id : Uuid
  pub name : String
  pub email : String
  pub password_hash : String
  pub role : Role
  pub created_at : Time
  pub updated_at : Time

pub record Wallet : Type 0 where
  pub id : Uuid
  pub user_id : Uuid
  pub balance : ℤ
  pub status : WalletStatus
  pub created_at : Time
  pub updated_at : Time

pub record Transaction : Type 0 where
  pub id : Uuid
  pub transaction_ref : String
  pub type : TransactionType
  pub status : TransactionStatus
  pub source_wallet_id : Option Uuid
  pub destination_wallet_id : Option Uuid
  pub amount : ℤ
  pub currency : String
  pub idempotency_key : String
  pub initiated_by_user_id : Uuid
  pub description : Option String
  pub created_at : Time
  pub updated_at : Time

pub record LedgerEntry : Type 0 where
  pub id : Uuid
  pub transaction_id : Uuid
  pub wallet_id : Uuid
  pub entry_type : LedgerEntryType
  pub amount : ℤ
  pub balance_before : ℤ
  pub balance_after : ℤ
  pub created_at : Time

pub record IdempotencyRecord : Type 0 where
  pub id : Uuid
  pub idempotency_key : String
  pub user_id : Uuid
  pub request_hash : String
  pub endpoint : String
  pub status_code : ℕ
  pub response_body : Json
  pub created_at : Time
  pub updated_at : Time

pub record AuditLog : Type 0 where
  pub id : Uuid
  pub actor_user_id : Option Uuid
  pub action : String
  pub entity_type : String
  pub entity_id : Option Uuid
  pub metadata : Json
  pub created_at : Time

pub record WebhookDelivery : Type 0 where
  pub id : Uuid
  pub event_type : String
  pub transaction_id : Option Uuid
  pub transaction_ref : String
  pub target_url : String
  pub payload : Json
  pub secret : Option String
  pub status : WebhookDeliveryStatus
  pub retry_count : ℤ
  pub max_retry : ℤ
  pub last_error : Option String
  pub last_http_status : Option ℕ
  pub next_retry_at : Option Time
  pub delivered_at : Option Time
  pub created_at : Time
  pub updated_at : Time

abbrev pub is_active : WalletStatus → Bool
is_active WalletStatus.active = true
is_active (WalletStatus.other s) = false

abbrev pub is_debit : LedgerEntryType → Bool
is_debit LedgerEntryType.debit = true
is_debit LedgerEntryType.credit = false
is_debit (LedgerEntryType.other s) = false

abbrev pub is_credit : LedgerEntryType → Bool
is_credit LedgerEntryType.credit = true
is_credit LedgerEntryType.debit = false
is_credit (LedgerEntryType.other s) = false
