-- ===== src/Types.antt =====
-- The requests and responses of internal/usecase/types.go, and the success envelope of
-- internal/pkg/apiresponse/response.go.
use go_hermes.Base.{ℕ, String, Bool, Option, none, some}
use go_hermes.Base.Int.{ℤ}
use go_hermes.Json.{Json, text, num, instant, obj, field, end, text_or_null}
use go_hermes.UuidLib.{UuidLib}
use go_hermes.Entity.{
  Uuid, Time, Role, WalletStatus, TransactionType, TransactionStatus, LedgerEntryType,
  WebhookDeliveryStatus, User, Wallet, Transaction, LedgerEntry, AuditLog, WebhookDelivery,
}

pub record RegisterRequest : Type 0 where
  pub name : String
  pub email : String
  pub password : String

pub record LoginRequest : Type 0 where
  pub email : String
  pub password : String

pub record TopUpRequest : Type 0 where
  pub user_id : String
  pub amount : ℤ
  pub description : Option String
  pub idempotency_key : String
  pub request_hash : String

pub record TransferRequest : Type 0 where
  pub user_id : String
  pub recipient_wallet_id : String
  pub amount : ℤ
  pub description : Option String
  pub idempotency_key : String
  pub request_hash : String

pub record OperationResult : Type 0 where
  pub status_code : ℕ
  pub body : Json
  pub replay : Bool

abbrev pub role_text : Role → String
role_text Role.user = "user"
role_text Role.admin = "admin"
role_text (Role.other s) = s

abbrev pub wallet_status_text : WalletStatus → String
wallet_status_text WalletStatus.active = "ACTIVE"
wallet_status_text (WalletStatus.other s) = s

abbrev pub type_text : TransactionType → String
type_text TransactionType.top_up = "TOP_UP"
type_text TransactionType.transfer = "TRANSFER"
type_text (TransactionType.other s) = s

abbrev pub status_text : TransactionStatus → String
status_text TransactionStatus.success = "SUCCESS"
status_text TransactionStatus.failed = "FAILED"
status_text TransactionStatus.pending = "PENDING"
status_text (TransactionStatus.other s) = s

abbrev pub entry_type_text : LedgerEntryType → String
entry_type_text LedgerEntryType.debit = "DEBIT"
entry_type_text LedgerEntryType.credit = "CREDIT"
entry_type_text (LedgerEntryType.other s) = s

abbrev pub delivery_status_text : WebhookDeliveryStatus → String
delivery_status_text WebhookDeliveryStatus.pending = "PENDING"
delivery_status_text WebhookDeliveryStatus.success = "SUCCESS"
delivery_status_text WebhookDeliveryStatus.failed = "FAILED"
delivery_status_text WebhookDeliveryStatus.retrying = "RETRYING"
delivery_status_text (WebhookDeliveryStatus.other s) = s

pub record UserResponse : Type 0 where
  pub id : String
  pub name : String
  pub email : String
  pub role : String
  pub created_at : Time

pub record WalletResponse : Type 0 where
  pub id : String
  pub user_id : String
  pub balance : ℤ
  pub status : String
  pub created_at : Time
  pub updated_at : Time

pub record TransactionResponse : Type 0 where
  pub id : String
  pub transaction_ref : String
  pub type : String
  pub status : String
  pub source_wallet_id : Option String
  pub destination_wallet_id : Option String
  pub amount : ℤ
  pub currency : String
  pub idempotency_key : String
  pub initiated_by_user_id : String
  pub description : Option String
  pub created_at : Time
  pub updated_at : Time

pub record LedgerResponse : Type 0 where
  pub id : String
  pub transaction_id : String
  pub wallet_id : String
  pub entry_type : String
  pub amount : ℤ
  pub balance_before : ℤ
  pub balance_after : ℤ
  pub created_at : Time

pub record AuditLogResponse : Type 0 where
  pub id : String
  pub actor_user_id : Option String
  pub action : String
  pub entity_type : String
  pub entity_id : Option String
  pub metadata : Json
  pub created_at : Time

pub record WebhookDeliveryResponse : Type 0 where
  pub id : String
  pub event_type : String
  pub transaction_id : Option String
  pub transaction_ref : String
  pub target_url : String
  pub payload : Json
  pub status : String
  pub retry_count : ℤ
  pub max_retry : ℤ
  pub last_error : Option String
  pub last_http_status : Option ℕ
  pub next_retry_at : Option Time
  pub delivered_at : Option Time
  pub created_at : Time
  pub updated_at : Time

abbrev pub text_of : UuidLib → Option Uuid → Option String
text_of u none = none
text_of u (some i) = some (u.text i)

unfoldable pub to_user_response : UuidLib → User → UserResponse
to_user_response u x = record {
  id = u.text x.id;
  name = x.name;
  email = x.email;
  role = role_text x.role;
  created_at = x.created_at;
}

unfoldable pub to_wallet_response : UuidLib → Wallet → WalletResponse
to_wallet_response u w = record {
  id = u.text w.id;
  user_id = u.text w.user_id;
  balance = w.balance;
  status = wallet_status_text w.status;
  created_at = w.created_at;
  updated_at = w.updated_at;
}

unfoldable pub to_transaction_response : UuidLib → Transaction → TransactionResponse
to_transaction_response u x = record {
  id = u.text x.id;
  transaction_ref = x.transaction_ref;
  type = type_text x.type;
  status = status_text x.status;
  source_wallet_id = text_of u x.source_wallet_id;
  destination_wallet_id = text_of u x.destination_wallet_id;
  amount = x.amount;
  currency = x.currency;
  idempotency_key = x.idempotency_key;
  initiated_by_user_id = u.text x.initiated_by_user_id;
  description = x.description;
  created_at = x.created_at;
  updated_at = x.updated_at;
}

unfoldable pub to_ledger_response : UuidLib → LedgerEntry → LedgerResponse
to_ledger_response u x = record {
  id = u.text x.id;
  transaction_id = u.text x.transaction_id;
  wallet_id = u.text x.wallet_id;
  entry_type = entry_type_text x.entry_type;
  amount = x.amount;
  balance_before = x.balance_before;
  balance_after = x.balance_after;
  created_at = x.created_at;
}

-- The stored metadata is a JSON value already, so Unmarshal gives it back; no bytes are null.
unfoldable pub to_audit_log_response : UuidLib → AuditLog → AuditLogResponse
to_audit_log_response u a = record {
  id = u.text a.id;
  actor_user_id = text_of u a.actor_user_id;
  action = a.action;
  entity_type = a.entity_type;
  entity_id = text_of u a.entity_id;
  metadata = a.metadata;
  created_at = a.created_at;
}

-- The stored payload is a JSON value already, so Unmarshal gives it back; no bytes are null.
unfoldable pub to_webhook_delivery_response : UuidLib → WebhookDelivery → WebhookDeliveryResponse
to_webhook_delivery_response u d = record {
  id = u.text d.id;
  event_type = d.event_type;
  transaction_id = text_of u d.transaction_id;
  transaction_ref = d.transaction_ref;
  target_url = d.target_url;
  payload = d.payload;
  status = delivery_status_text d.status;
  retry_count = d.retry_count;
  max_retry = d.max_retry;
  last_error = d.last_error;
  last_http_status = d.last_http_status;
  next_retry_at = d.next_retry_at;
  delivered_at = d.delivered_at;
  created_at = d.created_at;
  updated_at = d.updated_at;
}

-- The JSON of the structs, by their tags.
unfoldable pub wallet_json : WalletResponse → Json
wallet_json w = obj (
    field "id" (text w.id) (
      field "user_id" (text w.user_id) (
        field "balance" (num w.balance) (
          field "status" (text w.status) (
            field "created_at" (instant w.created_at)
              (field "updated_at" (instant w.updated_at) end))))))

unfoldable pub transaction_json : TransactionResponse → Json
transaction_json x = obj (
    field "id" (text x.id) (
      field "transaction_ref" (text x.transaction_ref) (
        field "type" (text x.type) (
          field "status" (text x.status) (
            field "source_wallet_id" (text_or_null x.source_wallet_id) (
              field "destination_wallet_id" (text_or_null x.destination_wallet_id) (
                field "amount" (num x.amount) (
                  field "currency" (text x.currency) (
                    field "idempotency_key" (text x.idempotency_key) (
                      field "initiated_by_user_id" (text x.initiated_by_user_id) (
                        field "description" (text_or_null x.description) (
                          field "created_at" (instant x.created_at)
                            (field "updated_at" (instant x.updated_at) end)))))))))))))

-- `MustMarshalSuccess(data, nil)`: a nil meta is omitted.
unfoldable pub must_marshal_success : Json → Json
must_marshal_success x = obj (field "message" (text "success") (field "data" x end))
