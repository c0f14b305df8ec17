-- ===== src/Store/View.antt =====
-- The tables of migrations/*.up.sql as lists of rows, and what one statement of the
-- code does to them.
use go_hermes.Base.{
  ℕ, String, Bool, false, Option, List, [], ◌∷◌, ◌++◌, map, ◌==◌, ◌&&◌, ◌||◌, str_eq, if◌then◌else◌,
  find,
}
use go_hermes.Json.{Json}
use go_hermes.Entity.{
  Uuid, User, Wallet, Transaction, LedgerEntry, IdempotencyRecord, AuditLog, WebhookDelivery,
}

pub record View : Type 0 where
  pub users : List User
  pub wallets : List Wallet
  pub transactions : List Transaction
  pub ledger : List LedgerEntry
  pub idempotency : List IdempotencyRecord
  pub audits : List AuditLog
  pub deliveries : List WebhookDelivery

abbrev pub has_id : Uuid → List Uuid → Bool
has_id i [] = false
has_id i (j ∷ js) = i == j || has_id i js

-- SELECT ... WHERE id = i, and WHERE user_id = u.
abbrev pub wallet_by_id : Uuid → List Wallet → Option Wallet
wallet_by_id i = find (λ w. w.id == i)

abbrev pub wallet_of_user : Uuid → List Wallet → Option Wallet
wallet_of_user u = find (λ w. w.user_id == u)

-- UPDATE of the row with the same primary key.
abbrev pub put_wallet : Wallet → List Wallet → List Wallet
put_wallet w [] = []
put_wallet w (x ∷ xs) = if x.id == w.id then w ∷ xs else x ∷ put_wallet w xs

abbrev pub delivery_by_id : Uuid → List WebhookDelivery → Option WebhookDelivery
delivery_by_id i = find (λ d. d.id == i)

-- Save of a delivery.
abbrev pub put_delivery : WebhookDelivery → List WebhookDelivery → List WebhookDelivery
put_delivery d [] = d ∷ []
put_delivery d (x ∷ xs) = if x.id == d.id then d ∷ xs else x ∷ put_delivery d xs

-- The unique key of idempotency_records.
abbrev pub has_key : String → Uuid → String → IdempotencyRecord → Bool
has_key key user_id endpoint x =
    str_eq x.idempotency_key key && (x.user_id == user_id && str_eq x.endpoint endpoint)

abbrev pub record_by_key :
    String → Uuid → String → List IdempotencyRecord → Option IdempotencyRecord
record_by_key key user_id endpoint = find (has_key key user_id endpoint)

-- UPDATE idempotency_records SET status_code, response_body WHERE id = i.
abbrev pub complete_record : Uuid → ℕ → Json → IdempotencyRecord → IdempotencyRecord
complete_record i status body x =
    if x.id == i then record x { status_code = status; response_body = body } else x

abbrev pub complete : Uuid → ℕ → Json → List IdempotencyRecord → List IdempotencyRecord
complete i status body = map (complete_record i status body)

abbrev pub set_wallets : View → List Wallet → View
set_wallets v ws = record v { wallets = ws }

abbrev pub add_transaction : View → Transaction → View
add_transaction v t = record v { transactions = v.transactions ++ t ∷ [] }

abbrev pub add_entries : View → List LedgerEntry → View
add_entries v es = record v { ledger = v.ledger ++ es }

abbrev pub add_audit : View → AuditLog → View
add_audit v a = record v { audits = v.audits ++ a ∷ [] }

abbrev pub add_delivery : View → WebhookDelivery → View
add_delivery v d = record v { deliveries = v.deliveries ++ d ∷ [] }

abbrev pub add_record : View → IdempotencyRecord → View
add_record v x = record v { idempotency = x ∷ v.idempotency }

abbrev pub complete_key : View → Uuid → ℕ → Json → View
complete_key v i status body = record v { idempotency = complete i status body v.idempotency }
