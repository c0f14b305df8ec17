-- ===== src/Gorm/Semantics.antt =====
-- What a query means on the tables, by the documented semantics of SQL and of gorm's column names:
-- which rows a query keeps, and what an INSERT adds. A test on NULL is not true.
use go_hermes.Base.{
  String, Bool, true, false, Option, none, some, List, [], ◌∷◌, ◌++◌, ◌==◌, ◌&&◌, ◌||◌, leb, str_eq,
  ◌≡◌, if◌then◌else◌, select, is_some,
}
use go_hermes.Entity.{Uuid, Time, Wallet, IdempotencyRecord}
use go_hermes.Gorm.Query.{Model, Row, Value, Column, Condition, JoinKind, Join, Query}
use go_hermes.Store.View.{
  View, wallet_by_id, wallet_of_user, record_by_key, set_wallets, add_transaction, add_entries,
  add_audit, add_delivery, add_record,
}
use go_hermes.Store.Laws.{SameTransaction, SameRecord, SameDelivery, SameUser}
use go_hermes.Types.{delivery_status_text}

abbrev pub table : (k : Model) → View → List (Row k)
table Model.users v = v.users
table Model.wallets v = v.wallets
table Model.transactions v = v.transactions
table Model.ledger_entries v = v.ledger
table Model.idempotency_records v = v.idempotency
table Model.audit_logs v = v.audits
table Model.webhook_deliveries v = v.deliveries

abbrev pub primary_key : (k : Model) → Row k → Uuid
primary_key Model.users x = x.id
primary_key Model.wallets x = x.id
primary_key Model.transactions x = x.id
primary_key Model.ledger_entries x = x.id
primary_key Model.idempotency_records x = x.id
primary_key Model.audit_logs x = x.id
primary_key Model.webhook_deliveries x = x.id

abbrev pub nullable_uuid : Option Uuid → Value
nullable_uuid none = Value.null_value
nullable_uuid (some i) = Value.uuid_value i

abbrev pub nullable_time : Option Time → Value
nullable_time none = Value.null_value
nullable_time (some t) = Value.time_value t

-- The columns that the conditions of the code name.
abbrev pub column_value : (k : Model) → Row k → String → Value
column_value Model.users x c =
    if str_eq c "id"
    then Value.uuid_value x.id
    else if str_eq c "email"
    then Value.text_value x.email
    else Value.null_value
column_value Model.wallets x c =
    if str_eq c "id"
    then Value.uuid_value x.id
    else if str_eq c "user_id"
    then Value.uuid_value x.user_id
    else Value.null_value
column_value Model.transactions x c =
    if str_eq c "id"
    then Value.uuid_value x.id
    else if str_eq c "initiated_by_user_id"
    then Value.uuid_value x.initiated_by_user_id
    else if str_eq c "source_wallet_id"
    then nullable_uuid x.source_wallet_id
    else if str_eq c "destination_wallet_id"
    then nullable_uuid x.destination_wallet_id
    else Value.null_value
column_value Model.ledger_entries x c =
    if str_eq c "transaction_id"
    then Value.uuid_value x.transaction_id
    else if str_eq c "wallet_id"
    then Value.uuid_value x.wallet_id
    else Value.null_value
column_value Model.idempotency_records x c =
    if str_eq c "id"
    then Value.uuid_value x.id
    else if str_eq c "idempotency_key"
    then Value.text_value x.idempotency_key
    else if str_eq c "user_id"
    then Value.uuid_value x.user_id
    else if str_eq c "endpoint"
    then Value.text_value x.endpoint
    else Value.null_value
column_value Model.audit_logs x c = Value.null_value
column_value Model.webhook_deliveries x c =
    if str_eq c "id"
    then Value.uuid_value x.id
    else if str_eq c "event_type"
    then Value.text_value x.event_type
    else if str_eq c "status"
    then Value.text_value (delivery_status_text x.status)
    else if str_eq c "transaction_ref"
    then Value.text_value x.transaction_ref
    else if str_eq c "next_retry_at"
    then nullable_time x.next_retry_at
    else Value.null_value

abbrev pub same_value : Value → Value → Bool
same_value (Value.uuid_value i) (Value.uuid_value j) = i == j
same_value (Value.text_value s) (Value.text_value t) = str_eq s t
same_value _ _ = false

abbrev pub value_at_most : Value → Value → Bool
value_at_most (Value.time_value s) (Value.time_value t) = leb s t
value_at_most _ _ = false

abbrev pub is_null_value : Value → Bool
is_null_value Value.null_value = true
is_null_value _ = false

abbrev pub same_as_one : Value → List Value → Bool
same_as_one a [] = false
same_as_one a (b ∷ bs) = same_value a b || same_as_one a bs

-- The wallet that a foreign key points to.
abbrev pub wallet_of_value : List Wallet → Value → Option Wallet
wallet_of_value ws (Value.uuid_value i) = wallet_by_id i ws
wallet_of_value ws _ = none

abbrev pub wallet_value : Option Wallet → String → Value
wallet_value none c = Value.null_value
wallet_value (some w) c = column_value Model.wallets w c

abbrev pub joined_value : (k : Model) → List Wallet → List Join → Row k → String → String → Value
joined_value k ws [] x name c = Value.null_value
joined_value k ws (j ∷ js) x name c =
    if str_eq j.alias name
    then wallet_value (wallet_of_value ws (column_value k x j.foreign_key)) c
    else joined_value k ws js x name c

module _ (k : Model) (ws : List Wallet) (js : List Join) (x : Row k) where
  abbrev pub value_of : Column → Value
  value_of (Column.own c) = column_value k x c
  value_of (Column.joined name c) = joined_value k ws js x name c

  abbrev pub satisfies : Condition → Bool
  satisfies (Condition.equal c a) = same_value (value_of c) a
  satisfies (Condition.at_most c a) = value_at_most (value_of c) a
  satisfies (Condition.one_of c values) = same_as_one (value_of c) values
  satisfies (Condition.is_null c) = is_null_value (value_of c)
  satisfies (Condition.either a b) = satisfies a || satisfies b

  abbrev pub satisfies_all : List Condition → Bool
  satisfies_all [] = true
  satisfies_all (c ∷ []) = satisfies c
  satisfies_all (c ∷ (d ∷ cs)) = satisfies c && satisfies_all (d ∷ cs)

  -- An inner join drops a row without a partner.
  abbrev pub has_partner : Join → Bool
  has_partner j = elim j.kind [
    | JoinKind.left ↦ true
    | JoinKind.inner ↦ is_some (wallet_of_value ws (column_value k x j.foreign_key))
  ]

  abbrev pub has_partners : List Join → Bool
  has_partners [] = true
  has_partners (j ∷ js) = has_partner j && has_partners js

abbrev pub keeps : (k : Model) → View → Query → Row k → Bool
keeps k v q x =
    has_partners k v.wallets q.joins x q.joins && satisfies_all k v.wallets q.joins x q.conditions

-- The rows of a query, before its page.
abbrev pub rows_of : (k : Model) → View → Query → List (Row k)
rows_of k v q = select (keeps k v q) (table k v)

-- INSERT of a row, as gorm stamped it, under the unique keys of the migrations.
abbrev pub Inserted : (k : Model) → View → Row k → Row k → View → Type 0
Inserted Model.users v x x' v' = SameUser x x' × (v' ≡ record v { users = v.users ++ x' ∷ [] })
Inserted Model.wallets v x x' v' =
    (x' ≡ record x { created_at = x'.created_at; updated_at = x'.updated_at })
    × (wallet_of_user x.user_id v.wallets ≡ none)
    × (v' ≡ set_wallets v (v.wallets ++ x' ∷ []))
Inserted Model.transactions v x x' v' = SameTransaction x x' × (v' ≡ add_transaction v x')
Inserted Model.ledger_entries v x x' v' = (x' ≡ x) × (v' ≡ add_entries v (x' ∷ []))
Inserted Model.idempotency_records v x x' v' =
    SameRecord x x'
    × (record_by_key x.idempotency_key x.user_id x.endpoint v.idempotency ≡ none)
    × (v' ≡ add_record v x')
Inserted Model.audit_logs v x x' v' = (x' ≡ x) × (v' ≡ add_audit v x')
Inserted Model.webhook_deliveries v x x' v' = SameDelivery x x' × (v' ≡ add_delivery v x')

-- UPDATE ... SET of the columns that the code sets.
abbrev pub set_column : String × Value → IdempotencyRecord → IdempotencyRecord
set_column (c, Value.int_value n) x =
    if str_eq c "status_code" then record x { status_code = n } else x
set_column (c, Value.json_value b) x =
    if str_eq c "response_body" then record x { response_body = b } else x
set_column (c, _) x = x

abbrev pub set_columns : List (String × Value) → IdempotencyRecord → IdempotencyRecord
set_columns [] x = x
set_columns (a ∷ rest) x = set_columns rest (set_column a x)
