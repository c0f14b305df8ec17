-- ===== src/Gorm/Query.antt =====
-- What the code builds with gorm.io/gorm before it runs a statement: the model, the joins, the
-- conditions, the order, the page, the row lock and the conflict clause. An SQL fragment of the
-- code stands here as its syntax tree.
use go_hermes.Base.{ℕ, String, Option, none, List, [], ◌∷◌}
use go_hermes.Base.Int.{ℤ}
use go_hermes.Json.{Json}
use go_hermes.Entity.{
  Uuid, Time, User, Wallet, Transaction, LedgerEntry, IdempotencyRecord, AuditLog, WebhookDelivery,
}

pub data Model : Type 0 where
  users wallets transactions ledger_entries idempotency_records audit_logs webhook_deliveries :
      Model

abbrev pub Row : Model → Type 0
Row Model.users = User
Row Model.wallets = Wallet
Row Model.transactions = Transaction
Row Model.ledger_entries = LedgerEntry
Row Model.idempotency_records = IdempotencyRecord
Row Model.audit_logs = AuditLog
Row Model.webhook_deliveries = WebhookDelivery

pub data Value : Type 0 where
  null_value : Value
  uuid_value : Uuid → Value
  text_value : String → Value
  time_value : Time → Value
  int_value : ℕ → Value
  json_value : Json → Value

-- A column of the model's table, or of a joined table by its alias.
pub data Column : Type 0 where
  own : String → Column
  joined : String → String → Column

pub data Condition : Type 0 where
  -- `column = ?`, `column <= ?`, `column IN ?`, `column IS NULL`, `a OR b`
  equal at_most : Column → Value → Condition
  one_of : Column → List Value → Condition
  is_null : Column → Condition
  either : Condition → Condition → Condition

-- `JOIN wallets alias ON alias.id = column`; a LEFT JOIN keeps a row that has no partner.
pub data JoinKind : Type 0 where
  inner left : JoinKind

pub record Join : Type 0 where
  pub kind : JoinKind
  pub alias : String
  pub foreign_key : String

pub data Direction : Type 0 where
  asc desc : Direction

-- Several `Where` calls are joined by AND.
pub record Query : Type 0 where
  pub joins : List Join
  pub conditions : List Condition
  pub order : List (String × Direction)
  pub offset : Option ℤ
  pub limit : Option ℤ
  -- clause.Locking{Strength: ...}
  pub locking : Option String
  -- clause.OnConflict{Columns: ..., DoNothing: true}
  pub conflict_do_nothing : List String

abbrev pub no_clauses : Query
no_clauses = record {
  joins = [];
  conditions = [];
  order = [];
  offset = none;
  limit = none;
  locking = none;
  conflict_do_nothing = [];
}

-- `Where("column = ?", value)`
abbrev pub where_equal : String → Value → Query
where_equal column a = record no_clauses { conditions = Condition.equal (Column.own column) a ∷ [] }
