-- ===== src/Gorm/Session.antt =====
-- gorm and its connection, as a parameter, and what internal/repository/gorm.go keeps in a context:
-- WithinTransaction puts the transaction's handle there, dbFromContext takes it out.
use go_hermes.Base.{ℕ, String, Option, none, some, List}
use go_hermes.Base.Int.{ℤ}
use go_hermes.Store.{M, TransactionManager}
use go_hermes.Gorm.Query.{Model, Row, Value, Query}

pub record Gorm : Type 1 where
  pub Db : Type 0
  -- `*gorm.DB` and `*sql.DB`
  pub Handle : Type 0
  pub SqlDb : Type 0
  pub transaction : Handle → (A : Type 0) → (Handle → M Db A) → M Db A
  -- The rows as the call leaves them, and RowsAffected.
  pub create : Handle → Query → (k : Model) → Row k → M Db (Row k × ℕ)
  pub create_many : Handle → (k : Model) → List (Row k) → M Db (List (Row k))
  pub first : Handle → Query → (k : Model) → M Db (Row k)
  pub find : Handle → Query → (k : Model) → M Db (List (Row k))
  pub count : Handle → Query → (k : Model) → M Db ℤ
  pub save : Handle → (k : Model) → Row k → M Db (Row k)
  pub updates : Handle → Query → (k : Model) → List (String × Value) → M Db (Unit {0})
  pub sql_db : Handle → M Db SqlDb
  pub ping_context : SqlDb → M Db (Unit {0})

module _ (g : Gorm) where
  -- The value of txContextKey: absent, or a pointer, which may be nil.
  pub record Context : Type 0 where
    pub tx : Option (Option g.Handle)

  -- A repository call sees the caller's context and the database.
  pub record Session : Type 0 where
    pub ctx : Context
    pub db : g.Db

  unfoldable pub db_from_context : g.Handle → Context → g.Handle
  db_from_context db ctx = elim ctx.tx [
    | some pointer ↦ elim pointer [ some tx ↦ tx | none ↦ db ]
    | none ↦ db
  ]

  -- A statement on the handle of the context.
  unfoldable pub with_db : {A : Type 0} → g.Handle → (g.Handle → M g.Db A) → M Session A
  unfolding db_from_context
  with_db db f s =
      let (res, t) = f (db_from_context db s.ctx) s.db in (res, record { ctx = s.ctx; db = t })

  -- `fn(context.WithValue(ctx, txContextKey{}, tx))`
  unfoldable pub in_context : {A : Type 0} → M Session A → g.Handle → M g.Db A
  in_context f tx t =
      let (res, s) = f (record { ctx = record { tx = some (some tx) }; db = t }) in (res, s.db)

  unfoldable pub within_transaction : g.Handle → (A : Type 0) → M Session A → M Session A
  unfolding in_context
  within_transaction db A f s =
      let (res, t) = g.transaction db A (in_context f) s.db in (res, record { ctx = s.ctx; db = t })

  abbrev pub transaction_manager : g.Handle → TransactionManager Session
  transaction_manager db = record { within_transaction = within_transaction db }
