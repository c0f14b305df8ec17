-- ===== src/Gorm/Ledgers.antt =====
-- GormLedgerRepository of internal/repository/gorm.go.
use go_hermes.Base.{List, [], ◌∷◌}
use go_hermes.Base.Int.{ℤ}
use go_hermes.Entity.{Uuid, LedgerEntry}
use go_hermes.Pagination.{Params}
use go_hermes.Store.{M, LedgerRepository, pure, ◌>>=◌}
use go_hermes.Gorm.Page.{list_page}
use go_hermes.Gorm.Query.{
  Model, Column, Condition, Value, Join, JoinKind, Direction, Query, no_clauses,
}
use go_hermes.Gorm.Session.{Gorm, Session, with_db}

-- JOIN wallets ON wallets.id = ledger_entries.wallet_id
abbrev pub its_wallet : List Join
its_wallet = record { kind = JoinKind.inner; alias = "wallets"; foreign_key = "wallet_id" } ∷ []

abbrev pub wallet_owned_by : Uuid → Condition
wallet_owned_by user_id =
    Condition.equal (Column.joined "wallets" "user_id") (Value.uuid_value user_id)

abbrev pub of_user : Uuid → Query
of_user user_id = record no_clauses {
  joins = its_wallet;
  conditions = wallet_owned_by user_id ∷ [];
}

abbrev pub of_transaction : Uuid → Uuid → Query
of_transaction transaction_id user_id = record no_clauses {
  joins = its_wallet;
  conditions =
      Condition.equal (Column.own "transaction_id") (Value.uuid_value transaction_id)
      ∷ wallet_owned_by user_id
      ∷ [];
  order = ("ledger_entries.created_at", Direction.asc) ∷ [];
}

module _ (g : Gorm) (db : g.Handle) where
  unfoldable pub create_many : List LedgerEntry → M (Session g) (Unit {0})
  unfolding with_db ◌>>=◌
  create_many entries =
      with_db g db λ h. do created ← g.create_many h Model.ledger_entries entries; pure tt

  unfoldable pub list_by_user : Uuid → Params → M (Session g) (List LedgerEntry × ℤ)
  unfolding list_page
  list_by_user user_id params =
      list_page g db Model.ledger_entries (of_user user_id) "ledger_entries.created_at" params

  unfoldable pub list_by_transaction_for_user : Uuid → Uuid → M (Session g) (List LedgerEntry)
  unfolding with_db
  list_by_transaction_for_user transaction_id user_id =
      with_db g db λ h. g.find h (of_transaction transaction_id user_id) Model.ledger_entries

  abbrev pub repository : LedgerRepository (Session g)
  repository = record {
    create_many = create_many;
    list_by_user = list_by_user;
    list_by_transaction_for_user = list_by_transaction_for_user;
  }
