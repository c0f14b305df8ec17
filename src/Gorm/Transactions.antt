-- ===== src/Gorm/Transactions.antt =====
-- GormTransactionRepository of internal/repository/gorm.go.
use go_hermes.Base.{List, [], ◌∷◌}
use go_hermes.Base.Int.{ℤ}
use go_hermes.Entity.{Uuid, Transaction}
use go_hermes.Pagination.{Params}
use go_hermes.Store.{M, TransactionRepository, pure, ◌>>=◌}
use go_hermes.Gorm.Page.{list_page}
use go_hermes.Gorm.Query.{
  Model, Column, Condition, Value, Join, JoinKind, Query, no_clauses, where_equal,
}
use go_hermes.Gorm.Session.{Gorm, Session, with_db}

-- LEFT JOIN wallets sw ON sw.id = transactions.source_wallet_id, and dw on the destination.
abbrev pub both_wallets : List Join
both_wallets =
    record { kind = JoinKind.left; alias = "sw"; foreign_key = "source_wallet_id" }
    ∷ record { kind = JoinKind.left; alias = "dw"; foreign_key = "destination_wallet_id" }
    ∷ []

-- transactions.initiated_by_user_id = ? OR sw.user_id = ? OR dw.user_id = ?
abbrev pub visible_to : Uuid → Condition
visible_to user_id =
    Condition.either
      (Condition.either
        (Condition.equal (Column.own "initiated_by_user_id") (Value.uuid_value user_id))
        (Condition.equal (Column.joined "sw" "user_id") (Value.uuid_value user_id)))
      (Condition.equal (Column.joined "dw" "user_id") (Value.uuid_value user_id))

abbrev pub of_user : Uuid → Query
of_user user_id = record no_clauses { joins = both_wallets; conditions = visible_to user_id ∷ [] }

abbrev pub of_user_by_id : Uuid → Uuid → Query
of_user_by_id transaction_id user_id = record no_clauses {
  joins = both_wallets;
  conditions =
      Condition.equal (Column.own "id") (Value.uuid_value transaction_id) ∷ visible_to user_id ∷ [];
}

module _ (g : Gorm) (db : g.Handle) where
  unfoldable pub create : Transaction → M (Session g) Transaction
  unfolding with_db ◌>>=◌
  create transaction =
      with_db g db
        λ h. do created ← g.create h no_clauses Model.transactions transaction; pure created.0

  unfoldable pub list_by_user : Uuid → Params → M (Session g) (List Transaction × ℤ)
  unfolding list_page
  list_by_user user_id params =
      list_page g db Model.transactions (of_user user_id) "transactions.created_at" params

  unfoldable pub get_by_id_for_user : Uuid → Uuid → M (Session g) Transaction
  unfolding with_db
  get_by_id_for_user transaction_id user_id =
      with_db g db λ h. g.first h (of_user_by_id transaction_id user_id) Model.transactions

  unfoldable pub list_all : Params → M (Session g) (List Transaction × ℤ)
  unfolding list_page
  list_all params = list_page g db Model.transactions no_clauses "created_at" params

  unfoldable pub get_by_id : Uuid → M (Session g) Transaction
  unfolding with_db
  get_by_id transaction_id =
      with_db g db
        λ h. g.first h (where_equal "id" (Value.uuid_value transaction_id)) Model.transactions

  abbrev pub repository : TransactionRepository (Session g)
  repository = record {
    create = create;
    list_by_user = list_by_user;
    get_by_id_for_user = get_by_id_for_user;
    list_all = list_all;
    get_by_id = get_by_id;
  }
