-- ===== src/Gorm/Wallets.antt =====
-- GormWalletRepository of internal/repository/gorm.go. Go's sort returns a sorted permutation; the
-- texts of distinct UUIDs differ, so there is one, which the insertion sort below returns too.
use go_hermes.Base.{some, List, [], ◌∷◌, map, if◌then◌else◌}
use go_hermes.Entity.{Uuid, Wallet}
use go_hermes.Store.{M, WalletRepository, pure, ◌>>=◌}
use go_hermes.UuidLib.{UuidLib}
use go_hermes.Gorm.Query.{
  Model, Column, Condition, Value, Direction, Query, no_clauses, where_equal,
}
use go_hermes.Gorm.Session.{Gorm, Session, with_db}

module _ (u : UuidLib) where
  unfoldable pub insert_id : Uuid → List Uuid → List Uuid
  insert_id i [] = i ∷ []
  insert_id i (j ∷ js) = if u.text_lt j i then j ∷ insert_id i js else i ∷ j ∷ js

  unfoldable pub sort_ids : List Uuid → List Uuid
  unfolding insert_id
  sort_ids [] = []
  sort_ids (i ∷ is) = insert_id i (sort_ids is)

-- SELECT ... WHERE id IN ? ORDER BY id ASC FOR UPDATE
abbrev pub lock_query : List Uuid → Query
lock_query sorted_ids = record no_clauses {
  conditions = Condition.one_of (Column.own "id") (map Value.uuid_value sorted_ids) ∷ [];
  order = ("id", Direction.asc) ∷ [];
  locking = some "UPDATE";
}

module _ (g : Gorm) (u : UuidLib) (db : g.Handle) where
  unfoldable pub create : Wallet → M (Session g) Wallet
  unfolding with_db ◌>>=◌
  create wallet =
      with_db g db λ h. do created ← g.create h no_clauses Model.wallets wallet; pure created.0

  unfoldable pub get_by_user_id : Uuid → M (Session g) Wallet
  unfolding with_db
  get_by_user_id user_id =
      with_db g db λ h. g.first h (where_equal "user_id" (Value.uuid_value user_id)) Model.wallets

  unfoldable pub get_by_id : Uuid → M (Session g) Wallet
  unfolding with_db
  get_by_id id = with_db g db λ h. g.first h (where_equal "id" (Value.uuid_value id)) Model.wallets

  unfoldable pub lock_by_ids : List Uuid → M (Session g) (List Wallet)
  unfolding with_db sort_ids
  lock_by_ids ids = with_db g db λ h. g.find h (lock_query (sort_ids u ids)) Model.wallets

  unfoldable pub update : Wallet → M (Session g) Wallet
  unfolding with_db
  update wallet = with_db g db λ h. g.save h Model.wallets wallet

  abbrev pub repository : WalletRepository (Session g)
  repository = record {
    create = create;
    get_by_user_id = get_by_user_id;
    get_by_id = get_by_id;
    lock_by_ids = lock_by_ids;
    update = update;
  }
