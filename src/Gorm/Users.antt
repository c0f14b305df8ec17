-- ===== src/Gorm/Users.antt =====
-- GormUserRepository of internal/repository/gorm.go.
use go_hermes.Base.{String}
use go_hermes.Entity.{Uuid, User}
use go_hermes.Store.{M, UserRepository, pure, ◌>>=◌}
use go_hermes.Gorm.Query.{Model, Value, no_clauses, where_equal}
use go_hermes.Gorm.Session.{Gorm, Session, with_db}

module _ (g : Gorm) (db : g.Handle) where
  unfoldable pub create : User → M (Session g) User
  unfolding with_db ◌>>=◌
  create user =
      with_db g db λ h. do created ← g.create h no_clauses Model.users user; pure created.0

  unfoldable pub get_by_email : String → M (Session g) User
  unfolding with_db
  get_by_email email =
      with_db g db λ h. g.first h (where_equal "email" (Value.text_value email)) Model.users

  unfoldable pub get_by_id : Uuid → M (Session g) User
  unfolding with_db
  get_by_id id = with_db g db λ h. g.first h (where_equal "id" (Value.uuid_value id)) Model.users

  abbrev pub repository : UserRepository (Session g)
  repository = record { create = create; get_by_email = get_by_email; get_by_id = get_by_id }
