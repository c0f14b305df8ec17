-- ===== src/Gorm/Audits.antt =====
-- GormAuditLogRepository and GormHealthRepository of internal/repository/gorm.go.
use go_hermes.Base.{List}
use go_hermes.Base.Int.{ℤ}
use go_hermes.Entity.{AuditLog}
use go_hermes.Pagination.{Params}
use go_hermes.Store.{M, AuditLogRepository, HealthRepository, pure, ◌>>=◌}
use go_hermes.Gorm.Page.{list_page}
use go_hermes.Gorm.Query.{Model, no_clauses}
use go_hermes.Gorm.Session.{Gorm, Session, with_db}

module _ (g : Gorm) (db : g.Handle) where
  unfoldable pub create : AuditLog → M (Session g) (Unit {0})
  unfolding with_db ◌>>=◌
  create log = with_db g db λ h. do created ← g.create h no_clauses Model.audit_logs log; pure tt

  unfoldable pub list : Params → M (Session g) (List AuditLog × ℤ)
  unfolding list_page
  list params = list_page g db Model.audit_logs no_clauses "created_at" params

  abbrev pub repository : AuditLogRepository (Session g)
  repository = record { create = create; list = list }

  unfoldable pub ping : M (Session g) (Unit {0})
  unfolding with_db ◌>>=◌
  ping = with_db g db λ h. do sql_db ← g.sql_db h; g.ping_context sql_db

  abbrev pub health_repository : HealthRepository (Session g)
  health_repository = record { ping = ping }
