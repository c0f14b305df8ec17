-- ===== src/Health.antt =====
-- HealthUsecase of internal/usecase/admin_health.go and the composite check of
-- internal/repository/health.go. A check that is nil is `none`.
use go_hermes.Base.{Option, none, some, List, [], ◌∷◌}
use go_hermes.AppError.{internal}
use go_hermes.Store.{M, HealthRepository, pure, map_error, ◌>>◌}

module _ {Db : Type 0} where
  abbrev pub ping_some : Option (HealthRepository Db) → M Db (Unit {0})
  ping_some none = pure tt
  ping_some (some check) = check.ping

  unfoldable pub ping_all : List (Option (HealthRepository Db)) → M Db (Unit {0})
  ping_all [] = pure tt
  ping_all (check ∷ checks) = ping_some check >> ping_all checks

  -- `NewCompositeHealthRepository(checks...)`
  abbrev pub composite : List (Option (HealthRepository Db)) → HealthRepository Db
  composite checks = record { ping = ping_all checks }

  unfoldable pub check : HealthRepository Db → M Db (Unit {0})
  check health = map_error internal health.ping
