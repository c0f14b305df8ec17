-- ===== src/Gorm/Refines.antt =====
-- The repositories of internal/repository/gorm.go do what the use cases rely on.
use go_hermes.UuidLib.{UuidLib}
use go_hermes.Gorm.Session.{Gorm}
