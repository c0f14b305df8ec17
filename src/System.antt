-- ===== src/System.antt =====
-- The process: requests to register, to top up and to transfer and rounds of the webhook worker in any
-- order, over one database and one channel. cmd/api/main.go hands the same WebhookService to
-- TransactionUsecase and starts its worker.
pub mod Settled
use go_hermes.Base.{◌≡◌}
use go_hermes.AuthUsecase.{AuthLib}
use go_hermes.Books.History.{Step}
use go_hermes.Store.{Repositories}
use go_hermes.TransactionUsecase.Common.{World}
use go_hermes.UuidLib.{UuidLib}
use go_hermes.Webhook.Create.{WebhookConfig, service}
use go_hermes.Webhook.Worker.{WorkerStep}

module _ (r : Repositories) (u : UuidLib) (c : WebhookConfig) (a : AuthLib) where
  pub data Move (w w' : World r.Db) : Type 0 where
    requested : Step r u (service c) a w w' → Move w w'
    worked : WorkerStep r c w w' → Move w w'

  pub data Run (w : World r.Db) : World r.Db → Type 0 where
    start : Run w w
    move : {w' w'' : World r.Db} → Run w w' → Move w' w'' → Run w w''
