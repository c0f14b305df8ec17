-- ===== src/Webhook/Worker.antt =====
-- The goroutine of Start, internal/usecase/webhook.go, as a step relation on the database and the
-- channel: a round takes a delivery off the channel, or the ticker starts a scan of the due ones. One
-- round is one step: no other part of the program updates a delivery. ctx.Done() ends the steps.
pub mod Rounds
pub mod Tracked
use go_hermes.Base.{true, List, ◌∷◌, ◌≡◌}
use go_hermes.Entity.{Uuid, Time}
use go_hermes.Store.{Repositories}
use go_hermes.TransactionUsecase.Common.{World}
use go_hermes.Webhook.Create.{WebhookConfig}
use go_hermes.Webhook.Delivery.{HttpLib, process_delivery, process_due, batch_size}

module _ (r : Repositories) (c : WebhookConfig) where
  -- A round of the loop, with any answers of the receivers and at any times; its error is only logged.
  pub data WorkerStep (w w' : World r.Db) : Type 0 where
    received :
        (h : HttpLib) (now : Time) (i : Uuid) (rest : List Uuid)
        → c.enabled ≡ true
        → w.queue ≡ i ∷ rest
        → w' ≡ record { db = (process_delivery r h c now i w.db).1; queue = rest }
        → WorkerStep w w'
    ticked :
        (h : HttpLib) (start : Time) (now : Uuid → Time)
        → c.enabled ≡ true
        → w' ≡ record { db = (process_due r h c start now (batch_size c) w.db).1; queue = w.queue }
        → WorkerStep w w'

  pub data WorkerRun (w : World r.Db) : World r.Db → Type 0 where
    idle : WorkerRun w w
    round : {w' w'' : World r.Db} → WorkerRun w w' → WorkerStep w' w'' → WorkerRun w w''
