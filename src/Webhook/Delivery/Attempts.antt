-- ===== src/Webhook/Delivery/Attempts.antt =====
-- How many attempts a delivery can take under ProcessDelivery and markFailure of
-- internal/usecase/webhook.go.
use go_hermes.Base.{suc, true, false, some, ◌≡◌}
use go_hermes.Base.Int.{pos_part}
use go_hermes.Entity.{WebhookDelivery}
use go_hermes.Webhook.Create.{WebhookConfig}
use go_hermes.Webhook.Delivery.{is_final}
use go_hermes.Entity.{Uuid}
use go_hermes.Store.{Repositories}
use go_hermes.Store.Laws.{IsWorkerStore}
use go_hermes.Store.View.{View, delivery_by_id}
use go_hermes.Webhook.Delivery.Allowance.{IsTracked}

-- An attempt that leaves a delivery open has counted one up.
CountedUp : WebhookDelivery → WebhookDelivery → Type 0
CountedUp d e =
    is_final e.status ≡ false
    → (pos_part e.retry_count ≡ suc (pos_part d.retry_count)) × (e.max_retry ≡ d.max_retry)

module _ (r : Repositories) (view : r.Db → View) (law : IsWorkerStore r view) (i : Uuid)
    (c : WebhookConfig) where
  abbrev Settled : r.Db → Type 0
  Settled s =
      (x : WebhookDelivery) × (delivery_by_id i (view s).deliveries ≡ some x)
      × (is_final x.status ≡ true)
      × IsTracked x
