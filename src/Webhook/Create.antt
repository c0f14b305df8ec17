-- ===== src/Webhook/Create.antt =====
-- The notifier that the money movements call: internal/usecase/webhook.go, up to Enqueue. Logging
-- and the metrics counters of the service are left out.
pub mod Effect
use go_hermes.Base.{
  ℕ, suc, ◌*◌, String, Bool, true, false, Option, none, some, List, [], ◌∷◌, ◌++◌, ◌||◌, not, ltb,
  str_eq, length, if◌then◌else◌,
}
use go_hermes.Base.Int.{ℤ, pos, pos_part, ltb_ℤ}
use go_hermes.Json.{Json, null, text, num, instant, obj, field, end}
use go_hermes.Entity.{Uuid, Time, Transaction, Wallet, WebhookDelivery, WebhookDeliveryStatus}
use go_hermes.Types.{status_text}
use go_hermes.UuidLib.{UuidLib}
use go_hermes.Store.{M, Repositories, pure, ◌>>=◌}

pub record WebhookConfig : Type 0 where
  pub enabled : Bool
  pub target_url : String
  pub secret : String
  pub max_retry : ℤ
  pub retry_interval_seconds : ℤ
  pub worker_batch_size : ℤ

-- The two implementations of the interface WebhookNotifier.
pub data WebhookNotifier : Type 0 where
  noop : WebhookNotifier
  service : WebhookConfig → WebhookNotifier

-- The capacity of the channel that NewWebhookService makes.
unfoldable pub queue_capacity : WebhookConfig → ℕ
queue_capacity c =
    (if ltb_ℤ c.worker_batch_size (pos 1) then 20 else pos_part c.worker_batch_size) * 2

unfoldable pub normalized_max_retry : WebhookConfig → ℤ
normalized_max_retry c = if ltb_ℤ c.max_retry (pos 1) then pos 3 else c.max_retry

-- What a delivery draws: uuid.New() and time.Now().
pub record DeliveryDraws : Type 0 where
  pub delivery_id : Uuid
  pub occurred_at : Time

abbrev pub secret_of : String → Option String
secret_of s = if str_eq s "" then none else some s

unfoldable pub new_delivery :
    WebhookConfig → DeliveryDraws → String → Transaction → Json → WebhookDelivery
unfolding normalized_max_retry
new_delivery c d event_type x payload = record {
  id = d.delivery_id;
  event_type = event_type;
  transaction_id = some x.id;
  transaction_ref = x.transaction_ref;
  target_url = c.target_url;
  payload = payload;
  secret = secret_of c.secret;
  status = WebhookDeliveryStatus.pending;
  retry_count = pos 0;
  max_retry = normalized_max_retry c;
  last_error = none;
  last_http_status = none;
  next_retry_at = none;
  delivered_at = none;
  created_at = 0;
  updated_at = 0;
}

-- The event's payload; encoding/json sorts the keys of a map.
unfoldable pub event_payload : UuidLib → DeliveryDraws → String → Transaction → Json → Uuid → Json
event_payload u d event_type x source destination = obj (
    field "amount" (num x.amount) (
      field "currency" (text x.currency) (
        field "destination_wallet_id" (text (u.text destination)) (
          field "event_type" (text event_type) (
            field "occurred_at" (instant d.occurred_at) (
              field "source_wallet_id" source (
                field "status" (text (status_text x.status)) (
                  field "transaction_id" (text (u.text x.id))
                    (field "transaction_ref" (text x.transaction_ref) end)))))))))

module _ (r : Repositories) (u : UuidLib) where
  unfoldable pub create_delivery :
      WebhookConfig → DeliveryDraws → String → Transaction → Json → M r.Db (Option WebhookDelivery)
  unfolding new_delivery
  create_delivery c d event_type x payload =
      if not c.enabled || str_eq c.target_url "" then pure none else (do
        delivery ← r.webhooks.create (new_delivery c d event_type x payload)
        pure (some delivery))

  unfoldable pub create_top_up_delivery :
      WebhookNotifier → DeliveryDraws → Transaction → Wallet → M r.Db (Option WebhookDelivery)
  unfolding create_delivery event_payload
  create_top_up_delivery noop d x w = pure none
  create_top_up_delivery (service c) d x w =
      create_delivery c d "wallet.top_up.success" x
        (event_payload u d "wallet.top_up.success" x null w.id)

  unfoldable pub create_transfer_delivery :
      WebhookNotifier
      → DeliveryDraws
      → Transaction
      → Wallet
      → Wallet
      → M r.Db (Option WebhookDelivery)
  unfolding create_delivery event_payload
  create_transfer_delivery noop d x source destination = pure none
  create_transfer_delivery (service c) d x source destination =
      create_delivery c d "wallet.transfer.success" x
        (event_payload u d "wallet.transfer.success" x (text (u.text source.id)) destination.id)

-- A send on the buffered channel that gives up when it is full.
abbrev pub send : ℕ → List Uuid → Uuid → List Uuid
send capacity queue i = if ltb (length queue) capacity then queue ++ i ∷ [] else queue

unfoldable pub enqueue : WebhookNotifier → List Uuid → Uuid → List Uuid
unfolding queue_capacity
enqueue noop queue i = queue
enqueue (service c) queue i = if c.enabled then send (queue_capacity c) queue i else queue

abbrev pub enqueue_some : WebhookNotifier → List Uuid → Option Uuid → List Uuid
enqueue_some n queue none = queue
enqueue_some n queue (some i) = enqueue n queue i
