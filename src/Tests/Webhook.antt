-- ===== src/Tests/Webhook.antt =====
-- Deliveries: created, attempted and settled.
use go_hermes.Base.{ℕ, map, true, false, some, none, List, [], ◌∷◌, ◌≡◌, refl, arith}
use go_hermes.Base.Int.{pos}
use go_hermes.Base.Int64.{IsInt64, add64}
use go_hermes.Json.{null}
use go_hermes.AppError.{ok}
use go_hermes.Entity.{
  Transaction, TransactionType, TransactionStatus, Time, WebhookDelivery, WebhookDeliveryStatus,
}
use go_hermes.Store.{◌>>=◌}
use go_hermes.Store.View.{View, delivery_by_id}
use go_hermes.Tables.{tables}
use go_hermes.Tables.Worker.{tables-IsWorkerStore}
use go_hermes.Webhook.Create.{WebhookConfig, new_delivery, normalized_max_retry}
use go_hermes.Webhook.Delivery.{
  HttpLib, answered, attempt, marked_failed, request_of, is_final, process_delivery,
}
use go_hermes.Webhook.Delivery.Allowance.{IsTracked, new_delivery-IsTracked}
use go_hermes.Webhook.Delivery.Once.{sends, delivered_once}
use go_hermes.Tests.World.{start, draws}

abbrev pub config : WebhookConfig
config = record {
  enabled = true;
  target_url = "https://hook";
  secret = "s";
  max_retry = pos 2;
  retry_interval_seconds = pos 30;
  worker_batch_size = pos 20;
}

abbrev pub up : HttpLib
up = record {
  bad_url = λ url. none;
  post = λ request. answered 204;
  sign = λ secret payload. secret;
  unexpected = λ code. "unexpected";
}

abbrev pub down : HttpLib
down = record up { post = λ request. answered 500 }

abbrev pub payment : Transaction
payment = record {
  id = 901;
  transaction_ref = "TXN-a";
  type = TransactionType.top_up;
  status = TransactionStatus.success;
  source_wallet_id = none;
  destination_wallet_id = some 10;
  amount = pos 30;
  currency = "IDR";
  idempotency_key = "k";
  initiated_by_user_id = 1;
  description = none;
  created_at = 50;
  updated_at = 50;
}

abbrev pub delivery : WebhookDelivery
delivery = new_delivery config draws.delivery "wallet.top_up.success" payment null

pub small : IsInt64 (pos 2)
small = record { low = omega arith; high = omega arith }

pub delivery-IsTracked : IsTracked delivery
delivery-IsTracked =
    new_delivery-IsTracked config draws.delivery "wallet.top_up.success" payment null small

still : is_final delivery.status ≡ false
unfolding new_delivery
still = refl

abbrev waiting : View
waiting = record start { deliveries = delivery ∷ [] }

-- Two calls while the receiver is down use the two attempts up.
abbrev two_calls : List (HttpLib × Time)
two_calls = (down, 60) ∷ (down, 90) ∷ []

abbrev calls : WebhookConfig → List (HttpLib × Time) → View → View × ℕ
calls = sends tables (λ v. v) tables-IsWorkerStore 905

two_calls_fail :
    map (λ d. d.status) (calls config two_calls waiting).0.deliveries
    ≡ WebhookDeliveryStatus.failed ∷ []
unfolding process_delivery ◌>>=◌ new_delivery normalized_max_retry attempt marked_failed add64
two_calls_fail = refl

row : delivery_by_id 905 waiting.deliveries ≡ some delivery
unfolding new_delivery
row = refl

abbrev sent : View
sent = (process_delivery tables up config 60 905 waiting).1

url : up.bad_url delivery.target_url ≡ none
url = refl

reply : up.post (request_of up delivery) ≡ answered 204
reply = refl

ran : process_delivery tables up config 60 905 waiting ≡ (ok tt, sent)
unfolding process_delivery ◌>>=◌ new_delivery
ran = refl

delivered_once_example :
    (d : WebhookDelivery) × (delivery_by_id 905 sent.deliveries ≡ some d)
    × (d.status ≡ WebhookDeliveryStatus.success)
    × (d.delivered_at ≡ some 60)
    × ((calls config two_calls sent).0 ≡ sent)
delivered_once_example =
    delivered_once tables (λ v. v) tables-IsWorkerStore 905 up config config 60 waiting sent
      delivery 204 two_calls row still url reply (omega arith) (omega arith) ran
