-- ===== src/Tests/System.antt =====
-- Requests and rounds of the worker on the reference tables.
use go_hermes.Base.{none, some, [], ◌∷◌, ◌≡◌, refl}
use go_hermes.Base.Int.{pos}
use go_hermes.Books.History.{topped_up}
use go_hermes.Entity.{WebhookDelivery, WebhookDeliveryStatus}
use go_hermes.Handler.Money.{top_up_handler}
use go_hermes.Json.{null}
use go_hermes.Store.View.{View, delivery_by_id}
use go_hermes.System.{Run, requested, worked, move}
use go_hermes.System.Settled.{settled_stays}
use go_hermes.Tables.{tables}
use go_hermes.Tables.Accounts.{tables-IsAccountStore}
use go_hermes.Tables.Lawful.{tables-IsStore}
use go_hermes.Tables.Worker.{tables-IsWorkerStore}
use go_hermes.TransactionUsecase.Common.{World}
use go_hermes.Webhook.Create.{service}
use go_hermes.Webhook.Delivery.{process_delivery, process_due, batch_size}
use go_hermes.Webhook.Worker.{received}
use go_hermes.Tests.Account.{auth_lib}
use go_hermes.Tests.Requests.{request, top_up_body, top_up_body-IsInt64}
use go_hermes.Tests.Webhook.{config, up, down, delivery}
use go_hermes.Tests.World.{uuid, start, later_draws}

abbrev delivered : WebhookDelivery
delivered = record {
  id = 905;
  event_type = "wallet.top_up.success";
  transaction_id = none;
  transaction_ref = "TXN-a";
  target_url = "https://hook";
  payload = null;
  secret = none;
  status = WebhookDeliveryStatus.success;
  retry_count = pos 0;
  max_retry = pos 2;
  last_error = none;
  last_http_status = some 204;
  next_retry_at = none;
  delivered_at = some 60;
  created_at = 53;
  updated_at = 60;
}

abbrev begun : World View
begun = record { db = record start { deliveries = delivered ∷ [] }; queue = 905 ∷ [] }

abbrev taken : World View
taken = record { db = (process_delivery tables up config 70 905 begun.db).1; queue = [] }

abbrev filled : World View
filled = (top_up_handler tables uuid (service config) later_draws top_up_body request taken).1

filled_reached : Run tables uuid config auth_lib begun filled
filled_reached =
    move {w'' = filled}
      (move {w'' = taken} Run.start (worked (received up 70 905 [] refl refl refl)))
      (requested (topped_up later_draws top_up_body request top_up_body-IsInt64 refl))

settled_stays_example : delivery_by_id 905 filled.db.deliveries ≡ some delivered
settled_stays_example =
    settled_stays 905 delivered tables tables-IsStore tables-IsAccountStore uuid config auth_lib
      tables-IsWorkerStore refl filled_reached refl

abbrev waiting : World View
waiting = record { db = record start { deliveries = delivery ∷ [] }; queue = [] }

abbrev scanned : World View
scanned = record {
  db = (process_due tables down config 60 (λ i. 61) (batch_size config) waiting.db).1;
  queue = [];
}
