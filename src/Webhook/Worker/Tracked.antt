-- ===== src/Webhook/Worker/Tracked.antt =====
-- The allowance of every delivery, under any rounds of the worker.
use go_hermes.Base.{All}
use go_hermes.Store.View.{View}
use go_hermes.Webhook.Delivery.Allowance.{IsTracked}

abbrev AllTracked : View → Type 0
AllTracked v = All IsTracked v.deliveries
