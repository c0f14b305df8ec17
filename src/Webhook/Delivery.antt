-- ===== src/Webhook/Delivery.antt =====
-- The sending of deliveries: internal/usecase/webhook.go, from ProcessDue on. net/http, crypto/hmac
-- and fmt are the parameter `HttpLib`; time.Now() is an argument; logging and the metrics counters
-- are left out. Worker has the goroutine of Start, whose rounds call the two functions here.
pub mod Allowance
pub mod Attempts
pub mod Once
use go_hermes.Base.{
  ℕ, suc, ◌+◌, ◌-◌, ◌*◌, String, Bool, true, false, Option, none, some, List, [], ◌∷◌, ◌||◌, ltb,
  leb, str_eq, if◌then◌else◌,
}
use go_hermes.Base.Int.{ℤ, pos, pos_part, neg_part, ltb_ℤ, leb_ℤ}
use go_hermes.Base.Int64.{add64, mul64}
use go_hermes.Json.{Json}
use go_hermes.AppError.{Result, ok, err}
use go_hermes.Entity.{Uuid, Time, WebhookDelivery, WebhookDeliveryStatus}
use go_hermes.Store.{M, Repositories, pure, ◌>>=◌}
use go_hermes.Webhook.Create.{WebhookConfig}

-- The POST of a delivery: its address, body and headers.
pub record Request : Type 0 where
  pub url : String
  pub body : Json
  pub event : String
  pub delivery_id : Uuid
  pub signature : Option String

-- How `client.Do` ends: with an error, or with a status code.
pub data Reply : Type 0 where
  refused : String → Reply
  answered : ℕ → Reply

pub record HttpLib : Type 0 where
  -- The error of `http.NewRequestWithContext` for an address, if it has one.
  pub bad_url : String → Option String
  -- `client.Do`
  pub post : Request → Reply
  -- "sha256=" and the hexadecimal HMAC of a payload under a secret.
  pub sign : String → Json → String
  -- `fmt.Sprintf("unexpected status code %d", code)`
  pub unexpected : ℕ → String

-- A duration in nanoseconds.
unfoldable pub retry_interval : WebhookConfig → ℤ
unfolding mul64
retry_interval c =
    if ltb_ℤ c.retry_interval_seconds (pos 1)
    then mul64 (pos 30) (pos 1000000000)
    else mul64 c.retry_interval_seconds (pos 1000000000)

unfoldable pub batch_size : WebhookConfig → ℤ
batch_size c = if ltb_ℤ c.worker_batch_size (pos 1) then pos 20 else c.worker_batch_size

-- `time.Time.Add`
abbrev pub later : Time → ℤ → Time
later t d = t + pos_part d - neg_part d

abbrev pub is_final : WebhookDeliveryStatus → Bool
is_final WebhookDeliveryStatus.success = true
is_final WebhookDeliveryStatus.failed = true
is_final _ = false

abbrev pub status_or : ℕ → Option ℕ → Option ℕ
status_or code before = if ltb 0 code then some code else before

-- What markFailure writes into the delivery, with its counter already counted up.
abbrev pub failed_with : WebhookConfig → Time → ℤ → ℕ → String → WebhookDelivery → WebhookDelivery
failed_with c now count code message d =
    if leb_ℤ d.max_retry count
    then (record d {
      retry_count = count;
      updated_at = now;
      last_http_status = status_or code d.last_http_status;
      last_error = some message;
      status = WebhookDeliveryStatus.failed;
      next_retry_at = none;
    })
    else (record d {
      retry_count = count;
      updated_at = now;
      last_http_status = status_or code d.last_http_status;
      last_error = some message;
      status = WebhookDeliveryStatus.retrying;
      next_retry_at = some (later now (mul64 (retry_interval c) count));
    })

unfoldable pub marked_failed : WebhookConfig → Time → ℕ → String → WebhookDelivery → WebhookDelivery
unfolding retry_interval add64 mul64
marked_failed c now code message d = failed_with c now (add64 d.retry_count (pos 1)) code message d

-- What ProcessDelivery writes into a delivery that was accepted.
unfoldable pub marked_delivered : Time → ℕ → WebhookDelivery → WebhookDelivery
marked_delivered now code d = record d {
  status = WebhookDeliveryStatus.success;
  delivered_at = some now;
  next_retry_at = none;
  last_error = none;
  last_http_status = some code;
  updated_at = now;
}

-- The signature header is set for a secret that is not empty.
abbrev pub signature_of : HttpLib → Option String → Json → Option String
signature_of h none payload = none
signature_of h (some s) payload = if str_eq s "" then none else some (h.sign s payload)

unfoldable pub request_of : HttpLib → WebhookDelivery → Request
request_of h d = record {
  url = d.target_url;
  body = d.payload;
  event = d.event_type;
  delivery_id = d.id;
  signature = signature_of h d.secret d.payload;
}

-- The delivery after the answer of its receiver.
abbrev pub after_reply : HttpLib → WebhookConfig → Time → Reply → WebhookDelivery → WebhookDelivery
after_reply h c now (refused message) d = marked_failed c now 0 message d
after_reply h c now (answered code) d =
    if ltb code 200 || leb 300 code
    then marked_failed c now code (h.unexpected code) d
    else marked_delivered now code d

-- The delivery after one attempt: the request cannot be built, or it is sent.
abbrev pub attempted :
    HttpLib → WebhookConfig → Time → Option String → WebhookDelivery → WebhookDelivery
attempted h c now (some message) d = marked_failed c now 0 message d
attempted h c now none d = after_reply h c now (h.post (request_of h d)) d

unfoldable pub attempt : HttpLib → WebhookConfig → Time → WebhookDelivery → WebhookDelivery
unfolding marked_failed marked_delivered request_of
attempt h c now d = attempted h c now (h.bad_url d.target_url) d

module _ (r : Repositories) (h : HttpLib) (c : WebhookConfig) where
  abbrev pub update_delivery : WebhookDelivery → M r.Db (Unit {0})
  update_delivery d = do stored ← r.webhooks.update d; pure tt

  unfoldable pub process_delivery : Time → Uuid → M r.Db (Unit {0})
  unfolding attempt
  process_delivery now i = do
    d ← r.webhooks.get_by_id i
    if is_final d.status then pure tt else update_delivery (attempt h c now d)

  -- The loop over the due deliveries, which goes on after an error; `now i` is the time at which the
  -- delivery `i` is sent.
  unfoldable pub process_all : (Uuid → Time) → List WebhookDelivery → r.Db → r.Db
  unfolding process_delivery
  process_all now [] s = s
  process_all now (d ∷ ds) s = process_all now ds (process_delivery (now d.id) d.id s).1

  unfoldable pub process_due : Time → (Uuid → Time) → ℤ → M r.Db (Unit {0})
  unfolding process_all
  process_due start now limit = do
    ds ← r.webhooks.list_due start limit
    λ s. (ok tt, process_all now ds s)
