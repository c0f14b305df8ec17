-- ===== src/AdminUsecase.antt =====
-- The administrator's reads: AdminUsecase of internal/usecase/admin_health.go. Each read leaves an
-- entry in the audit log, whose error is dropped. The values of uuid.New and time.Now are arguments.
pub mod Traces
use go_hermes.Base.{String, List, map, Option, none, some, if◌then◌else◌}
use go_hermes.Base.Int.{ℤ}
use go_hermes.AppError.{Error, ok, bad_request, not_found, internal, is_not_found}
use go_hermes.Entity.{Uuid, Time, AuditLog}
use go_hermes.Json.{Json, text, num, obj, field, end}
use go_hermes.Pagination.{Params, meta}
use go_hermes.Store.{M, Repositories, WebhookDeliveryFilter, pure, some_or, map_error, ◌>>=◌, ◌>>◌}
use go_hermes.Types.{
  AuditLogResponse, TransactionResponse, WebhookDeliveryResponse, to_audit_log_response,
  to_transaction_response, to_webhook_delivery_response,
}
use go_hermes.UuidLib.{UuidLib}

pub record AuditDraws : Type 0 where
  pub audit_id : Uuid
  pub audit_at : Time

-- `_ = f()`
abbrev pub ignore_error : {Db A : Type 0} → M Db A → M Db (Unit {0})
ignore_error m s = (ok tt, (m s).1)

unfoldable pub read_audit : AuditDraws → Uuid → String → String → Option Uuid → Json → AuditLog
read_audit d actor action entity_type entity_id metadata = record {
  id = d.audit_id;
  actor_user_id = some actor;
  action = action;
  entity_type = entity_type;
  entity_id = entity_id;
  metadata = metadata;
  created_at = d.audit_at;
}

abbrev pub page_json : Params → Json
page_json p = obj (field "page" (num p.page) (field "limit" (num p.limit) end))

abbrev pub filter_json : WebhookDeliveryFilter → Params → Json
filter_json f p = obj (
    field "page" (num p.page) (
      field "limit" (num p.limit) (
        field "event_type" (text f.event_type)
          (field "status" (text f.status) (field "transaction_ref" (text f.transaction_ref) end)))))

abbrev pub webhook_error : Error → Error
webhook_error e = if is_not_found e then not_found "webhook delivery not found" else internal e

module _ (r : Repositories) (u : UuidLib) (d : AuditDraws) where
  unfoldable pub list_audit_logs :
      (ℤ → ℤ → ℤ) → String → Params → M r.Db (List AuditLogResponse × Json)
  unfolding meta to_audit_log_response read_audit
  list_audit_logs ceil_quotient actor_user_id params = do
    actor ← some_or (u.parse actor_user_id) (bad_request "invalid user id")
    listed ← map_error internal (r.audits.list params)
    ignore_error (
        r.audits.create
          (read_audit d actor "ADMIN_READ_AUDIT_LOGS" "audit_log" none (page_json params)))
    pure (map (to_audit_log_response u) listed.0, meta ceil_quotient listed.1 params)

  unfoldable pub list_transactions :
      (ℤ → ℤ → ℤ) → String → Params → M r.Db (List TransactionResponse × Json)
  unfolding meta to_transaction_response read_audit
  list_transactions ceil_quotient actor_user_id params = do
    actor ← some_or (u.parse actor_user_id) (bad_request "invalid user id")
    listed ← map_error internal (r.transactions.list_all params)
    ignore_error (
        r.audits.create
          (read_audit d actor "ADMIN_READ_TRANSACTIONS" "transaction" none (page_json params)))
    pure (map (to_transaction_response u) listed.0, meta ceil_quotient listed.1 params)

  unfoldable pub list_webhooks :
      (ℤ → ℤ → ℤ)
      → String
      → WebhookDeliveryFilter
      → Params
      → M r.Db (List WebhookDeliveryResponse × Json)
  unfolding meta to_webhook_delivery_response read_audit
  list_webhooks ceil_quotient actor_user_id filter params = do
    actor ← some_or (u.parse actor_user_id) (bad_request "invalid user id")
    listed ← map_error internal (r.webhooks.list filter params)
    ignore_error (
        r.audits.create (
          read_audit d actor "ADMIN_READ_WEBHOOKS" "webhook_delivery" none
            (filter_json filter params)))
    pure (map (to_webhook_delivery_response u) listed.0, meta ceil_quotient listed.1 params)

  unfoldable pub get_webhook : String → String → M r.Db WebhookDeliveryResponse
  unfolding to_webhook_delivery_response read_audit
  get_webhook actor_user_id delivery_id = do
    actor ← some_or (u.parse actor_user_id) (bad_request "invalid user id")
    parsed ← some_or (u.parse delivery_id) (bad_request "invalid webhook id")
    delivery ← map_error webhook_error (r.webhooks.get_by_id parsed)
    ignore_error (
        r.audits.create (
          read_audit d actor "ADMIN_READ_WEBHOOK" "webhook_delivery" (some parsed)
            (obj (field "delivery_id" (text (u.text parsed)) end))))
    pure (to_webhook_delivery_response u delivery)
