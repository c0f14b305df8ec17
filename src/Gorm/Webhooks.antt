-- ===== src/Gorm/Webhooks.antt =====
-- GormWebhookDeliveryRepository of internal/repository/gorm.go.
use go_hermes.Base.{String, some, List, [], ◌∷◌, ◌++◌, map, str_eq, if◌then◌else◌}
use go_hermes.Base.Int.{ℤ}
use go_hermes.Entity.{Uuid, Time, WebhookDelivery, WebhookDeliveryStatus}
use go_hermes.Pagination.{Params}
use go_hermes.Store.{M, WebhookDeliveryRepository, WebhookDeliveryFilter, pure, ◌>>=◌}
use go_hermes.Types.{delivery_status_text}
use go_hermes.Gorm.Page.{list_page}
use go_hermes.Gorm.Query.{
  Model, Column, Condition, Value, Direction, Query, no_clauses, where_equal,
}
use go_hermes.Gorm.Session.{Gorm, Session, with_db}

-- `if text != "" { query = query.Where(column = ?, text) }`
abbrev pub where_given : String → String → Query → Query
where_given column text query = if str_eq text "" then query else record query {
  conditions = query.conditions ++ Condition.equal (Column.own column) (Value.text_value text) ∷ [];
}

abbrev pub filter_query : WebhookDeliveryFilter → Query
filter_query filter =
    where_given "transaction_ref" filter.transaction_ref
      (where_given "status" filter.status (where_given "event_type" filter.event_type no_clauses))

abbrev pub status_value : WebhookDeliveryStatus → Value
status_value status = Value.text_value (delivery_status_text status)

-- status IN (PENDING, RETRYING) AND (next_retry_at IS NULL OR next_retry_at <= now)
abbrev pub due_query : Time → ℤ → Query
due_query now limit = record no_clauses {
  conditions =
      Condition.one_of (Column.own "status")
        (map status_value (WebhookDeliveryStatus.pending ∷ WebhookDeliveryStatus.retrying ∷ []))
      ∷ Condition.either (Condition.is_null (Column.own "next_retry_at"))
          (Condition.at_most (Column.own "next_retry_at") (Value.time_value now))
      ∷ [];
  order = ("created_at", Direction.asc) ∷ [];
  limit = some limit;
}

module _ (g : Gorm) (db : g.Handle) where
  unfoldable pub create : WebhookDelivery → M (Session g) WebhookDelivery
  unfolding with_db ◌>>=◌
  create delivery =
      with_db g db
        λ h. do created ← g.create h no_clauses Model.webhook_deliveries delivery; pure created.0

  unfoldable pub update : WebhookDelivery → M (Session g) WebhookDelivery
  unfolding with_db
  update delivery = with_db g db λ h. g.save h Model.webhook_deliveries delivery

  unfoldable pub get_by_id : Uuid → M (Session g) WebhookDelivery
  unfolding with_db
  get_by_id id =
      with_db g db λ h. g.first h (where_equal "id" (Value.uuid_value id)) Model.webhook_deliveries

  unfoldable pub list : WebhookDeliveryFilter → Params → M (Session g) (List WebhookDelivery × ℤ)
  unfolding list_page
  list filter params =
      list_page g db Model.webhook_deliveries (filter_query filter) "created_at" params

  unfoldable pub list_due : Time → ℤ → M (Session g) (List WebhookDelivery)
  unfolding with_db
  list_due now limit = with_db g db λ h. g.find h (due_query now limit) Model.webhook_deliveries

  abbrev pub repository : WebhookDeliveryRepository (Session g)
  repository = record {
    create = create;
    update = update;
    get_by_id = get_by_id;
    list = list;
    list_due = list_due;
  }
