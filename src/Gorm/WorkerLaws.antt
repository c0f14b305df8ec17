-- ===== src/Gorm/WorkerLaws.antt =====
-- The statements of the webhook worker on the repositories of internal/repository/gorm.go.
use go_hermes.Base.{some, ◌≡◌, ◌⊎◌, sym, ap, ◌∙◌}
use go_hermes.Base.Int.{ℤ}
use go_hermes.AppError.{Error, ok, err}
use go_hermes.Entity.{Uuid, Time, WebhookDelivery}
use go_hermes.Store.Laws.{IsWorkerStore}
use go_hermes.Store.View.{delivery_by_id, put_delivery}
use go_hermes.UuidLib.{UuidLib}
use go_hermes.Gorm.Query.{Model, Value, where_equal}
use go_hermes.Gorm.Session.{Gorm, Session, with_db, db_from_context}
use go_hermes.Gorm.Laws.{IsGorm}
use go_hermes.Gorm.Repositories.{gorm_repositories}
use go_hermes.Gorm.Statements.{session_view, with_db-ok, first-ok}
use go_hermes.Gorm.Webhooks

module _ (g : Gorm) (l : IsGorm g) (u : UuidLib) (db : g.Handle) where
  delivery_read :
      (i : Uuid) (s t : Session g) (d : WebhookDelivery)
      → Webhooks.get_by_id g db i s ≡ (ok d, t)
      → (session_view l t ≡ session_view l s)
        × (delivery_by_id i (session_view l s).deliveries ≡ some d)
  unfolding Webhooks.get_by_id
  delivery_read i s t d h =
      first-ok g l db (where_equal "id" (Value.uuid_value i)) Model.webhook_deliveries s t d h

  delivery_not_read :
      (i : Uuid) (s t : Session g) (e : Error)
      → Webhooks.get_by_id g db i s ≡ (err e, t)
      → session_view l t ≡ session_view l s
  unfolding Webhooks.get_by_id with_db
  delivery_not_read i s t e h =
      ap (λ p. l.view p.1.db) (sym h) ∙ l.first_reads _ _ Model.webhook_deliveries s.db

  due_read :
      (now : Time) (limit : ℤ) (s : Session g)
      → session_view l (Webhooks.list_due g db now limit s).1 ≡ session_view l s
  unfolding Webhooks.list_due with_db
  due_read now limit s = l.find_reads _ _ Model.webhook_deliveries s.db

  delivery_saved :
      (d : WebhookDelivery) (s : Session g)
      → (session_view l (Webhooks.update g db d s).1 ≡ session_view l s)
        ⊎ ((d' : WebhookDelivery) × (d' ≡ record d { updated_at = d'.updated_at })
            × (session_view l (Webhooks.update g db d s).1 ≡ record (session_view l s) {
              deliveries = put_delivery d' (session_view l s).deliveries;
            }))
  unfolding Webhooks.update with_db
  delivery_saved d s = l.delivery_saved (db_from_context g db s.ctx) d s.db

  delivery_written :
      (d d' : WebhookDelivery) (s t : Session g)
      → Webhooks.update g db d s ≡ (ok d', t)
      → (d' ≡ record d { updated_at = d'.updated_at })
        × (session_view l t ≡ record (session_view l s) {
          deliveries = put_delivery d' (session_view l s).deliveries;
        })
  unfolding Webhooks.update
  delivery_written d d' s t h =
      l.delivery_written _ d d' s.db t.db
        (with_db-ok g l db (λ h. g.save h Model.webhook_deliveries d) s t d' h)

  pub worker_laws : IsWorkerStore (gorm_repositories g u db) (session_view l)
  worker_laws = record {
    delivery_read = delivery_read;
    delivery_not_read = delivery_not_read;
    due_read = due_read;
    delivery_saved = delivery_saved;
    delivery_written = delivery_written;
  }
