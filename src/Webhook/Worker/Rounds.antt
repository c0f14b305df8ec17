-- ===== src/Webhook/Worker/Rounds.antt =====
-- What every attempt keeps of the tables, a round of the worker keeps.
use go_hermes.Base.{
  ℕ, true, false, some, List, [], ◌∷◌, ◌≡◌, ◌⊎◌, inl, inr, sym, ap, ◌∙◌, subst, Bool-cases,
  if◌then◌else◌,
}
use go_hermes.Base.Int.{ℤ}
use go_hermes.Entity.{Uuid, Time, WebhookDelivery}
use go_hermes.Store.{Repositories, pure, >>=-leaves}
use go_hermes.Store.Laws.{IsWorkerStore}
use go_hermes.Store.View.{View, delivery_by_id, put_delivery}
use go_hermes.TransactionUsecase.Common.{World}
use go_hermes.Webhook.Create.{WebhookConfig}
use go_hermes.Webhook.Delivery.{
  HttpLib, attempt, is_final, process_delivery, process_all, process_due, update_delivery,
}
use go_hermes.Webhook.Worker.{WorkerStep, received, ticked}

-- The row that a Save leaves of an attempt.
abbrev pub saved_as : HttpLib → WebhookConfig → Time → ℕ → WebhookDelivery → WebhookDelivery
saved_as h c now stamp d = record (attempt h c now d) { updated_at = stamp }

-- A property of the tables that survives the Save of an attempt on an open delivery.
abbrev pub Survives : WebhookConfig → (View → Type 0) → Type 0
Survives c P =
    (v : View) (h : HttpLib) (now : Time) (stamp : ℕ) (i : Uuid) (d : WebhookDelivery)
    → delivery_by_id i v.deliveries ≡ some d
    → is_final d.status ≡ false
    → P v
    → P (record v { deliveries = put_delivery (saved_as h c now stamp d) v.deliveries })

module _ (r : Repositories) (view : r.Db → View) (law : IsWorkerStore r view) (c : WebhookConfig)
    (P : View → Type 0) (survives : Survives c P) where
  updated-keeps :
      (h : HttpLib) (now : Time) (i : Uuid) (d : WebhookDelivery) (s : r.Db)
      → delivery_by_id i (view s).deliveries ≡ some d
      → is_final d.status ≡ false
      → P (view s)
      → P (view (r.webhooks.update (attempt h c now d) s).1)
  updated-keeps h now i d s found still kept = elim (law.delivery_saved (attempt h c now d) s) [
    | inl same ↦ subst P (sym same) kept
    | inr (d', stamped, stored) ↦
        subst P
          (sym (
            stored
            ∙ ap (λ x. record (view s) { deliveries = put_delivery x (view s).deliveries })
                stamped))
          (survives (view s) h now d'.updated_at i d found still kept)
  ]

  pub process_delivery-keeps :
      (h : HttpLib) (now : Time) (i : Uuid) (s : r.Db)
      → P (view s)
      → P (view (process_delivery r h c now i s).1)
  unfolding process_delivery
  process_delivery-keeps h now i s kept =
      >>=-leaves (λ t. P (view t)) (r.webhooks.get_by_id i) _ s
        (λ d t read.
          let (same, found) = law.delivery_read i s t d read in
          sent d t (ap (λ v. delivery_by_id i v.deliveries) same ∙ found) (subst P (sym same) kept)
            (Bool-cases (is_final d.status)))
        λ e t read. subst P (sym (law.delivery_not_read i s t e read)) kept
    where
      sent :
          (d : WebhookDelivery) (t : r.Db)
          → delivery_by_id i (view t).deliveries ≡ some d
          → P (view t)
          → (is_final d.status ≡ true) ⊎ (is_final d.status ≡ false)
          → P (
              view
                ((if is_final d.status then pure tt else update_delivery r h c (attempt h c now d))
                  t).1)
      sent d t found kept (inl done) = rw done kept
      sent d t found kept (inr still) = rw still (
          >>=-leaves (λ x. P (view x)) (r.webhooks.update (attempt h c now d)) _ t
            (λ d' x e. subst (λ p. P (view p.1)) e (updated-keeps h now i d t found still kept))
            λ e' x e. subst (λ p. P (view p.1)) e (updated-keeps h now i d t found still kept))

  process_all-keeps :
      (h : HttpLib) (now : Uuid → Time) (ds : List WebhookDelivery) (s : r.Db)
      → P (view s)
      → P (view (process_all r h c now ds s))
  unfolding process_all
  process_all-keeps h now [] s kept = kept
  process_all-keeps h now (d ∷ ds) s kept =
      process_all-keeps h now ds (process_delivery r h c (now d.id) d.id s).1
        (process_delivery-keeps h (now d.id) d.id s kept)

  pub process_due-keeps :
      (h : HttpLib) (start : Time) (now : Uuid → Time) (limit : ℤ) (s : r.Db)
      → P (view s)
      → P (view (process_due r h c start now limit s).1)
  unfolding process_due
  process_due-keeps h start now limit s kept =
      >>=-leaves (λ t. P (view t)) (r.webhooks.list_due start limit) _ s
        (λ ds t e. process_all-keeps h now ds t (listed t (ap (λ p. p.1) (sym e))))
        λ e' t e. listed t (ap (λ p. p.1) (sym e))
    where
      listed : (t : r.Db) → t ≡ (r.webhooks.list_due start limit s).1 → P (view t)
      listed t e = subst P (sym (ap view e ∙ law.due_read start limit s)) kept

  pub WorkerStep-keeps : (w w' : World r.Db) → WorkerStep r c w w' → P (view w.db) → P (view w'.db)
  WorkerStep-keeps w w' (received h now i rest on head e) kept =
      subst (λ x. P (view x.db)) (sym e) (process_delivery-keeps h now i w.db kept)
  WorkerStep-keeps w w' (ticked h start now on e) kept =
      subst (λ x. P (view x.db)) (sym e) (process_due-keeps h start now _ w.db kept)
