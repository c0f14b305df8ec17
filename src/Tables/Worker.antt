-- ===== src/Tables/Worker.antt =====
-- The reference tables under the statements of the webhook worker.
use go_hermes.Base.{none, some, Option, find, inr, refl, sym, ap, ◌∙◌, ◌≡◌, arith, ◌==◌}
use go_hermes.AppError.{Error, err}
use go_hermes.Entity.{WebhookDelivery}
use go_hermes.Store.Laws.{IsWorkerStore}
use go_hermes.Store.View.{View, put_delivery}
use go_hermes.Tables.{tables, found}
use go_hermes.Tables.Lawful.{found-ok, ok_pair}

found-err : {A : Type 0} (o : Option A) (v t : View) (e : Error) → found o v ≡ (err e, t) → t ≡ v
found-err none v t e h = ground arith
found-err (some a) v t e h = absurd (ground arith)

pub ok_written :
    (d d' : WebhookDelivery) (v t : View)
    → (d' ≡ d) × (t ≡ record v { deliveries = put_delivery d v.deliveries })
    → (d' ≡ record d { updated_at = d'.updated_at })
      × (t ≡ record v { deliveries = put_delivery d' v.deliveries })
ok_written d d' v t (same, stored) = (
  same ∙ ap (λ x. record d { updated_at = x.updated_at }) (sym same),
  stored ∙ ap (λ x. record v { deliveries = put_delivery x v.deliveries }) (sym same),
)

pub tables-IsWorkerStore : IsWorkerStore tables (λ v. v)
tables-IsWorkerStore = record {
  delivery_read = λ i v t d h. found-ok _ v h;
  delivery_not_read = λ i v t e h. found-err (find (λ x. x.id == i) v.deliveries) v t e h;
  due_read = λ now limit v. refl;
  delivery_saved = λ d v. inr (d, refl, refl);
  delivery_written = λ d d' v t h. ok_written d d' v t (ok_pair h);
}
