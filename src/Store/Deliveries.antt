-- ===== src/Store/Deliveries.antt =====
-- The row of a delivery, by its primary key.
use go_hermes.Base.{
  some, none, List, [], ◌∷◌, ◌≡◌, ◌≢◌, ap, ◌∙◌, subst, arith, ◌==◌, ==_refl, Bool-cases, inl, inr,
  find, if◌then◌else◌,
}
use go_hermes.Entity.{Uuid, WebhookDelivery}
use go_hermes.Store.View.{delivery_by_id, put_delivery}

pub delivery_by_id-id :
    (i : Uuid) (ds : List WebhookDelivery) (d : WebhookDelivery)
    → delivery_by_id i ds ≡ some d
    → d.id ≡ i
delivery_by_id-id i [] d h = absurd (ground arith)
delivery_by_id-id i (x ∷ xs) d h = ground (arith, delivery_by_id-id i xs d)

pub delivery_by_id-put_ne :
    (j : Uuid) (d : WebhookDelivery) (ds : List WebhookDelivery) (x : WebhookDelivery)
    → d.id ≢ j
    → delivery_by_id j ds ≡ some x
    → delivery_by_id j (put_delivery d ds) ≡ some x
delivery_by_id-put_ne j d [] x h e = absurd (ground arith)
delivery_by_id-put_ne j d (y ∷ ys) x h e = ground (arith, delivery_by_id-put_ne j d ys x h)

put-found :
    (d : WebhookDelivery) (ds : List WebhookDelivery)
    → delivery_by_id d.id (put_delivery d ds) ≡ some d
put-found d [] = ap (λ b. if b then some d else none) (==_refl d.id)
put-found d (x ∷ xs) = elim (Bool-cases (x.id == d.id)) [
  | inl e ↦
      ap (λ b. find (λ x. x.id == d.id) (if b then d ∷ xs else x ∷ put_delivery d xs)) e
      ∙ ap (λ b. if b then some d else find (λ x. x.id == d.id) xs) (==_refl d.id)
  | inr e ↦
      ap (λ b. find (λ x. x.id == d.id) (if b then d ∷ xs else x ∷ put_delivery d xs)) e
      ∙ (ap (λ b. if b then some x else find (λ x. x.id == d.id) (put_delivery d xs)) e
          ∙ put-found d xs)
]

pub delivery_by_id-put :
    (i : Uuid) (d : WebhookDelivery) (ds : List WebhookDelivery)
    → d.id ≡ i
    → delivery_by_id i (put_delivery d ds) ≡ some d
delivery_by_id-put i d ds e =
    subst (λ j. delivery_by_id j (put_delivery d ds) ≡ some d) e (put-found d ds)
