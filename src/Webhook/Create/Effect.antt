-- ===== src/Webhook/Create/Effect.antt =====
-- What recording a delivery does to the tables.
use go_hermes.Base.{Option, none, some, ◌≡◌, refl, Bool-cases, inl, inr, ◌||◌, not, str_eq, String}
use go_hermes.AppError.{ok}
use go_hermes.Json.{Json}
use go_hermes.Entity.{Transaction, Wallet, WebhookDelivery}
use go_hermes.UuidLib.{UuidLib}
use go_hermes.Store.{Repositories, >>=-ok, pure-ok}
use go_hermes.Store.View.{View, add_delivery}
use go_hermes.Store.Laws.{IsStore}
use go_hermes.Webhook.Create.{
  WebhookConfig, WebhookNotifier, noop, service, DeliveryDraws, create_delivery,
  create_top_up_delivery, create_transfer_delivery,
}

-- The tables with the delivery, where there is one.
abbrev pub deliver : View → Option WebhookDelivery → View
deliver v none = v
deliver v (some x) = add_delivery v x

module _ (r : Repositories) (l : IsStore r) (u : UuidLib) where
  abbrev view : r.Db → View
  view = l.view

  pub create_delivery-ok :
      (c : WebhookConfig) (d : DeliveryDraws) (event : String) (x : Transaction) (payload : Json)
      (s t : r.Db) (o : Option WebhookDelivery)
      → create_delivery r u c d event x payload s ≡ (ok o, t)
      → view t ≡ deliver (view s) o
  unfolding create_delivery
  create_delivery-ok c d event x payload s t o h =
      elim (Bool-cases (not c.enabled || str_eq c.target_url "")) [
        | inl off ↦ let (same, kept) = pure-ok (rw off at h) in rw (same, kept)
        | inr on ↦
            let (y, s1, e1, h1) = >>=-ok _ _ _ (rw on at h) in
            let (same, kept) = pure-ok h1 in rw (same, kept) (l.delivery_created _ y s s1 e1).1
      ]

  pub create_top_up_delivery-ok :
      (n : WebhookNotifier) (d : DeliveryDraws) (x : Transaction) (w : Wallet) (s t : r.Db)
      (o : Option WebhookDelivery)
      → create_top_up_delivery r u n d x w s ≡ (ok o, t)
      → view t ≡ deliver (view s) o
  unfolding create_top_up_delivery
  create_top_up_delivery-ok noop d x w s t o h = let (same, kept) = pure-ok h in rw (same, kept)
  create_top_up_delivery-ok (service c) d x w s t o h = create_delivery-ok c d _ x _ s t o h

  pub create_transfer_delivery-ok :
      (n : WebhookNotifier) (d : DeliveryDraws) (x : Transaction) (source destination : Wallet)
      (s t : r.Db) (o : Option WebhookDelivery)
      → create_transfer_delivery r u n d x source destination s ≡ (ok o, t)
      → view t ≡ deliver (view s) o
  unfolding create_transfer_delivery
  create_transfer_delivery-ok noop d x a b s t o h = let (same, kept) = pure-ok h in rw (same, kept)
  create_transfer_delivery-ok (service c) d x a b s t o h = create_delivery-ok c d _ x _ s t o h

-- A delivery leaves every other table alone.
pub deliver-wallets : (v : View) (o : Option WebhookDelivery) → (deliver v o).wallets ≡ v.wallets
deliver-wallets v none = refl
deliver-wallets v (some x) = refl

pub deliver-ledger : (v : View) (o : Option WebhookDelivery) → (deliver v o).ledger ≡ v.ledger
deliver-ledger v none = refl
deliver-ledger v (some x) = refl

pub deliver-transactions :
    (v : View) (o : Option WebhookDelivery) → (deliver v o).transactions ≡ v.transactions
deliver-transactions v none = refl
deliver-transactions v (some x) = refl

pub deliver-idempotency :
    (v : View) (o : Option WebhookDelivery) → (deliver v o).idempotency ≡ v.idempotency
deliver-idempotency v none = refl
deliver-idempotency v (some x) = refl
