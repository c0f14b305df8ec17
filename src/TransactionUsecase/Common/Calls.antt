-- ===== src/TransactionUsecase/Common/Calls.antt =====
-- The shared parts of the functions that TopUp and Transfer run in a transaction, as repository calls.
use go_hermes.Base.{String, not, ◌||◌, ◌==◌, str_eq, some, none}
use go_hermes.AppError.{ok}
use go_hermes.Entity.{Uuid, Transaction, Wallet}
use go_hermes.Json.{Json}
use go_hermes.Store.{M, Repositories}
use go_hermes.Store.Calls.{IsClosed, require-closed, if-closed}
use go_hermes.TransactionUsecase.Common.{Outcome, answer_again}
use go_hermes.UuidLib.{UuidLib}
use go_hermes.Webhook.Create.{
  WebhookConfig, WebhookNotifier, DeliveryDraws, noop, service, create_delivery,
  create_top_up_delivery, create_transfer_delivery, new_delivery,
}

module _ (r : Repositories) (P : (A : Type 0) → M r.Db A → Type 0) (c : IsClosed r P) where
  pub answer_again-closed :
      (key : String) (user_id : Uuid) (endpoint request_hash : String)
      → P Outcome (answer_again r key user_id endpoint request_hash)
  unfolding answer_again
  answer_again-closed key user_id endpoint request_hash =
      c.chained _ _ (c.record_found key user_id endpoint) λ existing.
        c.chained _ _ (require-closed r P c (str_eq existing.request_hash request_hash) _) λ _.
          c.chained _ _ (require-closed r P c (not (existing.status_code == 0)) _)
            λ _. c.returned (ok _)

  create_delivery-closed :
      (u : UuidLib) (w : WebhookConfig) (d : DeliveryDraws) (event : String) (x : Transaction)
      (payload : Json)
      → P _ (create_delivery r u w d event x payload)
  unfolding create_delivery
  create_delivery-closed u w d event x payload =
      if-closed r P c (not w.enabled || str_eq w.target_url "") (c.returned (ok none)) (
        c.chained _ _ (c.delivery_created (new_delivery w d event x payload))
          λ delivery. c.returned (ok (some delivery)))

  pub create_top_up_delivery-closed :
      (u : UuidLib) (n : WebhookNotifier) (d : DeliveryDraws) (x : Transaction) (w : Wallet)
      → P _ (create_top_up_delivery r u n d x w)
  unfolding create_top_up_delivery
  create_top_up_delivery-closed u noop d x w = c.returned (ok none)
  create_top_up_delivery-closed u (service s) d x w = create_delivery-closed u s d _ x _

  pub create_transfer_delivery-closed :
      (u : UuidLib) (n : WebhookNotifier) (d : DeliveryDraws) (x : Transaction)
      (source destination : Wallet)
      → P _ (create_transfer_delivery r u n d x source destination)
  unfolding create_transfer_delivery
  create_transfer_delivery-closed u noop d x source destination = c.returned (ok none)
  create_transfer_delivery-closed u (service s) d x source destination =
      create_delivery-closed u s d _ x _
