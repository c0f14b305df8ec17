-- ===== src/TransactionUsecase/TopUp/Calls.antt =====
-- The function that TopUp runs in a transaction is built of repository calls.
use go_hermes.Base.{◌==◌, length}
use go_hermes.AppError.{ok}
use go_hermes.Entity.{Uuid, Wallet, is_active}
use go_hermes.Store.{M, Repositories}
use go_hermes.Store.Calls.{IsCalls, IsClosed, require-closed, some_or-closed, if-closed}
use go_hermes.TransactionUsecase.Common.{Draws, Outcome}
use go_hermes.TransactionUsecase.Common.Calls.{answer_again-closed, create_top_up_delivery-closed}
use go_hermes.TransactionUsecase.TopUp.{
  top_up_endpoint, first, top_up_write, top_up_fresh, top_up_tx,
}
use go_hermes.Types.{TopUpRequest}
use go_hermes.UuidLib.{UuidLib}
use go_hermes.Webhook.Create.{WebhookNotifier}

module _ (r : Repositories) (u : UuidLib) (n : WebhookNotifier) (req : TopUpRequest)
    (d : Draws) where
  module _ (P : (A : Type 0) → M r.Db A → Type 0) (c : IsClosed r P) where
    top_up_write-closed :
        (user_id : Uuid) (w : Wallet) → P Outcome (top_up_write r u n req d user_id w)
    unfolding top_up_write
    top_up_write-closed user_id w = c.chained _ _ (c.transaction_created _) λ x.
        c.chained _ _ (c.wallet_updated _) λ wallet. c.chained _ _ (c.entries_created _) λ _.
          c.chained _ _ (c.audit_created _) λ _.
            c.chained _ _ (create_top_up_delivery-closed r P c u n d.delivery x wallet)
              λ delivery. c.chained _ _ (c.record_completed _ _ _) λ _. c.returned (ok _)

    top_up_fresh-closed : (user_id : Uuid) → P Outcome (top_up_fresh r u n req d user_id)
    unfolding top_up_fresh
    top_up_fresh-closed user_id = c.chained _ _ (c.wallet_found user_id) λ w.
        c.chained _ _ (c.wallets_locked _) λ locked.
          c.chained _ _ (require-closed r P c (length locked == 1) _) λ _.
            c.chained _ _ (some_or-closed r P c (first locked) _) λ target.
              c.chained _ _ (require-closed r P c (is_active target.status) _)
                λ _. top_up_write-closed user_id target

  pub top_up_tx-IsCalls : (user_id : Uuid) → IsCalls r Outcome (top_up_tx r u n req d user_id)
  unfolding top_up_tx
  top_up_tx-IsCalls user_id P c = c.chained _ _ (c.record_reserved _) λ inserted.
      if-closed r P c inserted (top_up_fresh-closed P c user_id)
        (answer_again-closed r P c req.idempotency_key user_id top_up_endpoint req.request_hash)
