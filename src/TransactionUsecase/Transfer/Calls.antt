-- ===== src/TransactionUsecase/Transfer/Calls.antt =====
-- The function that Transfer runs in a transaction is built of repository calls.
use go_hermes.Base.{List, not, ◌&&◌, ◌==◌, length}
use go_hermes.Base.Int.{ltb_ℤ}
use go_hermes.AppError.{ok}
use go_hermes.Entity.{Uuid, Wallet, is_active}
use go_hermes.Store.{M, Repositories}
use go_hermes.Store.Calls.{IsCalls, IsClosed, require-closed, some_or-closed, if-closed}
use go_hermes.TransactionUsecase.Common.{Draws, Outcome}
use go_hermes.TransactionUsecase.Common.Calls.{answer_again-closed, create_transfer_delivery-closed}
use go_hermes.TransactionUsecase.Transfer.{
  transfer_endpoint, wallet_map, transfer_write, transfer_checked, transfer_locked, transfer_fresh,
  transfer_tx,
}
use go_hermes.Types.{TransferRequest}
use go_hermes.UuidLib.{UuidLib}
use go_hermes.Webhook.Create.{WebhookNotifier}

module _ (r : Repositories) (u : UuidLib) (n : WebhookNotifier) (req : TransferRequest)
    (d : Draws) where
  module _ (P : (A : Type 0) → M r.Db A → Type 0) (c : IsClosed r P) where
    transfer_write-closed :
        (user_id : Uuid) (a b : Wallet) → P Outcome (transfer_write r u n req d user_id a b)
    unfolding transfer_write
    transfer_write-closed user_id a b = c.chained _ _ (c.transaction_created _) λ x.
        c.chained _ _ (c.wallet_updated _) λ source.
          c.chained _ _ (c.wallet_updated _) λ destination. c.chained _ _ (c.entries_created _) λ _.
            c.chained _ _ (c.audit_created _) λ _.
              c.chained _ _
                (create_transfer_delivery-closed r P c u n d.delivery x source destination)
                λ delivery. c.chained _ _ (c.record_completed _ _ _) λ _. c.returned (ok _)

    transfer_checked-closed :
        (user_id : Uuid) (a b : Wallet) → P Outcome (transfer_checked r u n req d user_id a b)
    unfolding transfer_checked
    transfer_checked-closed user_id a b =
        c.chained _ _ (require-closed r P c (is_active a.status && is_active b.status) _) λ _.
          c.chained _ _ (require-closed r P c (not (ltb_ℤ a.balance req.amount)) _)
            λ _. transfer_write-closed user_id a b

    transfer_locked-closed :
        (user_id i j : Uuid) (locked : List Wallet)
        → P Outcome (transfer_locked r u n req d user_id i j locked)
    unfolding transfer_locked
    transfer_locked-closed user_id i j locked =
        c.chained _ _ (require-closed r P c (length locked == 2) _) λ _.
          c.chained _ _ (some_or-closed r P c (wallet_map locked i) _) λ a.
            c.chained _ _ (some_or-closed r P c (wallet_map locked j) _)
              λ b. transfer_checked-closed user_id a b

    transfer_fresh-closed :
        (user_id recipient_id : Uuid) → P Outcome (transfer_fresh r u n req d user_id recipient_id)
    unfolding transfer_fresh
    transfer_fresh-closed user_id recipient_id = c.chained _ _ (c.wallet_found user_id) λ w.
        c.chained _ _ (require-closed r P c (not (w.id == recipient_id)) _) λ _.
          c.chained _ _ (c.wallets_locked _)
            λ locked. transfer_locked-closed user_id w.id recipient_id locked

  pub transfer_tx-IsCalls :
      (user_id recipient_id : Uuid)
      → IsCalls r Outcome (transfer_tx r u n req d user_id recipient_id)
  unfolding transfer_tx
  transfer_tx-IsCalls user_id recipient_id P c = c.chained _ _ (c.record_reserved _) λ inserted.
      if-closed r P c inserted (transfer_fresh-closed P c user_id recipient_id)
        (answer_again-closed r P c req.idempotency_key user_id transfer_endpoint req.request_hash)
