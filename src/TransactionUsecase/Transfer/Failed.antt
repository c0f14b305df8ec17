-- ===== src/TransactionUsecase/Transfer/Failed.antt =====
-- A transfer that fails.
use go_hermes.Base.{true, [], ◌∷◌, ◌≡◌, refl}
use go_hermes.AppError.{Error, err, is_app, bad_request, validation}
use go_hermes.UuidLib.{UuidLib}
use go_hermes.Types.{TransferRequest}
use go_hermes.Webhook.Create.{WebhookNotifier}
use go_hermes.Store.{Repositories, some_or-ok, some_or}
use go_hermes.TransactionUsecase.Transfer.Calls.{transfer_tx-IsCalls}
use go_hermes.Store.Laws.{IsStore}
use go_hermes.TransactionUsecase.Common.{Draws, Outcome, World, check_request}
use go_hermes.TransactionUsecase.Common.Replay.{check_request-ok, finish-err}
use go_hermes.TransactionUsecase.Common.Failure.{
  FailsCleanly, >>=-FailsCleanly, check_request-clean, some_or-clean, within-clean,
}
use go_hermes.TransactionUsecase.Transfer.{transfer_tx, transfer_db, transfer}

module _ (r : Repositories) (l : IsStore r) (u : UuidLib) (n : WebhookNotifier)
    (req : TransferRequest) (d : Draws) where
  transfer_db-clean : (s : r.Db) → FailsCleanly r l (transfer_db r u n req d) s
  unfolding transfer_db
  transfer_db-clean s =
      >>=-FailsCleanly r l (check_request req.idempotency_key req.amount) _ s
        (check_request-clean r l req.idempotency_key req.amount s)
        λ _ s1 h1. (
          (check_request-ok req.idempotency_key req.amount s h1).2,
          >>=-FailsCleanly r l (some_or (u.parse req.user_id) (bad_request "invalid user id")) _ s1
              (some_or-clean r l _ _ s1 refl)
              λ user_id s2 h2. (
                (some_or-ok _ _ s1 h2).1,
                >>=-FailsCleanly r l
                    (some_or (u.parse req.recipient_wallet_id)
                      (validation (("recipient_wallet_id", "must be a valid UUID") ∷ [])))
                    _ s2 (some_or-clean r l _ _ s2 refl)
                    λ recipient_id s3 h3. (
                      (some_or-ok _ _ s2 h3).1,
                      within-clean r l Outcome (transfer_tx r u n req d user_id recipient_id) s3
                          (transfer_tx-IsCalls r u n req d user_id recipient_id),
                    ),
              ),
        )

  -- A transfer that fails changes no table and queues nothing, and its error is an application error.
  pub transfer-err :
      (w w' : World r.Db) (e : Error)
      → transfer r u n req d w ≡ (err e, w')
      → (l.view w'.db ≡ l.view w.db) × (w'.queue ≡ w.queue) × (is_app e ≡ true)
  unfolding transfer
  transfer-err w w' e h =
      let (run, kept) = finish-err n w.queue (transfer_db r u n req d w.db) h in
      let (same, known) = transfer_db-clean w.db e w'.db run in (same, kept, known)
