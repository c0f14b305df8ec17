-- ===== src/TransactionUsecase/Transfer/Run.antt =====
-- A whole run of Transfer that ended well, taken apart.
use go_hermes.Base.{some, ◌≡◌, ◌⊎◌, inl, inr, sym, ◌∙◌, ap, subst}
use go_hermes.Base.Int.{pos, ◌≤ℤ◌}
use go_hermes.AppError.{ok}
use go_hermes.Entity.{Uuid}
use go_hermes.UuidLib.{UuidLib}
use go_hermes.Types.{TransferRequest, OperationResult}
use go_hermes.Webhook.Create.{WebhookNotifier, enqueue_some}
use go_hermes.Store.{Repositories, >>=-ok, if-ends, some_or-ok, map_error-ok}
use go_hermes.Store.View.{View}
use go_hermes.TransactionUsecase.Transfer.Calls.{transfer_tx-IsCalls}
use go_hermes.Store.Laws.{IsStore}
use go_hermes.TransactionUsecase.Common.{Draws, pending_record, Outcome, World}
use go_hermes.TransactionUsecase.Common.Replay.{
  Answered, answer_again-ok, check_request-ok, finish-ok,
}
use go_hermes.TransactionUsecase.Transfer.{transfer_endpoint, transfer_tx, transfer_db, transfer}
use go_hermes.TransactionUsecase.Transfer.Fresh.{reservation, Fresh, transfer_fresh-ok}

-- A run ended well: it moved money, or it answered from the record of its key.
abbrev pub Ran : UuidLib → TransferRequest → Draws → Uuid → Uuid → View → View → Outcome → Type 0
Ran u req d user_id recipient_wallet_id v v' out =
    Fresh u req d user_id recipient_wallet_id v v' out
    ⊎ ((v' ≡ v) × Answered v req.idempotency_key user_id transfer_endpoint req.request_hash out)

module _ (r : Repositories) (l : IsStore r) (u : UuidLib) (n : WebhookNotifier)
    (req : TransferRequest) (d : Draws) where
  transfer_tx-ok :
      (user_id recipient_id : Uuid) (s t : r.Db) (out : Outcome)
      → transfer_tx r u n req d user_id recipient_id s ≡ (ok out, t)
      → Ran u req d user_id recipient_id (l.view s) (l.view t) out
  unfolding transfer_tx pending_record
  transfer_tx-ok user_id recipient_id s t out h =
      let (inserted, s1, e1, h1) = >>=-ok _ _ _ h in
      elim (if-ends inserted _ _ _ _ h1) [
        | inl (yes_free, run) ↦
            let (free, stored) = l.record_reserved (reservation u req d user_id recipient_id) s s1 (
              subst
                (λ b.
                  r.idempotency.reserve (reservation u req d user_id recipient_id) s ≡ (ok b, s1))
                yes_free e1) in
            let (x, same, v1) = stored in
            inl (
              transfer_fresh-ok r l u n req d user_id recipient_id x (l.view s) s1 t out free same
                v1 run)
        | inr (taken, run) ↦
            let v1 = l.record_present (reservation u req d user_id recipient_id) s s1 (
              subst
                (λ b.
                  r.idempotency.reserve (reservation u req d user_id recipient_id) s ≡ (ok b, s1))
                taken e1) in
            let (v2, answered) = answer_again-ok r l _ user_id _ _ s1 t out run in
            inr (
              v2 ∙ v1,
              subst
                  (λ v.
                    Answered v req.idempotency_key user_id transfer_endpoint req.request_hash out)
                  v1 answered,
            )
      ]

  -- A transfer that ends well has run its transaction for the caller and queued its delivery.
  pub transfer-ok :
      (w w' : World r.Db) (res : OperationResult)
      → transfer r u n req d w ≡ (ok res, w')
      → (user_id : Uuid) × (recipient_id : Uuid) × (out : Outcome) × (u.parse req.user_id
          ≡ some user_id)
        × (u.parse req.recipient_wallet_id ≡ some recipient_id)
        × (pos 1 ≤ℤ req.amount)
        × Ran u req d user_id recipient_id (l.view w.db) (l.view w'.db) out
        × (res ≡ out.0)
        × (w'.queue ≡ enqueue_some n w.queue out.1)
  unfolding transfer transfer_db
  transfer-ok w w' res h =
      let (out, run, same, queued) = finish-ok n w.queue (transfer_db r u n req d w.db) h in
      let (_, s1, e1, h1) = >>=-ok _ _ _ run in
      let (user_id, s2, e2, h2) = >>=-ok _ _ _ h1 in
      let (recipient_id, s3, e3, h3) = >>=-ok _ _ _ h2 in
      let (_, positive, kept1) = check_request-ok _ _ _ e1 in
      let (parsed, kept2) = some_or-ok _ _ _ e2 in
      let (parsed', kept3) = some_or-ok _ _ _ e3 in
      let (b, t, begun, inner, v) =
        l.commits Outcome _ s3 w'.db out (transfer_tx-IsCalls r u n req d user_id recipient_id)
          (map_error-ok _ _ _ h3) in
      let ran = transfer_tx-ok user_id recipient_id b t out inner in
      (
        user_id,
        recipient_id,
        out,
        parsed,
        parsed',
        positive,
        subst (λ v'. Ran u req d user_id recipient_id (l.view w.db) v' out) (sym v)
            (subst (λ v0. Ran u req d user_id recipient_id v0 (l.view t) out)
              (begun ∙ ap l.view (kept3 ∙ kept2 ∙ kept1)) ran),
        same,
        queued,
      )
