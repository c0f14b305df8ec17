-- ===== src/System/Settled.antt =====
-- The row of a delivery that has ended.
use go_hermes.Base.{
  Bool, true, Option, none, some, List, [], ◌∷◌, ◌++◌, ◌≡◌, ◌≢◌, inl, inr, sym, ap, ◌∙◌, subst,
  arith, find, true_ne_false,
}
use go_hermes.AuthUsecase.{AuthLib, AuthDraws, register}
use go_hermes.AuthUsecase.Account.{register-IsAccount}
use go_hermes.AuthUsecase.Failure.{register-err}
use go_hermes.Books.History.{Step, registered, topped_up, transferred}
use go_hermes.Entity.{Uuid, WebhookDelivery}
use go_hermes.Handler.Keeps.{register_handler-keeps, top_up_handler-keeps, transfer_handler-keeps}
use go_hermes.Store.{Repositories}
use go_hermes.Store.Deliveries.{delivery_by_id-id, delivery_by_id-put_ne}
use go_hermes.Store.Laws.{IsStore, IsAccountStore, IsWorkerStore}
use go_hermes.Store.View.{View, delivery_by_id}
use go_hermes.System.{Move, Run, requested, worked, start, move}
use go_hermes.TransactionUsecase.Common.{Draws, Outcome, World}
use go_hermes.TransactionUsecase.Common.Replay.{Result-cases}
use go_hermes.TransactionUsecase.TopUp.{top_up}
use go_hermes.TransactionUsecase.TopUp.Run as TopUpRun
use go_hermes.TransactionUsecase.Transfer.{transfer}
use go_hermes.TransactionUsecase.Transfer.Failed.{transfer-err}
use go_hermes.TransactionUsecase.Transfer.Run as TransferRun
use go_hermes.Types.{RegisterRequest, TopUpRequest, TransferRequest}
use go_hermes.UuidLib.{UuidLib}
use go_hermes.Webhook.Create.{WebhookConfig, service}
use go_hermes.Webhook.Create.Effect.{deliver}
use go_hermes.Webhook.Delivery.{is_final}
use go_hermes.Webhook.Delivery.Once.{attempt-id}
use go_hermes.Webhook.Worker.Rounds.{Survives, saved_as, WorkerStep-keeps}

find-append :
    {A : Type 0} (p : A → Bool) (xs ys : List A) (x : A)
    → find p xs ≡ some x
    → find p (xs ++ ys) ≡ some x
find-append p [] ys x h = absurd (ground arith)
find-append p (y ∷ xs) ys x h = ground (arith, find-append p xs ys x)

module _ (i : Uuid) (x : WebhookDelivery) where
  abbrev Stands : View → Type 0
  Stands v = delivery_by_id i v.deliveries ≡ some x

  Stands-survives : (c : WebhookConfig) → is_final x.status ≡ true → Survives c Stands
  Stands-survives c final v h now stamp j d found still stands =
      delivery_by_id-put_ne i (saved_as h c now stamp d) v.deliveries x other stands
    where
      other : (saved_as h c now stamp d).id ≢ i
      other p =
          let same : j ≡ i =
            sym (delivery_by_id-id j v.deliveries d found) ∙ (sym (attempt-id h c now d) ∙ p) in
          let row : some d ≡ some x =
            sym found ∙ (ap (λ k. delivery_by_id k v.deliveries) same ∙ stands) in
          let same_row : d ≡ x = cc in
          true_ne_false (sym final ∙ (ap (λ k. is_final k.status) (sym same_row) ∙ still))

  deliver-Stands : (v : View) (o : Option WebhookDelivery) → Stands v → Stands (deliver v o)
  deliver-Stands v none h = h
  deliver-Stands v (some d) h = find-append _ v.deliveries (d ∷ []) x h

  module _ (r : Repositories) (l : IsStore r) (al : IsAccountStore r l.view) (u : UuidLib)
      (c : WebhookConfig) (a : AuthLib) where
    register-Stands :
        (d : AuthDraws) (req : RegisterRequest) (s : r.Db)
        → Stands (l.view s)
        → Stands (l.view (register r u a d req s).1)
    register-Stands d req s h = elim (Result-cases (register r u a d req s)) [
      | inl (res, t, e) ↦
          let (_, _, account, _) = register-IsAccount r l al u a d req s t res e in
          subst (λ p. Stands (l.view p.1)) (sym e)
            (ap (λ k. delivery_by_id i k.deliveries) account.tables ∙ h)
      | inr (x', t, e) ↦
          subst (λ p. Stands (l.view p.1)) (sym e)
            (subst Stands (sym (register-err r l al u a d req s t x' e)) h)
    ]

    top_up-Stands :
        (d : Draws) (req : TopUpRequest) (w : World r.Db)
        → Stands (l.view w.db)
        → Stands (l.view (top_up r u (service c) req d w).1.db)
    top_up-Stands d req w h = elim (Result-cases (top_up r u (service c) req d w)) [
      | inl (res, w', e) ↦
          let (user_id, out, _, _, ran, _, _) =
            TopUpRun.top_up-ok r l u (service c) req d w w' res e in
          subst (λ p. Stands (l.view p.1.db)) (sym e) (ended user_id out w' ran)
      | inr (x', w', e) ↦
          subst (λ p. Stands (l.view p.1.db)) (sym e)
            (subst Stands (sym (TopUpRun.top_up-err r l u (service c) req d w w' x' e).0) h)
    ]
      where
        ended :
            (user_id : Uuid) (out : Outcome) (w' : World r.Db)
            → TopUpRun.Ran u req d user_id (l.view w.db) (l.view w'.db) out
            → Stands (l.view w'.db)
        ended user_id out w' (inl f) =
            ap (λ k. delivery_by_id i k.deliveries) f.written.tables
            ∙ deliver-Stands _ f.written.delivery h
        ended user_id out w' (inr (same, _)) = subst Stands (sym same) h

    transfer-Stands :
        (d : Draws) (req : TransferRequest) (w : World r.Db)
        → Stands (l.view w.db)
        → Stands (l.view (transfer r u (service c) req d w).1.db)
    transfer-Stands d req w h = elim (Result-cases (transfer r u (service c) req d w)) [
      | inl (res, w', e) ↦
          let (user_id, recipient_id, out, _, _, _, ran, _, _) =
            TransferRun.transfer-ok r l u (service c) req d w w' res e in
          subst (λ p. Stands (l.view p.1.db)) (sym e) (ended user_id recipient_id out w' ran)
      | inr (x', w', e) ↦
          subst (λ p. Stands (l.view p.1.db)) (sym e)
            (subst Stands (sym (transfer-err r l u (service c) req d w w' x' e).0) h)
    ]
      where
        ended :
            (user_id recipient_id : Uuid) (out : Outcome) (w' : World r.Db)
            → TransferRun.Ran u req d user_id recipient_id (l.view w.db) (l.view w'.db) out
            → Stands (l.view w'.db)
        ended user_id recipient_id out w' (inl f) =
            ap (λ k. delivery_by_id i k.deliveries) f.written.tables
            ∙ deliver-Stands _ f.written.delivery h
        ended user_id recipient_id out w' (inr (same, _)) = subst Stands (sym same) h

    Step-Stands :
        (w w' : World r.Db)
        → Step r u (service c) a w w'
        → Stands (l.view w.db)
        → Stands (l.view w'.db)
    Step-Stands w w' (registered d b req e) h =
        subst (λ k. Stands (l.view k.db)) (sym e)
          (register_handler-keeps r u (λ s. Stands (l.view s)) a d b req w.db
            (λ body. register-Stands d body w.db h) h)
    Step-Stands w w' (topped_up d b req int64 e) h =
        subst (λ k. Stands (l.view k.db)) (sym e)
          (top_up_handler-keeps r u (service c) (λ k. Stands (l.view k.db)) d req w b
            (λ body asked. top_up-Stands d body w h) h)
    Step-Stands w w' (transferred d b req int64 e) h =
        subst (λ k. Stands (l.view k.db)) (sym e)
          (transfer_handler-keeps r u (service c) (λ k. Stands (l.view k.db)) d req w b
            (λ body asked. transfer-Stands d body w h) h)

    Move-Stands :
        IsWorkerStore r l.view
        → is_final x.status ≡ true
        → (w w' : World r.Db) → Move r u c a w w'
        → Stands (l.view w.db)
        → Stands (l.view w'.db)
    Move-Stands law final w w' (requested s) h = Step-Stands w w' s h
    Move-Stands law final w w' (worked s) h =
        WorkerStep-keeps r l.view law c Stands (Stands-survives c final) w w' s h

    -- The row of a delivery that has succeeded or failed is never written again: in any run of requests
    -- and rounds of the worker, whatever its receivers answer, whichever statements fail and however
    -- often its id comes off the channel, every later state has the same row under its id.
    pub settled_stays :
        {w w' : World r.Db}
        → IsWorkerStore r l.view
        → is_final x.status ≡ true
        → Run r u c a w w'
        → delivery_by_id i (l.view w.db).deliveries ≡ some x
        → delivery_by_id i (l.view w'.db).deliveries ≡ some x
    settled_stays law final start h = h
    settled_stays law final (move before step) h =
        Move-Stands law final _ _ step (settled_stays law final before h)
