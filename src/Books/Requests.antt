-- ===== src/Books/Requests.antt =====
-- What a request that writes posts.
use go_hermes.Base.{[], ◌∷◌, ◌++◌, ◌≡◌, inl, inr, refl, sym, ap, ◌∙◌, subst}
use go_hermes.Base.Int.{pos, ◌≤ℤ◌}
use go_hermes.Base.Int64.{IsInt64}
use go_hermes.AuthUsecase.{AuthLib, AuthDraws, register}
use go_hermes.AuthUsecase.Account.{register-IsAccount}
use go_hermes.AuthUsecase.Failure.{register-err}
use go_hermes.Books.History.{Step, Reach, registered, topped_up, transferred, here, next}
use go_hermes.Books.Posted.{IsPosted, UniqueTransactions, Posts-IsPosted}
use go_hermes.Books.Posting.{Posting, Posts, top_up-Posting, transfer-Posting}
use go_hermes.Entity.{Uuid}
use go_hermes.Handler.Keeps.{register_handler-keeps, top_up_handler-keeps, transfer_handler-keeps}
use go_hermes.Store.{Repositories}
use go_hermes.Store.Laws.{IsStore, IsAccountStore}
use go_hermes.Store.View.{View}
use go_hermes.TransactionUsecase.Common.{Draws, Outcome, World}
use go_hermes.TransactionUsecase.Common.Replay.{Result-cases}
use go_hermes.TransactionUsecase.TopUp.{top_up}
use go_hermes.TransactionUsecase.TopUp.Run as TopUpRun
use go_hermes.TransactionUsecase.Transfer.{transfer}
use go_hermes.TransactionUsecase.Transfer.Failed.{transfer-err}
use go_hermes.TransactionUsecase.Transfer.Run as TransferRun
use go_hermes.Types.{RegisterRequest, TopUpRequest, TransferRequest}
use go_hermes.UuidLib.{UuidLib}
use go_hermes.Webhook.Create.{WebhookNotifier}

module _ (u : UuidLib) where
  Posting-over :
      (v v1 v' : View)
      → v1.transactions ≡ v.transactions
      → v1.ledger ≡ v.ledger
      → Posting u v1 v'
      → Posting u v v'
  Posting-over v v1 v' same kept p = record {
    row = p.row;
    entries = p.entries;
    transactions = p.transactions ∙ ap (λ xs. xs ++ p.row ∷ []) same;
    ledger = p.ledger ∙ ap (λ es. es ++ p.entries) kept;
    own = p.own;
    passes = p.passes;
    math = p.math;
  }

  Posts-none : (v v' : View) → v' ≡ v → Posts u v v'
  Posts-none v v' e = inl (ap (λ k. k.transactions) e, ap (λ k. k.ledger) e)

  module _ (r : Repositories) (l : IsStore r) (n : WebhookNotifier) where
    top_up-Posts :
        (d : Draws) (w : World r.Db) (req : TopUpRequest)
        → IsInt64 req.amount
        → Posts u (l.view w.db) (l.view (top_up r u n req d w).1.db)
    top_up-Posts d w req range = elim (Result-cases (top_up r u n req d w)) [
      | inl (res, w', h) ↦
          let (user_id, out, _, positive, ran, _, _) =
            TopUpRun.top_up-ok r l u n req d w w' res h in
          subst (λ p. Posts u (l.view w.db) (l.view p.1.db)) (sym h)
            (posted user_id out w' positive ran)
      | inr (e, w', h) ↦
          Posts-none _ _
            (ap (λ p. l.view p.1.db) h ∙ (TopUpRun.top_up-err r l u n req d w w' e h).0)
    ]
      where
        posted :
            (user_id : Uuid) (out : Outcome) (w' : World r.Db)
            → pos 1 ≤ℤ req.amount
            → TopUpRun.Ran u req d user_id (l.view w.db) (l.view w'.db) out
            → Posts u (l.view w.db) (l.view w'.db)
        posted user_id out w' positive (inl f) = inr (
            Posting-over _ _ _ refl refl
              (top_up-Posting u req d user_id f.target _ _ out f.written range positive))
        posted user_id out w' positive (inr (same, _)) = Posts-none _ _ same

    transfer-Posts :
        (d : Draws) (w : World r.Db) (req : TransferRequest)
        → IsInt64 req.amount
        → Posts u (l.view w.db) (l.view (transfer r u n req d w).1.db)
    transfer-Posts d w req range = elim (Result-cases (transfer r u n req d w)) [
      | inl (res, w', h) ↦
          let (user_id, recipient_id, out, _, _, positive, ran, _, _) =
            TransferRun.transfer-ok r l u n req d w w' res h in
          subst (λ p. Posts u (l.view w.db) (l.view p.1.db)) (sym h)
            (posted user_id recipient_id out w' positive ran)
      | inr (e, w', h) ↦
          Posts-none _ _ (ap (λ p. l.view p.1.db) h ∙ (transfer-err r l u n req d w w' e h).0)
    ]
      where
        posted :
            (user_id recipient_id : Uuid) (out : Outcome) (w' : World r.Db)
            → pos 1 ≤ℤ req.amount
            → TransferRun.Ran u req d user_id recipient_id (l.view w.db) (l.view w'.db) out
            → Posts u (l.view w.db) (l.view w'.db)
        posted user_id recipient_id out w' positive (inl f) = inr (
            Posting-over _ _ _ refl refl (
              transfer-Posting u req d user_id f.sender f.recipient _ _ out f.written range positive
                f.differ))
        posted user_id recipient_id out w' positive (inr (same, _)) = Posts-none _ _ same

    module _ (al : IsAccountStore r l.view) (a : AuthLib) where
      register-Posts :
          (d : AuthDraws) (s : r.Db) (req : RegisterRequest)
          → Posts u (l.view s) (l.view (register r u a d req s).1)
      register-Posts d s req = elim (Result-cases (register r u a d req s)) [
        | inl (res, t, h) ↦
            let (x, w, account, _) = register-IsAccount r l al u a d req s t res h in
            subst (λ p. Posts u (l.view s) (l.view p.1)) (sym h)
              (inl (ap (λ k. k.transactions) account.tables, ap (λ k. k.ledger) account.tables))
        | inr (e, t, h) ↦
            Posts-none _ _ (ap (λ p. l.view p.1) h ∙ register-err r l al u a d req s t e h)
      ]

      Step-Posts : (w w' : World r.Db) → Step r u n a w w' → Posts u (l.view w.db) (l.view w'.db)
      Step-Posts w w' (registered d b c e) =
          subst (λ x. Posts u (l.view w.db) (l.view x.db)) (sym e)
            (register_handler-keeps r u (λ s. Posts u (l.view w.db) (l.view s)) a d b c w.db
              (λ req. register-Posts d w.db req) (Posts-none _ _ refl))
      Step-Posts w w' (topped_up d b c int64 e) =
          subst (λ x. Posts u (l.view w.db) (l.view x.db)) (sym e)
            (top_up_handler-keeps r u n (λ x. Posts u (l.view w.db) (l.view x.db)) d c w b
              (λ req asked.
                let (body, parsed, same) = asked in
                top_up-Posts d w req (subst IsInt64 (sym same) (int64 body parsed)))
              (Posts-none _ _ refl))
      Step-Posts w w' (transferred d b c int64 e) =
          subst (λ x. Posts u (l.view w.db) (l.view x.db)) (sym e)
            (transfer_handler-keeps r u n (λ x. Posts u (l.view w.db) (l.view x.db)) d c w b
              (λ req asked.
                let (body, parsed, same) = asked in
                transfer-Posts d w req (subst IsInt64 (sym same) (int64 body parsed)))
              (Posts-none _ _ refl))

      pub Reach-IsPosted :
          {w w' : World r.Db}
          → Reach r u n a w w'
          → IsPosted u (l.view w.db).transactions (l.view w.db).ledger
          → UniqueTransactions (l.view w'.db).transactions
          → IsPosted u (l.view w'.db).transactions (l.view w'.db).ledger
      Reach-IsPosted here posted unique = posted
      Reach-IsPosted (next before step) posted unique =
          Posts-IsPosted u _ _ (Step-Posts _ _ step) (λ k. Reach-IsPosted before posted k) unique
