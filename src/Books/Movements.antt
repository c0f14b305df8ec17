-- ===== src/Books/Movements.antt =====
-- TopUp and Transfer write the entry of every change of a balance.
use mathlib.Core.List.{append_assoc}
use go_hermes.Base.{some, List, [], ◌∷◌, ◌++◌, ◌≡◌, ◌≢◌, inl, inr, refl, sym, ◌∙◌, ap, subst}
use go_hermes.Base.Int.{pos, ◌≤ℤ◌}
use go_hermes.Books.{IsBooked, IsBooked-put}
use go_hermes.Entity.{Uuid, Wallet, LedgerEntry}
use go_hermes.Store.{Repositories}
use go_hermes.Store.Laws.{IsStore}
use go_hermes.Store.View.{View, wallet_by_id, put_wallet}
use go_hermes.Store.Wallets.{wallet_by_id-put_ne}
use go_hermes.TransactionUsecase.Common.{Draws, Outcome, World}
use go_hermes.TransactionUsecase.Common.Replay.{Result-cases}
use go_hermes.TransactionUsecase.TopUp.{top_up, top_up_entry}
use go_hermes.TransactionUsecase.TopUp.Effect as TopUpEffect
use go_hermes.TransactionUsecase.TopUp.Run as TopUpRun
use go_hermes.TransactionUsecase.Transfer.{transfer, debit_entry, credit_entry}
use go_hermes.TransactionUsecase.Transfer.Effect as TransferEffect
use go_hermes.TransactionUsecase.Transfer.Failed.{transfer-err}
use go_hermes.TransactionUsecase.Transfer.Run as TransferRun
use go_hermes.Types.{TopUpRequest, TransferRequest}
use go_hermes.UuidLib.{UuidLib}
use go_hermes.Webhook.Create.{WebhookNotifier}
use go_hermes.Webhook.Create.Effect.{deliver-wallets, deliver-ledger}

-- The books of a view.
abbrev pub Books : View → Type 0
Books v = IsBooked v.ledger v.wallets

pub Books-tables :
    (v v' : View) (ledger : List LedgerEntry) (ws : List Wallet)
    → v'.ledger ≡ ledger
    → v'.wallets ≡ ws
    → IsBooked ledger ws
    → Books v'
Books-tables v v' ledger ws e f h =
    subst (λ k. IsBooked k v'.wallets) (sym e) (subst (IsBooked ledger) (sym f) h)

top_up-Written :
    (u : UuidLib) (req : TopUpRequest) (d : Draws) (user_id : Uuid) (w : Wallet) (v v' : View)
    (out : Outcome)
    → TopUpEffect.Written u req d user_id w v v' out
    → pos 1 ≤ℤ req.amount
    → wallet_by_id w.id v.wallets ≡ some w
    → Books v
    → Books v'
unfolding top_up_entry
top_up-Written u req d user_id w v v' out f positive found booked =
    Books-tables v v' _ _ (ap (λ k. k.ledger) f.tables ∙ deliver-ledger _ f.delivery)
      (ap (λ k. k.wallets) f.tables ∙ deliver-wallets _ f.delivery)
      (IsBooked-put v.ledger v.wallets w f.wallet (top_up_entry req d f.row w) booked found
        (ap (λ k. k.id) f.wallet_same) refl refl (sym (ap (λ k. k.balance) f.wallet_same))
        (positive, inl (refl, refl)))

transfer-Written :
    (u : UuidLib) (req : TransferRequest) (d : Draws) (user_id : Uuid) (a b : Wallet) (v v' : View)
    (out : Outcome)
    → TransferEffect.Written u req d user_id a b v v' out
    → pos 1 ≤ℤ req.amount
    → a.id ≢ b.id
    → wallet_by_id a.id v.wallets ≡ some a
    → wallet_by_id b.id v.wallets ≡ some b
    → Books v
    → Books v'
unfolding debit_entry credit_entry
transfer-Written u req d user_id a b v v' out f positive differ found_a found_b booked =
    let debit = debit_entry req d f.row a in
    let credit = credit_entry req d f.row b in
    let id_a = ap (λ k. k.id) f.source_same in
    let half =
      IsBooked-put v.ledger v.wallets a f.source debit booked found_a id_a refl refl
        (sym (ap (λ k. k.balance) f.source_same)) (positive, inr (refl, refl)) in
    Books-tables v v' ((v.ledger ++ debit ∷ []) ++ credit ∷ [])
      (put_wallet f.destination (put_wallet f.source v.wallets))
      (ap (λ k. k.ledger) f.tables
        ∙ (deliver-ledger _ f.delivery ∙ sym (append_assoc v.ledger (debit ∷ []) (credit ∷ []))))
      (ap (λ k. k.wallets) f.tables ∙ deliver-wallets _ f.delivery)
      (IsBooked-put (v.ledger ++ debit ∷ []) (put_wallet f.source v.wallets) b f.destination credit
        half (wallet_by_id-put_ne b.id f.source v.wallets (λ p. differ (sym id_a ∙ p)) ∙ found_b)
        (ap (λ k. k.id) f.destination_same) refl refl (sym (ap (λ k. k.balance) f.destination_same))
        (positive, inl (refl, refl)))

module _ (r : Repositories) (l : IsStore r) (u : UuidLib) (n : WebhookNotifier) (d : Draws)
    (w : World r.Db) where
  pub top_up-Books :
      (req : TopUpRequest) → Books (l.view w.db) → Books (l.view (top_up r u n req d w).1.db)
  top_up-Books req booked = elim (Result-cases (top_up r u n req d w)) [
    | inl (res, w', h) ↦
        let (user_id, out, _, positive, ran, _, _) = TopUpRun.top_up-ok r l u n req d w w' res h in
        subst (λ p. Books (l.view p.1.db)) (sym h) (ended user_id out w' positive ran)
    | inr (e, w', h) ↦
        subst (λ p. Books (l.view p.1.db)) (sym h)
          (subst Books (sym (TopUpRun.top_up-err r l u n req d w w' e h).0) booked)
  ]
    where
      ended :
          (user_id : Uuid) (out : Outcome) (w' : World r.Db)
          → pos 1 ≤ℤ req.amount
          → TopUpRun.Ran u req d user_id (l.view w.db) (l.view w'.db) out
          → Books (l.view w'.db)
      ended user_id out w' positive (inl f) =
          top_up-Written u req d user_id f.target _ _ out f.written positive f.present booked
      ended user_id out w' positive (inr (same, _)) = subst Books (sym same) booked

  pub transfer-Books :
      (req : TransferRequest) → Books (l.view w.db) → Books (l.view (transfer r u n req d w).1.db)
  transfer-Books req booked = elim (Result-cases (transfer r u n req d w)) [
    | inl (res, w', h) ↦
        let (user_id, recipient_id, out, _, _, positive, ran, _, _) =
          TransferRun.transfer-ok r l u n req d w w' res h in
        subst (λ p. Books (l.view p.1.db)) (sym h) (ended user_id recipient_id out w' positive ran)
    | inr (e, w', h) ↦
        subst (λ p. Books (l.view p.1.db)) (sym h)
          (subst Books (sym (transfer-err r l u n req d w w' e h).0) booked)
  ]
    where
      ended :
          (user_id recipient_id : Uuid) (out : Outcome) (w' : World r.Db)
          → pos 1 ≤ℤ req.amount
          → TransferRun.Ran u req d user_id recipient_id (l.view w.db) (l.view w'.db) out
          → Books (l.view w'.db)
      ended user_id recipient_id out w' positive (inl f) =
          transfer-Written u req d user_id f.sender f.recipient _ _ out f.written positive f.differ
            f.sender_present f.recipient_present booked
      ended user_id recipient_id out w' positive (inr (same, _)) = subst Books (sym same) booked
