-- ===== src/TransactionUsecase/TopUp/Effect.antt =====
-- The effect of a top-up that ends well, on every table.
use go_hermes.Base.{ℕ, Option, some, List, [], ◌∷◌, ◌≡◌, ◌∙◌, ap}
use go_hermes.Base.Int.{pos, ◌≤ℤ◌}
use go_hermes.Base.Int64.{add64}
use go_hermes.AppError.{ok}
use go_hermes.Json.{Json}
use go_hermes.Entity.{Uuid, Wallet, Transaction, LedgerEntry, AuditLog, WebhookDelivery}
use go_hermes.UuidLib.{UuidLib}
use go_hermes.Types.{TopUpRequest}
use go_hermes.Webhook.Create.{WebhookNotifier}
use go_hermes.Webhook.Create.Effect.{deliver, create_top_up_delivery-ok}
use go_hermes.Store.{Repositories, >>=-ok, pure-ok}
use go_hermes.Store.View.{
  View, wallet_by_id, put_wallet, set_wallets, add_transaction, add_entries, add_audit,
  complete_key,
}
use go_hermes.Store.Laws.{IsStore, SameTransaction, SameWallet}
use go_hermes.TransactionUsecase.Common.{Draws, Outcome, done}
use go_hermes.TransactionUsecase.TopUp.{
  top_up_transaction, credited, top_up_entry, top_up_audit, top_up_payload, top_up_write,
}

module _ (u : UuidLib) (req : TopUpRequest) (d : Draws) (user_id : Uuid) (w : Wallet) where
  -- The rows that a top-up of the wallet `w` leaves behind.
  pub record Written (v v' : View) (out : Outcome) : Type 0 where
    pub row : Transaction
    pub wallet : Wallet
    pub delivery : Option WebhookDelivery
    pub row_same : SameTransaction (top_up_transaction req user_id d w) row
    pub wallet_same : SameWallet (credited w req.amount) wallet
    pub nonneg : pos 0 ≤ℤ add64 w.balance req.amount
    pub tables :
        v'
        ≡ complete_key
            (deliver
              (add_audit
                (add_entries
                  (set_wallets (add_transaction v row) (put_wallet wallet v.wallets))
                  (top_up_entry req d row w ∷ []))
                (top_up_audit u req user_id d row w))
              delivery)
            d.record_id
            200
            (top_up_payload u row wallet)
    pub outcome : out ≡ done (top_up_payload u row wallet) delivery

-- The six statements in turn.
chain :
    (a : View) {b c e f g h : View} (x : Transaction) (w : Wallet) (es : List LedgerEntry)
    (log : AuditLog) (o : Option WebhookDelivery) (i : Uuid) (status : ℕ) (body : Json)
    → b ≡ add_transaction a x
    → c ≡ set_wallets b (put_wallet w b.wallets)
    → e ≡ add_entries c es
    → f ≡ add_audit e log
    → g ≡ deliver f o
    → h ≡ complete_key g i status body
    → h
      ≡ complete_key
          (deliver
            (add_audit
              (add_entries (set_wallets (add_transaction a x) (put_wallet w a.wallets)) es)
              log)
            o)
          i
          status
          body
chain a x w es log o i status body p1 p2 p3 p4 p5 p6 = rw (p6, p5, p4, p3, p2, p1)

module _ (r : Repositories) (l : IsStore r) (u : UuidLib) (n : WebhookNotifier) (req : TopUpRequest)
    (d : Draws) where
  pub top_up_write-ok :
      (user_id : Uuid) (w : Wallet) (s t : r.Db) (out : Outcome)
      → wallet_by_id w.id (l.view s).wallets ≡ some w
      → top_up_write r u n req d user_id w s ≡ (ok out, t)
      → Written u req d user_id w (l.view s) (l.view t) out
  unfolding top_up_write
  top_up_write-ok user_id w s t out present h =
      let (x, s1, e1, h1) = >>=-ok _ _ _ h in
      let (w', s2, e2, h2) = >>=-ok _ _ _ h1 in
      let (_, s3, e3, h3) = >>=-ok _ _ _ h2 in
      let (_, s4, e4, h4) = >>=-ok _ _ _ h3 in
      let (o, s5, e5, h5) = >>=-ok _ _ _ h4 in
      let (_, s6, e6, h6) = >>=-ok _ _ _ h5 in
      let (same, last) = pure-ok h6 in
      let (row_same, v1) = l.transaction_created _ x s s1 e1 in
      let (wallet_same, nonneg, v2) =
        l.wallet_updated _ w' w s1 s2 (ap (λ v. wallet_by_id w.id v.wallets) v1 ∙ present) e2 in
      let v3 = l.entries_created _ s2 s3 _ e3 in
      let v4 = l.audit_created _ s3 s4 _ e4 in
      let v5 = create_top_up_delivery-ok r l u n d.delivery x w' s4 s5 o e5 in
      let v6 = l.record_completed _ _ _ s5 s6 _ e6 in
      record {
        row = x;
        wallet = w';
        delivery = o;
        row_same = row_same;
        wallet_same = wallet_same;
        nonneg = nonneg;
        tables = ap l.view last ∙ chain (l.view s) x w' _ _ o _ _ _ v1 v2 v3 v4 v5 v6;
        outcome = same;
      }
