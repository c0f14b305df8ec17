-- ===== src/TransactionUsecase/Transfer/Effect.antt =====
-- The effect of a transfer that ends well, on every table.
use go_hermes.Base.{ℕ, Option, some, List, [], ◌∷◌, ◌≡◌, ◌≢◌, sym, ◌∙◌, ap}
use go_hermes.Base.Int.{pos, ◌≤ℤ◌}
use go_hermes.Base.Int64.{add64, sub64}
use go_hermes.AppError.{ok}
use go_hermes.Json.{Json}
use go_hermes.Entity.{Uuid, Wallet, Transaction, LedgerEntry, AuditLog, WebhookDelivery}
use go_hermes.UuidLib.{UuidLib}
use go_hermes.Types.{TransferRequest}
use go_hermes.Webhook.Create.{WebhookNotifier}
use go_hermes.Webhook.Create.Effect.{deliver, create_transfer_delivery-ok}
use go_hermes.Store.{Repositories, >>=-ok, pure-ok}
use go_hermes.Store.View.{
  View, wallet_by_id, put_wallet, set_wallets, add_transaction, add_entries, add_audit,
  complete_key,
}
use go_hermes.Store.Laws.{IsStore, SameTransaction, SameWallet}
use go_hermes.Store.Wallets.{wallet_by_id-put_ne}
use go_hermes.TransactionUsecase.Common.{Draws, Outcome, done}
use go_hermes.TransactionUsecase.TopUp.{credited}
use go_hermes.TransactionUsecase.Transfer.{
  transfer_transaction, debited, debit_entry, credit_entry, transfer_audit, transfer_payload,
  transfer_write,
}

module _ (u : UuidLib) (req : TransferRequest) (d : Draws) (user_id : Uuid) (a b : Wallet) where
  -- The rows that a transfer from the wallet `a` to the wallet `b` leaves behind.
  pub record Written (v v' : View) (out : Outcome) : Type 0 where
    pub row : Transaction
    pub source : Wallet
    pub destination : Wallet
    pub delivery : Option WebhookDelivery
    pub row_same : SameTransaction (transfer_transaction req user_id d a b) row
    pub source_same : SameWallet (debited a req.amount) source
    pub destination_same : SameWallet (credited b req.amount) destination
    pub source_nonneg : pos 0 ≤ℤ sub64 a.balance req.amount
    pub destination_nonneg : pos 0 ≤ℤ add64 b.balance req.amount
    pub tables :
        v'
        ≡ complete_key
            (deliver
              (add_audit
                (add_entries
                  (set_wallets
                    (add_transaction v row)
                    (put_wallet destination (put_wallet source v.wallets)))
                  (debit_entry req d row a ∷ credit_entry req d row b ∷ []))
                (transfer_audit u req user_id d row a b))
              delivery)
            d.record_id
            200
            (transfer_payload u row source destination)
    pub outcome : out ≡ done (transfer_payload u row source destination) delivery

-- The seven statements in turn.
chain :
    (v : View) {b c e f g h k : View} (x : Transaction) (w w' : Wallet) (es : List LedgerEntry)
    (log : AuditLog) (o : Option WebhookDelivery) (i : Uuid) (status : ℕ) (body : Json)
    → b ≡ add_transaction v x
    → c ≡ set_wallets b (put_wallet w b.wallets)
    → e ≡ set_wallets c (put_wallet w' c.wallets)
    → f ≡ add_entries e es
    → g ≡ add_audit f log
    → h ≡ deliver g o
    → k ≡ complete_key h i status body
    → k
      ≡ complete_key
          (deliver
            (add_audit
              (add_entries
                (set_wallets (add_transaction v x) (put_wallet w' (put_wallet w v.wallets)))
                es)
              log)
            o)
          i
          status
          body
chain v x w w' es log o i status body p1 p2 p3 p4 p5 p6 p7 = rw (p7, p6, p5, p4, p3, p2, p1)

-- The second update finds its row where the first has left it.
still_there :
    (v : View) {b c : View} (x : Transaction) (w w' old : Wallet)
    → b ≡ add_transaction v x
    → c ≡ set_wallets b (put_wallet w b.wallets)
    → w.id ≢ w'.id
    → wallet_by_id w'.id v.wallets ≡ some old
    → wallet_by_id w'.id c.wallets ≡ some old
still_there v x w w' old p1 p2 differ h = rw (p2, p1, wallet_by_id-put_ne w'.id w _ differ) h

module _ (r : Repositories) (l : IsStore r) (u : UuidLib) (n : WebhookNotifier)
    (req : TransferRequest) (d : Draws) where
  pub transfer_write-ok :
      (user_id : Uuid) (a b : Wallet) (s t : r.Db) (out : Outcome)
      → a.id ≢ b.id
      → wallet_by_id a.id (l.view s).wallets ≡ some a
      → wallet_by_id b.id (l.view s).wallets ≡ some b
      → transfer_write r u n req d user_id a b s ≡ (ok out, t)
      → Written u req d user_id a b (l.view s) (l.view t) out
  unfolding transfer_write
  transfer_write-ok user_id a b s t out differ found_a found_b h =
      let (x, s1, e1, h1) = >>=-ok _ _ _ h in
      let (a', s2, e2, h2) = >>=-ok _ _ _ h1 in
      let (b', s3, e3, h3) = >>=-ok _ _ _ h2 in
      let (_, s4, e4, h4) = >>=-ok _ _ _ h3 in
      let (_, s5, e5, h5) = >>=-ok _ _ _ h4 in
      let (o, s6, e6, h6) = >>=-ok _ _ _ h5 in
      let (_, s7, e7, h7) = >>=-ok _ _ _ h6 in
      let (same, last) = pure-ok h7 in
      let (row_same, v1) = l.transaction_created _ x s s1 e1 in
      let (source_same, source_nonneg, v2) =
        l.wallet_updated _ a' a s1 s2 (ap (λ v. wallet_by_id a.id v.wallets) v1 ∙ found_a) e2 in
      let differ' : a'.id ≢ b.id = λ p. differ (sym (ap (λ w. w.id) source_same) ∙ p) in
      let (destination_same, destination_nonneg, v3) =
        l.wallet_updated _ b' b s2 s3
          (still_there (l.view s) x a' (credited b req.amount) b v1 v2 differ' found_b) e3 in
      let v4 = l.entries_created _ s3 s4 _ e4 in
      let v5 = l.audit_created _ s4 s5 _ e5 in
      let v6 = create_transfer_delivery-ok r l u n d.delivery x a' b' s5 s6 o e6 in
      let v7 = l.record_completed _ _ _ s6 s7 _ e7 in
      record {
        row = x;
        source = a';
        destination = b';
        delivery = o;
        row_same = row_same;
        source_same = source_same;
        destination_same = destination_same;
        source_nonneg = source_nonneg;
        destination_nonneg = destination_nonneg;
        tables = ap l.view last ∙ chain (l.view s) x a' b' _ _ o _ _ _ v1 v2 v3 v4 v5 v6 v7;
        outcome = same;
      }
