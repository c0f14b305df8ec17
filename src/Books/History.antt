-- ===== src/Books/History.antt =====
-- Registrations, top-ups and transfers in any order, from empty tables on.
use go_hermes.Base.{[], some, ◌≡◌, inl, inr, sym, ap, ◌∙◌, subst, arith}
use go_hermes.Base.Int64.{IsInt64}
use go_hermes.AuthUsecase.{AuthLib, AuthDraws, register}
use go_hermes.AuthUsecase.Account.{register-IsAccount}
use go_hermes.AuthUsecase.Failure.{register-err}
use go_hermes.Books.{IsBooked, IsBooked-open, Chain, entries_of}
use go_hermes.Books.Movements.{Books, Books-tables, top_up-Books, transfer-Books}
use go_hermes.Handler.Account.{register_handler}
use go_hermes.Handler.Input.{HttpRequest, BodyLib, RegisterBody, TopUpBody, TransferBody}
use go_hermes.Handler.Keeps.{register_handler-keeps, top_up_handler-keeps, transfer_handler-keeps}
use go_hermes.Handler.Money.{top_up_handler, transfer_handler}
use go_hermes.Reconciliation.Entry.{derived_balance}
use go_hermes.Reconciliation.Entry.Laws.{derived_balance-last}
use go_hermes.Store.{Repositories}
use go_hermes.Store.Laws.{IsStore, IsAccountStore}
use go_hermes.Store.View.{View, wallet_by_id}
use go_hermes.Entity.{Uuid, Wallet}
use go_hermes.TransactionUsecase.Common.{Draws, World}
use go_hermes.TransactionUsecase.Common.Replay.{Result-cases}
use go_hermes.Types.{RegisterRequest}
use go_hermes.UuidLib.{UuidLib}
use go_hermes.Webhook.Create.{WebhookNotifier}

empty_books : IsBooked [] []
empty_books = record { chained = λ i x h. absurd (ground arith); owned = λ i h. ground arith }

pub empty-Books : (v : View) → v.wallets ≡ [] → v.ledger ≡ [] → Books v
empty-Books v no_wallets no_entries = Books-tables v v [] [] no_entries no_wallets empty_books

module _ (r : Repositories) (u : UuidLib) (n : WebhookNotifier) (a : AuthLib) where
  -- A POST to /auth/register, /wallets/me/top-up or /transfers, with any body whose amount is an int64,
  -- however it ends and with any values drawn.
  pub data Step (w w' : World r.Db) : Type 0 where
    registered :
        (d : AuthDraws) (b : BodyLib RegisterBody) (c : HttpRequest)
        → w' ≡ record { db = (register_handler r u a d b c w.db).1; queue = w.queue }
        → Step w w'
    topped_up :
        (d : Draws) (b : BodyLib TopUpBody) (c : HttpRequest)
        → ((x : TopUpBody) → b.body_parser c ≡ some x → IsInt64 x.amount)
        → w' ≡ (top_up_handler r u n d b c w).1
        → Step w w'
    transferred :
        (d : Draws) (b : BodyLib TransferBody) (c : HttpRequest)
        → ((x : TransferBody) → b.body_parser c ≡ some x → IsInt64 x.amount)
        → w' ≡ (transfer_handler r u n d b c w).1
        → Step w w'

  pub data Reach (w : World r.Db) : World r.Db → Type 0 where
    here : Reach w w
    next : {w' w'' : World r.Db} → Reach w w' → Step w' w'' → Reach w w''

  module _ (l : IsStore r) (al : IsAccountStore r l.view) where
    register-Books :
        (d : AuthDraws) (req : RegisterRequest) (s : r.Db)
        → Books (l.view s)
        → Books (l.view (register r u a d req s).1)
    register-Books d req s booked = elim (Result-cases (register r u a d req s)) [
      | inl (res, t, h) ↦
          let (x, w, account, _) = register-IsAccount r l al u a d req s t res h in
          subst (λ p. Books (l.view p.1)) (sym h)
            (Books-tables (l.view s) (l.view t) _ _ (ap (λ k. k.ledger) account.tables)
              (ap (λ k. k.wallets) account.tables)
              (IsBooked-open (l.view s).ledger (l.view s).wallets w account.empty booked))
      | inr (e, t, h) ↦
          subst (λ p. Books (l.view p.1)) (sym h)
            (subst Books (sym (register-err r l al u a d req s t e h)) booked)
    ]

    Step-Books : (w w' : World r.Db) → Step w w' → Books (l.view w.db) → Books (l.view w'.db)
    Step-Books w w' (registered d b c e) booked =
        subst (λ x. Books (l.view x.db)) (sym e)
          (register_handler-keeps r u (λ s. Books (l.view s)) a d b c w.db
            (λ req. register-Books d req w.db booked) booked)
    Step-Books w w' (topped_up d b c int64 e) booked =
        subst (λ x. Books (l.view x.db)) (sym e)
          (top_up_handler-keeps r u n (λ x. Books (l.view x.db)) d c w b
            (λ req asked. top_up-Books r l u n d w req booked) booked)
    Step-Books w w' (transferred d b c int64 e) booked =
        subst (λ x. Books (l.view x.db)) (sym e)
          (transfer_handler-keeps r u n (λ x. Books (l.view x.db)) d c w b
            (λ req asked. transfer-Books r l u n d w req booked) booked)

    pub Reach-Books : {w w' : World r.Db} → Reach w w' → Books (l.view w.db) → Books (l.view w'.db)
    Reach-Books here booked = booked
    Reach-Books (next before step) booked = Step-Books _ _ step (Reach-Books before booked)

    -- From tables without wallets and ledger entries, after any number of requests to register, to top
    -- up and to transfer in any order, with any bodies and each ending well or badly: the entries of a wallet that is there, in the
    -- order in which they were written, are linked from 0 on, each moves its balance by its positive
    -- amount, and the wallet's balance is the one that the last of them left, which is also the balance
    -- that reconciliation derives from them.
    pub history_balances :
        {w w' : World r.Db}
        → (l.view w.db).wallets ≡ []
        → (l.view w.db).ledger ≡ []
        → Reach w w'
        → (i : Uuid) (x : Wallet) → wallet_by_id i (l.view w'.db).wallets ≡ some x
        → Chain (entries_of i (l.view w'.db).ledger) x.balance
          × (derived_balance (entries_of i (l.view w'.db).ledger) ≡ x.balance)
    history_balances {w} {w'} no_wallets no_entries reached i x found =
        let (recorded, linked, same) =
          (Reach-Books reached (empty-Books (l.view w.db) no_wallets no_entries)).chained i x
            found in
        ((recorded, linked, same), derived_balance-last _ recorded linked ∙ sym same)
