-- ===== src/Store/Laws.antt =====
-- What the code relies on of PostgreSQL and gorm, one hypothesis for each statement it runs: a
-- statement that succeeds has the documented effect on the tables; one that fails may have had
-- any, and the transaction around it rolls back. Nothing says that a statement succeeds.
use go_hermes.Base.{ℕ, ◌++◌, [], ◌∷◌, String, true, false, none, some, List, ◌≡◌, ◌⊎◌, All}
use mathlib.Core.List.{Perm}
use go_hermes.Base.Int.{ℤ, pos, ◌≤ℤ◌}
use go_hermes.Json.{Json}
use go_hermes.AppError.{Error, ok, err}
use go_hermes.Entity.{
  Uuid, Time, User, Wallet, Transaction, LedgerEntry, IdempotencyRecord, AuditLog, WebhookDelivery,
}
use go_hermes.Store.Monad.{M}
use go_hermes.Store.View.{
  View, has_id, wallet_by_id, wallet_of_user, put_wallet, record_by_key, set_wallets,
  add_transaction, add_entries, add_audit, add_delivery, add_record, complete_key, delivery_by_id,
  put_delivery,
}
use go_hermes.Store.{Repositories}
use go_hermes.Store.Calls.{IsCalls}

-- What a stamped row keeps.
abbrev pub SameTransaction : Transaction → Transaction → Type 0
SameTransaction a b = b ≡ record a { created_at = b.created_at; updated_at = b.updated_at }

abbrev pub SameWallet : Wallet → Wallet → Type 0
SameWallet a b = b ≡ record a { updated_at = b.updated_at }

abbrev pub SameRecord : IdempotencyRecord → IdempotencyRecord → Type 0
SameRecord a b = b ≡ record a { created_at = b.created_at; updated_at = b.updated_at }

abbrev pub SameDelivery : WebhookDelivery → WebhookDelivery → Type 0
SameDelivery a b = b ≡ record a { created_at = b.created_at; updated_at = b.updated_at }

pub record IsStore (r : Repositories) : Type 1 where
  -- The committed rows, together with the writes of the transaction that is open.
  pub view : r.Db → View
  -- Transaction, around repository calls: BEGIN, then COMMIT after a function that returned nil,
  -- ROLLBACK after one that did not.
  pub commits :
      (A : Type 0) (f : M r.Db A) (s t : r.Db) (a : A)
      → IsCalls r A f
      → r.tx.within_transaction A f s ≡ (ok a, t)
      → (b : r.Db) × (u : r.Db) × (view b ≡ view s) × (f b ≡ (ok a, u)) × (view t ≡ view u)
  pub rolls_back :
      (A : Type 0) (f : M r.Db A) (s t : r.Db) (e : Error)
      → IsCalls r A f
      → r.tx.within_transaction A f s ≡ (err e, t)
      → view t ≡ view s
  -- SELECT ... WHERE user_id = ?
  pub wallet_found :
      (u : Uuid) (s t : r.Db) (w : Wallet)
      → r.wallets.get_by_user_id u s ≡ (ok w, t)
      → (view t ≡ view s) × (wallet_of_user u (view s).wallets ≡ some w)
  -- SELECT ... WHERE id IN ? FOR UPDATE
  pub wallets_locked :
      (is : List Uuid) (s t : r.Db) (ws : List Wallet)
      → r.wallets.lock_by_ids is s ≡ (ok ws, t)
      → (view t ≡ view s)
        × All (λ w. (wallet_by_id w.id (view s).wallets ≡ some w) × (has_id w.id is ≡ true)) ws
  -- Save of a row that is there: UPDATE wallets, under chk_wallets_balance_non_negative.
  pub wallet_updated :
      (w w' old : Wallet) (s t : r.Db)
      → wallet_by_id w.id (view s).wallets ≡ some old
      → r.wallets.update w s ≡ (ok w', t)
      → SameWallet w w'
        × (pos 0 ≤ℤ w.balance)
        × (view t ≡ set_wallets (view s) (put_wallet w' (view s).wallets))
  pub transaction_created :
      (x x' : Transaction) (s t : r.Db)
      → r.transactions.create x s ≡ (ok x', t)
      → SameTransaction x x' × (view t ≡ add_transaction (view s) x')
  pub entries_created :
      (es : List LedgerEntry) (s t : r.Db) (x : Unit {0})
      → r.ledgers.create_many es s ≡ (ok x, t)
      → view t ≡ add_entries (view s) es
  pub audit_created :
      (a : AuditLog) (s t : r.Db) (x : Unit {0})
      → r.audits.create a s ≡ (ok x, t)
      → view t ≡ add_audit (view s) a
  -- INSERT ... ON CONFLICT (idempotency_key, user_id, endpoint) DO NOTHING
  pub record_reserved :
      (x : IdempotencyRecord) (s t : r.Db)
      → r.idempotency.reserve x s ≡ (ok true, t)
      → (record_by_key x.idempotency_key x.user_id x.endpoint (view s).idempotency ≡ none)
        × ((x' : IdempotencyRecord) × SameRecord x x' × (view t ≡ add_record (view s) x'))
  pub record_present :
      (x : IdempotencyRecord) (s t : r.Db)
      → r.idempotency.reserve x s ≡ (ok false, t)
      → view t ≡ view s
  pub record_found :
      (key : String) (u : Uuid) (endpoint : String) (s t : r.Db) (x : IdempotencyRecord)
      → r.idempotency.get key u endpoint s ≡ (ok x, t)
      → (view t ≡ view s) × (record_by_key key u endpoint (view s).idempotency ≡ some x)
  pub record_completed :
      (i : Uuid) (status : ℕ) (body : Json) (s t : r.Db) (x : Unit {0})
      → r.idempotency.mark_completed i status body s ≡ (ok x, t)
      → view t ≡ complete_key (view s) i status body
  pub delivery_created :
      (d d' : WebhookDelivery) (s t : r.Db)
      → r.webhooks.create d s ≡ (ok d', t)
      → SameDelivery d d' × (view t ≡ add_delivery (view s) d')

abbrev pub SameUser : User → User → Type 0
SameUser a b = b ≡ record a { created_at = b.created_at; updated_at = b.updated_at }

-- INSERT and SELECT of users, INSERT of wallets; a new row comes last. The unique keys are those of
-- the migrations.
pub record IsAccountStore (r : Repositories) (view : r.Db → View) : Type 0 where
  pub user_created :
      (x x' : User) (s t : r.Db)
      → r.users.create x s ≡ (ok x', t)
      → SameUser x x' × (view t ≡ record (view s) { users = (view s).users ++ x' ∷ [] })
  pub user_by_email : (email : String) (s : r.Db) → view (r.users.get_by_email email s).1 ≡ view s
  pub wallet_created :
      (w w' : Wallet) (s t : r.Db)
      → r.wallets.create w s ≡ (ok w', t)
      → (w' ≡ record w { created_at = w'.created_at; updated_at = w'.updated_at })
        × (wallet_of_user w.user_id (view s).wallets ≡ none)
        × (view t ≡ set_wallets (view s) ((view s).wallets ++ w' ∷ []))

-- The statements of the webhook worker, which run outside a transaction: reads change nothing, a Save
-- that succeeds has written its row, and one that fails has written it or changed nothing.
pub record IsWorkerStore (r : Repositories) (view : r.Db → View) : Type 0 where
  pub delivery_read :
      (i : Uuid) (s t : r.Db) (d : WebhookDelivery)
      → r.webhooks.get_by_id i s ≡ (ok d, t)
      → (view t ≡ view s) × (delivery_by_id i (view s).deliveries ≡ some d)
  pub delivery_not_read :
      (i : Uuid) (s t : r.Db) (e : Error) → r.webhooks.get_by_id i s ≡ (err e, t) → view t ≡ view s
  pub due_read :
      (now : Time) (limit : ℤ) (s : r.Db) → view (r.webhooks.list_due now limit s).1 ≡ view s
  pub delivery_saved :
      (d : WebhookDelivery) (s : r.Db)
      → (view (r.webhooks.update d s).1 ≡ view s)
        ⊎ ((d' : WebhookDelivery) × (d' ≡ record d { updated_at = d'.updated_at })
            × (view (r.webhooks.update d s).1
                ≡ record (view s) { deliveries = put_delivery d' (view s).deliveries }))
  pub delivery_written :
      (d d' : WebhookDelivery) (s t : r.Db)
      → r.webhooks.update d s ≡ (ok d', t)
      → (d' ≡ record d { updated_at = d'.updated_at })
        × (view t ≡ record (view s) { deliveries = put_delivery d' (view s).deliveries })

-- SELECT of whole tables; the rows come in an order of the database's.
pub record IsTableReader (r : Repositories) (view : r.Db → View) : Type 0 where
  pub wallets_listed :
      (s t : r.Db) (ws : List Wallet)
      → r.reconciliation.list_wallets s ≡ (ok ws, t)
      → (view t ≡ view s) × Perm ws (view s).wallets
  pub transactions_listed :
      (s t : r.Db) (xs : List Transaction)
      → r.reconciliation.list_transactions s ≡ (ok xs, t)
      → (view t ≡ view s) × Perm xs (view s).transactions
  pub entries_listed :
      (s t : r.Db) (es : List LedgerEntry)
      → r.reconciliation.list_ledger_entries s ≡ (ok es, t)
      → (view t ≡ view s) × Perm es (view s).ledger
