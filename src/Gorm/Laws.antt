-- ===== src/Gorm/Laws.antt =====
-- What the code relies on of gorm and PostgreSQL, one hypothesis for each kind of statement, on any
-- query: a statement that succeeds has the effect that the documentation gives it on the tables; a
-- read changes none, and neither does an INSERT that fails; the transaction around a failed function
-- rolls the statements on its handle back. Nothing says that a statement succeeds.
use go_hermes.Base.{
  ℕ, String, true, some, none, List, ◌≡◌, ◌≢◌, ◌⊎◌, All, map, find, if◌then◌else◌, ◌==◌, length,
  ◌≤◌,
}
use mathlib.Core.List.{Perm}
use go_hermes.Base.Int.{ℤ, pos, ◌≤ℤ◌}
use go_hermes.AppError.{Error, ok, err, is_not_found}
use go_hermes.Entity.{Wallet, LedgerEntry, IdempotencyRecord, WebhookDelivery}
use go_hermes.Store.{M}
use go_hermes.Store.Laws.{SameWallet}
use go_hermes.Store.View.{View, wallet_by_id, put_wallet, set_wallets, add_entries, put_delivery}
use go_hermes.Gorm.Query.{Model, Row, Query, Value, no_clauses}
use go_hermes.Gorm.Session.{Gorm}
use go_hermes.Gorm.Handles.{RunsOn}
use go_hermes.Gorm.Idempotency.{reserve_query}
use go_hermes.Gorm.Semantics.{table, primary_key, keeps, rows_of, Inserted, set_columns}

pub record IsGorm (g : Gorm) : Type 1 where
  -- The committed rows, together with the writes of the transaction that is open.
  pub view : g.Db → View
  -- BEGIN, the function on the transaction's handle, then COMMIT or ROLLBACK by its error, for a
  -- function that runs its statements on that handle and no other.
  pub commits :
      (h : g.Handle) (A : Type 0) (f : g.Handle → M g.Db A) (s t : g.Db) (a : A)
      → ((tx : g.Handle) → RunsOn g tx A (f tx))
      → g.transaction h A f s ≡ (ok a, t)
      → (tx : g.Handle) × (b : g.Db) × (u : g.Db) × (view b ≡ view s)
        × (f tx b ≡ (ok a, u))
        × (view t ≡ view u)
  pub rolls_back :
      (h : g.Handle) (A : Type 0) (f : g.Handle → M g.Db A) (s t : g.Db) (e : Error)
      → ((tx : g.Handle) → RunsOn g tx A (f tx))
      → g.transaction h A f s ≡ (err e, t)
      → view t ≡ view s
  -- Reads.
  pub first_reads :
      (h : g.Handle) (q : Query) (k : Model) (s : g.Db) → view (g.first h q k s).1 ≡ view s
  pub find_reads :
      (h : g.Handle) (q : Query) (k : Model) (s : g.Db) → view (g.find h q k s).1 ≡ view s
  pub count_reads :
      (h : g.Handle) (q : Query) (k : Model) (s : g.Db) → view (g.count h q k s).1 ≡ view s
  -- The row that First returns; the code asks by a unique key.
  pub first_found :
      (h : g.Handle) (q : Query) (k : Model) (s t : g.Db) (x : Row k)
      → g.first h q k s ≡ (ok x, t)
      → find (keeps k (view s) q) (table k (view s)) ≡ some x
  -- ErrRecordNotFound
  pub first_missing :
      (h : g.Handle) (q : Query) (k : Model) (s t : g.Db) (e : Error)
      → g.first h q k s ≡ (err e, t)
      → is_not_found e ≡ true
      → find (keeps k (view s) q) (table k (view s)) ≡ none
  -- The rows that Find returns: all of them in some order if there is no page, else some of them.
  pub rows_found :
      (h : g.Handle) (q : Query) (k : Model) (s t : g.Db) (xs : List (Row k))
      → g.find h q k s ≡ (ok xs, t)
      → q.offset ≡ none
      → q.limit ≡ none
      → q.locking ≡ none
      → Perm xs (rows_of k (view s) q)
  pub rows_kept :
      (h : g.Handle) (q : Query) (k : Model) (s t : g.Db) (xs : List (Row k))
      → g.find h q k s ≡ (ok xs, t)
      → All (λ x. keeps k (view s) q x ≡ true) xs
  pub rows_limited :
      (h : g.Handle) (q : Query) (k : Model) (s t : g.Db) (xs : List (Row k)) (n : ℕ)
      → g.find h q k s ≡ (ok xs, t)
      → q.limit ≡ some (pos n)
      → length xs ≤ n
  -- A row that FOR UPDATE locks is the one row of its primary key.
  pub rows_locked :
      (h : g.Handle) (q : Query) (k : Model) (s t : g.Db) (xs : List (Row k)) (strength : String)
      → g.find h q k s ≡ (ok xs, t)
      → q.locking ≡ some strength
      → All (λ x. find (λ y. primary_key k y == primary_key k x) (table k (view s)) ≡ some x) xs
  pub counted :
      (h : g.Handle) (q : Query) (k : Model) (s t : g.Db) (n : ℤ)
      → g.count h q k s ≡ (ok n, t)
      → n ≡ pos (length (rows_of k (view s) q))
  -- INSERT
  pub created :
      (h : g.Handle) (k : Model) (x x' : Row k) (n : ℕ) (s t : g.Db)
      → g.create h no_clauses k x s ≡ (ok (x', n), t)
      → Inserted k (view s) x x' (view t)
  pub many_created :
      (h : g.Handle) (es es' : List LedgerEntry) (s t : g.Db)
      → g.create_many h Model.ledger_entries es s ≡ (ok es', t)
      → view t ≡ add_entries (view s) es
  -- INSERT ... ON CONFLICT DO NOTHING on the unique key: one row, or none.
  pub reserved :
      (h : g.Handle) (x x' : IdempotencyRecord) (n : ℕ) (s t : g.Db)
      → g.create h reserve_query Model.idempotency_records x s ≡ (ok (x', n), t)
      → n ≡ 1
      → Inserted Model.idempotency_records (view s) x x' (view t)
  pub not_reserved :
      (h : g.Handle) (x x' : IdempotencyRecord) (n : ℕ) (s t : g.Db)
      → g.create h reserve_query Model.idempotency_records x s ≡ (ok (x', n), t)
      → n ≢ 1
      → view t ≡ view s
  pub not_created :
      (h : g.Handle) (k : Model) (x : Row k) (s t : g.Db) (e : Error)
      → g.create h no_clauses k x s ≡ (err e, t)
      → view t ≡ view s
  -- Save of a wallet that is there: UPDATE, under chk_wallets_balance_non_negative.
  pub wallet_saved :
      (h : g.Handle) (w w' old : Wallet) (s t : g.Db)
      → wallet_by_id w.id (view s).wallets ≡ some old
      → g.save h Model.wallets w s ≡ (ok w', t)
      → SameWallet w w'
        × (pos 0 ≤ℤ w.balance)
        × (view t ≡ set_wallets (view s) (put_wallet w' (view s).wallets))
  -- Save of a delivery: the row of its primary key, or, if it fails, perhaps nothing.
  pub delivery_saved :
      (h : g.Handle) (d : WebhookDelivery) (s : g.Db)
      → (view (g.save h Model.webhook_deliveries d s).1 ≡ view s)
        ⊎ ((d' : WebhookDelivery) × (d' ≡ record d { updated_at = d'.updated_at })
            × (view (g.save h Model.webhook_deliveries d s).1
                ≡ record (view s) { deliveries = put_delivery d' (view s).deliveries }))
  pub delivery_written :
      (h : g.Handle) (d d' : WebhookDelivery) (s t : g.Db)
      → g.save h Model.webhook_deliveries d s ≡ (ok d', t)
      → (d' ≡ record d { updated_at = d'.updated_at })
        × (view t ≡ record (view s) { deliveries = put_delivery d' (view s).deliveries })
  -- UPDATE ... SET on the rows of the query.
  pub updated :
      (h : g.Handle) (q : Query) (sets : List (String × Value)) (s t : g.Db) (x : Unit {0})
      → g.updates h q Model.idempotency_records sets s ≡ (ok x, t)
      → view t ≡ record (view s) {
        idempotency =
            map
              (λ x. if keeps Model.idempotency_records (view s) q x then set_columns sets x else x)
              (view s).idempotency;
      }
