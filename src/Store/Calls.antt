-- ===== src/Store/Calls.antt =====
-- What the function of a transaction is built of: the repository calls that the use cases make inside
-- WithinTransaction, one after the other.
use go_hermes.Base.{ℕ, if◌then◌else◌, Bool, true, false, String, Option, none, some, List}
use go_hermes.AppError.{Error, Result, ok, err}
use go_hermes.Entity.{
  Uuid, User, Wallet, Transaction, LedgerEntry, IdempotencyRecord, AuditLog, WebhookDelivery,
}
use go_hermes.Json.{Json}
use go_hermes.Store.Monad.{M, ◌>>=◌, require, some_or}
use go_hermes.Store.{Repositories}

-- A property of calls that a result has, a chain inherits, a call whose error is looked at inherits,
-- and each repository call has.
pub record IsClosed (r : Repositories) (P : (A : Type 0) → M r.Db A → Type 0) : Type 1 where
  pub returned : {A : Type 0} (x : Result A) → P A (λ s. (x, s))
  pub chained :
      {A B : Type 0} (m : M r.Db A) (f : A → M r.Db B)
      → P A m
      → ((a : A) → P B (f a))
      → P B (m >>= f)
  pub attempted : {A : Type 0} (m : M r.Db A) → P A m → P (Result A) (λ s. (ok (m s).0, (m s).1))
  pub user_found : (email : String) → P User (r.users.get_by_email email)
  pub user_created : (x : User) → P User (r.users.create x)
  pub wallet_created : (w : Wallet) → P Wallet (r.wallets.create w)
  pub wallet_found : (u : Uuid) → P Wallet (r.wallets.get_by_user_id u)
  pub wallets_locked : (is : List Uuid) → P (List Wallet) (r.wallets.lock_by_ids is)
  pub wallet_updated : (w : Wallet) → P Wallet (r.wallets.update w)
  pub transaction_created : (x : Transaction) → P Transaction (r.transactions.create x)
  pub entries_created : (es : List LedgerEntry) → P (Unit {0}) (r.ledgers.create_many es)
  pub audit_created : (a : AuditLog) → P (Unit {0}) (r.audits.create a)
  pub record_reserved : (x : IdempotencyRecord) → P Bool (r.idempotency.reserve x)
  pub record_found :
      (key : String) (u : Uuid) (endpoint : String)
      → P IdempotencyRecord (r.idempotency.get key u endpoint)
  pub record_completed :
      (i : Uuid) (status : ℕ) (body : Json)
      → P (Unit {0}) (r.idempotency.mark_completed i status body)
  pub delivery_created : (d : WebhookDelivery) → P WebhookDelivery (r.webhooks.create d)

-- A call built of nothing else.
abbrev pub IsCalls : (r : Repositories) (A : Type 0) → M r.Db A → Type 1
IsCalls r A m = (P : (B : Type 0) → M r.Db B → Type 0) → IsClosed r P → P A m

module _ (r : Repositories) (P : (A : Type 0) → M r.Db A → Type 0) (c : IsClosed r P) where
  pub require-closed : (b : Bool) (e : Error) → P (Unit {0}) (require b e)
  unfolding require
  require-closed true e = c.returned (ok tt)
  require-closed false e = c.returned (err e)

  pub some_or-closed : {A : Type 0} (o : Option A) (e : Error) → P A (some_or o e)
  unfolding some_or
  some_or-closed none e = c.returned (err e)
  some_or-closed (some a) e = c.returned (ok a)

  pub if-closed :
      {A : Type 0} (b : Bool) {m n : M r.Db A} → P A m → P A n → P A (if b then m else n)
  if-closed true p q = p
  if-closed false p q = q
