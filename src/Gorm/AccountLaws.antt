-- ===== src/Gorm/AccountLaws.antt =====
-- The laws of Store/Laws on registrations and whole tables, for the repositories of
-- internal/repository/gorm.go.
use go_hermes.Base.{find, str_eq, true, none, List, [], ◌∷◌, ◌++◌, ◌≡◌, refl, ap, subst, select}
use mathlib.Core.List.{Perm}
use go_hermes.AppError.{Error, ok, err, is_not_found}
use go_hermes.Entity.{AuditLog, User, Wallet, Transaction, LedgerEntry}
use go_hermes.Store.Laws.{IsAccountStore, IsTableReader, SameUser}
use go_hermes.Store.View.{set_wallets, wallet_of_user}
use go_hermes.UuidLib.{UuidLib}
use go_hermes.Base.{String}
use go_hermes.Gorm.Query.{Model, Row, Value, where_equal}
use go_hermes.Gorm.Session.{Gorm, Session, with_db}
use go_hermes.Gorm.Semantics.{table}
use go_hermes.Gorm.Laws.{IsGorm}
use go_hermes.Gorm.Repositories.{gorm_repositories}
use go_hermes.Gorm.Statements.{
  session_view, with_db-ok, find-ok, create-ok, with_db-refused, with_db-err,
}
use go_hermes.Gorm.Audits
use go_hermes.Gorm.Users
use go_hermes.Gorm.Wallets
use go_hermes.Gorm.Reconciliation
use go_hermes.Gorm.Reconciliation.{oldest_first}

-- A query without conditions keeps every row.
select_all {ℓ} : {A : Type ℓ} (xs : List A) → select (λ x. true) xs ≡ xs
select_all [] = refl
select_all (x ∷ xs) = ap (λ ys. x ∷ ys) (select_all xs)

module _ (g : Gorm) (l : IsGorm g) (u : UuidLib) (db : g.Handle) where
  pub user_created :
      (x x' : User) (s t : Session g)
      → Users.create g db x s ≡ (ok x', t)
      → SameUser x x'
        × (session_view l t
            ≡ record (session_view l s) { users = (session_view l s).users ++ x' ∷ [] })
  unfolding Users.create
  user_created x x' s t h = create-ok g l db Model.users x x' s t h

  pub user_by_email :
      (email : String) (s : Session g)
      → session_view l (Users.get_by_email g db email s).1 ≡ session_view l s
  unfolding Users.get_by_email
  user_by_email email s =
      l.first_reads _ (where_equal "email" (Value.text_value email)) Model.users s.db

  pub wallet_created :
      (w w' : Wallet) (s t : Session g)
      → Wallets.create g u db w s ≡ (ok w', t)
      → (w' ≡ record w { created_at = w'.created_at; updated_at = w'.updated_at })
        × (wallet_of_user w.user_id (session_view l s).wallets ≡ none)
        × (session_view l t
            ≡ set_wallets (session_view l s) ((session_view l s).wallets ++ w' ∷ []))
  unfolding Wallets.create
  wallet_created w w' s t h = create-ok g l db Model.wallets w w' s t h

  pub account_laws : IsAccountStore (gorm_repositories g u db) (session_view l)
  account_laws = record {
    user_created = user_created;
    user_by_email = user_by_email;
    wallet_created = wallet_created;
  }

  -- The rows of a whole table.
  table-ok :
      (k : Model) (s t : Session g) (xs : List (Row k))
      → with_db g db (λ h. g.find h oldest_first k) s ≡ (ok xs, t)
      → (session_view l t ≡ session_view l s) × Perm xs (table k (session_view l s))
  table-ok k s t xs h =
      let e = with_db-ok g l db (λ h. g.find h oldest_first k) s t xs h in
      (
        (find-ok g l db oldest_first k s t xs h).0,
        subst (Perm xs) (select_all (table k (session_view l s)))
            (l.rows_found _ oldest_first k s.db t.db xs e refl refl refl),
      )

  wallets_listed :
      (s t : Session g) (ws : List Wallet)
      → Reconciliation.list_wallets g db s ≡ (ok ws, t)
      → (session_view l t ≡ session_view l s) × Perm ws (session_view l s).wallets
  unfolding Reconciliation.list_wallets
  wallets_listed s t ws h = table-ok Model.wallets s t ws h

  transactions_listed :
      (s t : Session g) (xs : List Transaction)
      → Reconciliation.list_transactions g db s ≡ (ok xs, t)
      → (session_view l t ≡ session_view l s) × Perm xs (session_view l s).transactions
  unfolding Reconciliation.list_transactions
  transactions_listed s t xs h = table-ok Model.transactions s t xs h

  entries_listed :
      (s t : Session g) (es : List LedgerEntry)
      → Reconciliation.list_ledger_entries g db s ≡ (ok es, t)
      → (session_view l t ≡ session_view l s) × Perm es (session_view l s).ledger
  unfolding Reconciliation.list_ledger_entries
  entries_listed s t es h = table-ok Model.ledger_entries s t es h

  pub reader_laws : IsTableReader (gorm_repositories g u db) (session_view l)
  reader_laws = record {
    wallets_listed = wallets_listed;
    transactions_listed = transactions_listed;
    entries_listed = entries_listed;
  }

  pub audit_refused :
      (a : AuditLog) (s t : Session g) (e : Error)
      → Audits.create g db a s ≡ (err e, t)
      → session_view l t ≡ session_view l s
  unfolding Audits.create
  audit_refused a s t e h = with_db-refused g l db Model.audit_logs a (λ created. tt) s t e h

  pub user_refused :
      (x : User) (s t : Session g) (e : Error)
      → Users.create g db x s ≡ (err e, t)
      → session_view l t ≡ session_view l s
  unfolding Users.create
  user_refused x s t e h = with_db-refused g l db Model.users x (λ created. created.0) s t e h

  -- GetByEmail finds no row.
  pub email_missing :
      (email : String) (s t : Session g) (e : Error)
      → Users.get_by_email g db email s ≡ (err e, t)
      → is_not_found e ≡ true
      → find (λ x. str_eq x.email email) (session_view l s).users ≡ none
  unfolding Users.get_by_email
  email_missing email s t e h missing =
      l.first_missing _ (where_equal "email" (Value.text_value email)) Model.users s.db t.db e
        (with_db-err g l db
          (λ h. g.first h (where_equal "email" (Value.text_value email)) Model.users) s t e h)
        missing
