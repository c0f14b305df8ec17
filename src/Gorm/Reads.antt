-- ===== src/Gorm/Reads.antt =====
-- What the four reads of internal/usecase/transaction.go show through internal/repository/gorm.go.
use go_hermes.Base.{
  String, some, List, map, ◌≡◌, sym, ap, ◌∙◌, subst, All, All-mono, find-passes, length,
}
use go_hermes.Base.Int.{ℤ, pos}
use go_hermes.AppError.{ok}
use go_hermes.Entity.{Uuid, Transaction, LedgerEntry}
use go_hermes.Json.{Json}
use go_hermes.Pagination.{Params, meta}
use go_hermes.Store.{pure-ok, >>=-ok, some_or-ok, map_error-ok}
use go_hermes.TransactionUsecase.Queries.{
  list_my_transactions, get_my_transaction, list_transaction_ledgers,
}
use go_hermes.Types.{
  TransactionResponse, LedgerResponse, to_transaction_response, to_ledger_response,
}
use go_hermes.UuidLib.{UuidLib}
use go_hermes.Gorm.Access.{
  IsOwnedBy, Involves, Involves-keeps, Involves-keeps_id, IsOwnedBy-keeps_transaction,
}
use go_hermes.Gorm.Laws.{IsGorm}
use go_hermes.Gorm.Listing.{list_page-ok}
use go_hermes.Gorm.Query.{Model}
use go_hermes.Gorm.Repositories.{gorm_repositories}
use go_hermes.Gorm.Session.{Gorm, Session}
use go_hermes.Gorm.Semantics.{rows_of, keeps}
use go_hermes.Gorm.Statements.{session_view, first-ok, find-ok}
use go_hermes.Gorm.Ledgers
use go_hermes.Gorm.Transactions

module _ (g : Gorm) (l : IsGorm g) (u : UuidLib) (db : g.Handle) where
  transactions_listed :
      (i : Uuid) (p : Params) (s t : Session g) (listed : List Transaction × ℤ)
      → Transactions.list_by_user g db i p s ≡ (ok listed, t)
      → (session_view l t ≡ session_view l s)
        × All (Involves (session_view l s) i) listed.0
        × (listed.1
            ≡ pos (length (rows_of Model.transactions (session_view l s) (Transactions.of_user i))))
  unfolding Transactions.list_by_user
  transactions_listed i p s t listed h =
      let (same, kept, total) =
        list_page-ok g l db Model.transactions (Transactions.of_user i) _ p s t listed h in
      (same, All-mono (Involves-keeps (session_view l s) i) listed.0 kept, total)

  transaction_found :
      (i j : Uuid) (s t : Session g) (x : Transaction)
      → Transactions.get_by_id_for_user g db j i s ≡ (ok x, t)
      → (session_view l t ≡ session_view l s) × (x.id ≡ j) × Involves (session_view l s) i x
  unfolding Transactions.get_by_id_for_user
  transaction_found i j s t x h =
      let q = Transactions.of_user_by_id j i in
      let (same, found) = first-ok g l db q Model.transactions s t x h in
      let (id, own) =
        Involves-keeps_id (session_view l s) j i x
          (find-passes (keeps Model.transactions (session_view l s) q) _ x found) in
      (same, id, own)

  entries_found :
      (i j : Uuid) (s t : Session g) (es : List LedgerEntry)
      → Ledgers.list_by_transaction_for_user g db j i s ≡ (ok es, t)
      → (session_view l t ≡ session_view l s)
        × All (λ e. (e.transaction_id ≡ j) × IsOwnedBy (session_view l s) i (some e.wallet_id)) es
  unfolding Ledgers.list_by_transaction_for_user
  entries_found i j s t es h =
      let (same, kept) =
        find-ok g l db (Ledgers.of_transaction j i) Model.ledger_entries s t es h in
      (same, All-mono (IsOwnedBy-keeps_transaction (session_view l s) j i) es kept)

  -- If ListMyTransactions returns a page, then the caller's id parses, every transaction of the page
  -- is one that the caller initiated or that has the caller's wallet as its source or destination,
  -- the total is the number of all rows that the query keeps, and no table has changed.
  pub list_my_transactions-own :
      (ceil_quotient : ℤ → ℤ → ℤ) (user_id : String) (p : Params) (s t : Session g)
      (res : List TransactionResponse × Json)
      → list_my_transactions (gorm_repositories g u db) u ceil_quotient user_id p s ≡ (ok res, t)
      → (i : Uuid) × (xs : List Transaction) × (u.parse user_id ≡ some i)
        × (res.0 ≡ map (to_transaction_response u) xs)
        × All (Involves (session_view l s) i) xs
        × (res.1
            ≡ meta ceil_quotient
                (pos
                  (length (rows_of Model.transactions (session_view l s) (Transactions.of_user i))))
                p)
        × (session_view l t ≡ session_view l s)
  unfolding list_my_transactions
  list_my_transactions-own ceil_quotient user_id p s t res h =
      let (i, s1, e1, h1) = >>=-ok _ _ s h in
      let (parsed, k1) = some_or-ok (u.parse user_id) _ s e1 in
      let (listed, s2, e2, h2) = >>=-ok _ _ s1 h1 in
      let (same, own, total) =
        transactions_listed i p s1 s2 listed
          (map_error-ok _ (Transactions.list_by_user g db i p) s1 e2) in
      let (shown, k2) = pure-ok h2 in
      let start = ap (session_view l) k1 in
      (
        i,
        listed.0,
        parsed,
        ap (λ y. y.0) shown,
        subst (λ v. All (Involves v i) listed.0) start own,
        ap (λ y. y.1) shown
            ∙ ap (λ n. meta ceil_quotient n p)
                (subst
                  (λ v.
                    listed.1 ≡ pos (length (rows_of Model.transactions v (Transactions.of_user i))))
                  start total),
        ap (session_view l) k2 ∙ (same ∙ start),
      )

  -- If GetMyTransaction returns a transaction, then both ids parse, and it is the transaction of the
  -- id, which the caller initiated or which has the caller's wallet as its source or destination; no
  -- table has changed.
  pub get_my_transaction-own :
      (user_id transaction_id : String) (s t : Session g) (res : TransactionResponse)
      → get_my_transaction (gorm_repositories g u db) u user_id transaction_id s ≡ (ok res, t)
      → (i : Uuid) × (x : Transaction) × (u.parse user_id ≡ some i)
        × (u.parse transaction_id ≡ some x.id)
        × Involves (session_view l s) i x
        × (res ≡ to_transaction_response u x)
        × (session_view l t ≡ session_view l s)
  unfolding get_my_transaction
  get_my_transaction-own user_id transaction_id s t res h =
      let (i, s1, e1, h1) = >>=-ok _ _ s h in
      let (parsed, k1) = some_or-ok (u.parse user_id) _ s e1 in
      let (j, s2, e2, h2) = >>=-ok _ _ s1 h1 in
      let (parsed', k2) = some_or-ok (u.parse transaction_id) _ s1 e2 in
      let (x, s3, e3, h3) = >>=-ok _ _ s2 h2 in
      let (same, id, own) =
        transaction_found i j s2 s3 x
          (map_error-ok _ (Transactions.get_by_id_for_user g db j i) s2 e3) in
      let (shown, k3) = pure-ok h3 in
      let start = ap (session_view l) (k2 ∙ k1) in
      (
        i,
        x,
        parsed,
        parsed' ∙ ap some (sym id),
        subst (λ v. Involves v i x) start own,
        shown,
        ap (session_view l) k3 ∙ (same ∙ start),
      )

  -- If ListTransactionLedgers returns entries, then both ids parse, every entry belongs to the
  -- transaction of the id and to a wallet of the caller's, and no table has changed.
  pub list_transaction_ledgers-own :
      (user_id transaction_id : String) (s t : Session g) (res : List LedgerResponse)
      → list_transaction_ledgers (gorm_repositories g u db) u user_id transaction_id s ≡ (ok res, t)
      → (i : Uuid) × (j : Uuid) × (es : List LedgerEntry) × (u.parse user_id ≡ some i)
        × (u.parse transaction_id ≡ some j)
        × All (λ e. (e.transaction_id ≡ j) × IsOwnedBy (session_view l s) i (some e.wallet_id)) es
        × (res ≡ map (to_ledger_response u) es)
        × (session_view l t ≡ session_view l s)
  unfolding list_transaction_ledgers
  list_transaction_ledgers-own user_id transaction_id s t res h =
      let (i, s1, e1, h1) = >>=-ok _ _ s h in
      let (parsed, k1) = some_or-ok (u.parse user_id) _ s e1 in
      let (j, s2, e2, h2) = >>=-ok _ _ s1 h1 in
      let (parsed', k2) = some_or-ok (u.parse transaction_id) _ s1 e2 in
      let (es, s3, e3, h3) = >>=-ok _ _ s2 h2 in
      let (same, own) =
        entries_found i j s2 s3 es
          (map_error-ok _ (Ledgers.list_by_transaction_for_user g db j i) s2 e3) in
      let (shown, k3) = pure-ok h3 in
      let start = ap (session_view l) (k2 ∙ k1) in
      (
        i,
        j,
        es,
        parsed,
        parsed',
        subst (λ v. All (λ e. (e.transaction_id ≡ j) × IsOwnedBy v i (some e.wallet_id)) es) start
            own,
        shown,
        ap (session_view l) k3 ∙ (same ∙ start),
      )
