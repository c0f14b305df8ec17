-- ===== src/Books/Healthy.antt =====
-- A reconciliation of what requests have left finds nothing at all.
use go_hermes.Base.{
  true, false, none, List, [], ◌∷◌, ◌++◌, ◌≡◌, ◌⊎◌, inl, inr, refl, sym, ap, ◌∙◌, subst, arith, All,
  All-mono, ◌==◌, ◌&&◌, ==_iff, ==_refl, Bool-cases, Option-cases, is_some,
}
use go_hermes.AuthUsecase.{AuthLib}
use go_hermes.Books.{IsBooked, entries_of}
use go_hermes.Books.Audit.{
  InOrder, InOrder-select, sort-InOrder, select-same, wallets-pass, rows_found,
}
use go_hermes.Books.History.{Reach, Reach-Books, empty-Books}
use go_hermes.Books.Posted.{IsPosted, UniqueTransactions, posted_of}
use go_hermes.Books.Posting.{Passes}
use go_hermes.Books.Requests.{Reach-IsPosted}
use go_hermes.Entity.{Uuid, Time, Wallet, Transaction, TransactionType, LedgerEntry}
use go_hermes.Reconciliation.Check.{
  reconcile_state, all_entry_issues, entry_issues, all_transaction_issues, transaction_entries,
  validate_by_type, has_wallet, has_transaction,
}
use go_hermes.Reconciliation.Entry.{validate_ledger_entry_math}
use go_hermes.Reconciliation.Order.{sort_ledger_entries}
use go_hermes.Store.{Repositories}
use go_hermes.Store.Laws.{IsStore, IsAccountStore}
use go_hermes.Store.View.{wallet_by_id}
use go_hermes.Store.Wallets.{UniqueIds}
use go_hermes.TransactionUsecase.Common.{World}
use go_hermes.UuidLib.{UuidLib}
use go_hermes.Webhook.Create.{WebhookNotifier}

-- An entry of no wallet would be among the entries of its wallet's id.
wallets_there :
    (ws : List Wallet) (es : List LedgerEntry)
    → ((i : Uuid) → wallet_by_id i ws ≡ none → entries_of i es ≡ [])
    → All (λ e. has_wallet e.wallet_id ws ≡ true) es
wallets_there ws [] h = tt
wallets_there ws (e ∷ es) h = (
  elim (Option-cases (wallet_by_id e.wallet_id ws)) [
    | inl missing ↦ absurd (taken e es (h e.wallet_id missing))
    | inr (w, found) ↦ ap is_some found
  ],
  wallets_there ws es (λ i missing. dropped e es i (h i missing)),
)
  where
    taken : (e : LedgerEntry) (es : List LedgerEntry) → entries_of e.wallet_id (e ∷ es) ≡ [] → ⊥
    taken e es k = let own = ==_refl e.wallet_id in absurd (ground (arith, own, k))

    dropped :
        (e : LedgerEntry) (es : List LedgerEntry) (i : Uuid)
        → entries_of i (e ∷ es) ≡ []
        → entries_of i es ≡ []
    dropped e es i k = ground (arith, k)

own_ids : (xs : List Transaction) → All (λ x. has_transaction x.id xs ≡ true) xs
own_ids [] = tt
own_ids (x ∷ xs) =
    (rw (==_refl x.id), All-mono (λ y h. later y h (Bool-cases (x.id == y.id))) xs (own_ids xs))
  where
    later :
        (y : Transaction)
        → has_transaction y.id xs ≡ true
        → ((x.id == y.id) ≡ true) ⊎ ((x.id == y.id) ≡ false)
        → has_transaction y.id (x ∷ xs) ≡ true
    later y h (inl same) = rw same
    later y h (inr other) = rw other h

module _ (u : UuidLib) (ws : List Wallet) (xs : List Transaction) (ledger : List LedgerEntry) where
  entries_pass :
      (es : List LedgerEntry)
      → All (λ e. has_wallet e.wallet_id ws ≡ true) es
      → All (λ e. has_transaction e.transaction_id xs ≡ true) es
      → All (λ e. validate_ledger_entry_math e ≡ none) es
      → all_entry_issues u ws xs ledger es ≡ []
  unfolding all_entry_issues entry_issues
  entries_pass [] wallet owner math = refl
  entries_pass (e ∷ es) (w, wallet) (o, owner) (m, math) =
      rw (w, o, m) (entries_pass es wallet owner math)

  own_posted :
      (x : Transaction)
      → has_transaction x.id xs ≡ true
      → InOrder u ledger
      → transaction_entries u ws xs ledger x ≡ posted_of x.id ledger
  unfolding transaction_entries
  own_posted x there ordered =
      ap (sort_ledger_entries u) (select-same _ _ ledger same)
      ∙ sort-InOrder u (posted_of x.id ledger) (InOrder-select u _ ledger ordered)
    where
      same :
          (e : LedgerEntry)
          → (e.transaction_id == x.id && has_transaction e.transaction_id xs)
            ≡ (e.transaction_id == x.id)
      same e = elim (Bool-cases (e.transaction_id == x.id)) [
        | inl k ↦
            let owned : has_transaction e.transaction_id xs ≡ true =
              ap (λ i. has_transaction i xs) ((==_iff e.transaction_id x.id).0 k) ∙ there in
            rw (k, owned)
        | inr k ↦ rw k
      ]

  by_type-none :
      (t : TransactionType) (x : Transaction) (es : List LedgerEntry)
      → Passes u t x es
      → validate_by_type u ws xs ledger t x es ≡ []
  by_type-none TransactionType.top_up x es h = h
  by_type-none TransactionType.transfer x es h = h
  by_type-none (TransactionType.other s) x es h = absurd h

  transactions_pass :
      (rest : List Transaction)
      → InOrder u ledger
      → All (λ x. has_transaction x.id xs ≡ true) rest
      → All (λ x. Passes u x.type x (posted_of x.id ledger)) rest
      → all_transaction_issues u ws xs ledger rest ≡ []
  unfolding all_transaction_issues
  transactions_pass [] ordered there h = refl
  transactions_pass (x ∷ rest) ordered (here, there) (first, h) =
      ap (λ is. is ++ all_transaction_issues u ws xs ledger rest)
        (ap (validate_by_type u ws xs ledger x.type x) (own_posted x here ordered)
          ∙ by_type-none x.type x (posted_of x.id ledger) first)
      ∙ transactions_pass rest ordered there h

  -- Tables whose books are kept and whose transactions are posted are healthy.
  pub reconcile_state-healthy :
      (now : Time)
      → IsBooked ledger ws
      → IsPosted u xs ledger
      → UniqueIds ws
      → InOrder u ledger
      → (reconcile_state u now ws xs ledger).healthy ≡ true
  unfolding reconcile_state
  reconcile_state-healthy now booked posted unique ordered =
      let (chains, balances) =
        wallets-pass u ws xs ledger ws booked ordered (rows_found ws unique) in
      let entries =
        entries_pass ledger (wallets_there ws ledger booked.owned) posted.owned posted.math in
      let transactions = transactions_pass xs ordered (own_ids xs) posted.passes in
      rw (balances, transactions, entries, chains)

module _ (r : Repositories) (u : UuidLib) (n : WebhookNotifier) (a : AuthLib) (l : IsStore r)
    (al : IsAccountStore r l.view) where
  -- From empty tables, after any number of requests to register, to top up and to transfer in any order,
  -- with any bodies whose amounts are int64s and each ending well or badly: if no two wallets and no
  -- two transactions have one id, and no entry comes, by creation time and id, before one that was
  -- written earlier, then the report that reconciliation makes of the tables is healthy: none of its
  -- checks on wallets, transactions, entries and chains finds anything.
  pub history_healthy :
      {w w' : World r.Db}
      → (l.view w.db).wallets ≡ []
      → (l.view w.db).transactions ≡ []
      → (l.view w.db).ledger ≡ []
      → Reach r u n a w w'
      → UniqueIds (l.view w'.db).wallets
      → UniqueTransactions (l.view w'.db).transactions
      → InOrder u (l.view w'.db).ledger
      → (now : Time)
      → (reconcile_state u now
          (l.view w'.db).wallets
          (l.view w'.db).transactions
          (l.view w'.db).ledger).healthy
        ≡ true
  history_healthy {w} {w'} no_wallets no_transactions no_entries reached unique distinct ordered
        now =
      reconcile_state-healthy u (l.view w'.db).wallets (l.view w'.db).transactions
        (l.view w'.db).ledger now
        (Reach-Books r u n a l al reached (empty-Books (l.view w.db) no_wallets no_entries))
        (Reach-IsPosted u r l n al a reached
          (subst (λ xs. IsPosted u xs (l.view w.db).ledger) (sym no_transactions)
            (subst (IsPosted u []) (sym no_entries)
              (record { passes = tt; owned = tt; math = tt })))
          distinct)
        unique ordered
