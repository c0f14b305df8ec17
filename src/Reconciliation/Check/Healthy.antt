-- ===== src/Reconciliation/Check/Healthy.antt =====
-- What a healthy report of reconcileState, internal/usecase/reconciliation.go, says of the tables.
use go_hermes.Base.{
  All-select, String, Bool, true, false, Option, none, some, List, [], ◌∷◌, ◌++◌, ◌≡◌, refl, sym,
  ◌∙◌, arith, All, ==_iff, length, Bool-cases, inl, inr, if◌then◌else◌, if-has,
}
use go_hermes.Base.Int.{pos, eq_ℤ, eq_ℤ→eq}
use go_hermes.Entity.{Time, Wallet, Transaction, TransactionType, LedgerEntry}
use go_hermes.UuidLib.{UuidLib}
use go_hermes.Reconciliation.Entry.{
  derived_balance, validate_wallet_ledger_chain, validate_ledger_entry_math,
}
use go_hermes.Reconciliation.Entry.Laws.{
  IsRecorded, InRange, Linked, last_balance, append-empty, validate_ledger_entry_math-IsRecorded,
  validate_wallet_ledger_chain-Linked, derived_balance-last,
}
use go_hermes.Reconciliation.Order.{before, insert_entry, sort_ledger_entries}
use go_hermes.Reconciliation.Check.Transactions.Pair.{IsPair}
use go_hermes.Reconciliation.Check.Transactions.Accepted.{validate_transfer_transaction-IsPair}
use go_hermes.Reconciliation.Check.{
  reconcile_state, all_entry_issues, entry_issues, math_issues, all_chain_issues, all_wallet_issues,
  wallet_issues, wallet_entries, all_transaction_issues, transaction_entries, validate_by_type,
  has_wallet, has_transaction, entries_of_wallet,
}

length-zero : {A : Type 0} (xs : List A) → length xs ≡ 0 → xs ≡ []
length-zero [] h = refl
length-zero (x ∷ xs) h = absurd (omega arith)

if-empty : {A : Type 0} (b : Bool) (x : A) → (if b then [] else x ∷ []) ≡ [] → b ≡ true
if-empty true x h = refl
if-empty false x h = absurd (ground arith)

module _ (u : UuidLib) where
  All-insert :
      (P : LedgerEntry → Type 0) (e : LedgerEntry) (es : List LedgerEntry)
      → P e
      → All P es
      → All P (insert_entry u e es)
  unfolding insert_entry
  All-insert P e [] p h = (p, tt)
  All-insert P e (x ∷ xs) p (here, rest) =
      if-has (All P) (before u x e) (λ q. (here, All-insert P e xs p rest)) (λ q. (p, (here, rest)))

  All-sort :
      (P : LedgerEntry → Type 0) (es : List LedgerEntry)
      → All P es
      → All P (sort_ledger_entries u es)
  unfolding sort_ledger_entries
  All-sort P [] h = tt
  All-sort P (e ∷ es) (here, rest) =
      All-insert P e (sort_ledger_entries u es) here (All-sort P es rest)

  module _ (ws : List Wallet) (xs : List Transaction) (ledger : List LedgerEntry) where
    -- An entry of an existing wallet and an existing transaction that moves its balance by its
    -- amount.
    abbrev pub IsSoundEntry : LedgerEntry → Type 0
    IsSoundEntry e =
        (has_wallet e.wallet_id ws ≡ true)
        × (has_transaction e.transaction_id xs ≡ true)
        × IsRecorded e

    -- A wallet whose entries are linked from 0 to its balance.
    abbrev pub IsSoundWallet : Wallet → Type 0
    IsSoundWallet w =
        Linked (pos 0) (wallet_entries u ws xs ledger w)
        × (w.balance ≡ last_balance (pos 0) (wallet_entries u ws xs ledger w))

    -- A transaction that, if it is a transfer, has the two entries of one.
    abbrev pub IsSoundTransfer : Transaction → Type 0
    IsSoundTransfer x =
        x.type ≡ TransactionType.transfer → IsPair x (transaction_entries u ws xs ledger x)

    math-none :
        (e : LedgerEntry) (o : Option String) → math_issues u ws xs ledger e o ≡ [] → o ≡ none
    math-none e none h = refl
    math-none e (some s) h = absurd (ground arith)

    entry_sound :
        (e : LedgerEntry) → InRange e → entry_issues u ws xs ledger e ≡ [] → IsSoundEntry e
    unfolding entry_issues
    entry_sound e r h =
        let (wallet, rest) = append-empty (if has_wallet e.wallet_id ws then [] else _ ∷ []) _ h in
        let (transaction, math) =
          append-empty (if has_transaction e.transaction_id xs then [] else _ ∷ []) _ rest in
        (
          if-empty _ _ wallet,
          if-empty _ _ transaction,
          validate_ledger_entry_math-IsRecorded e r
              (math-none e (validate_ledger_entry_math e) math),
        )

    entries_sound :
        (es : List LedgerEntry)
        → All InRange es
        → all_entry_issues u ws xs ledger es ≡ []
        → All IsSoundEntry es
    unfolding all_entry_issues
    entries_sound [] r h = tt
    entries_sound (e ∷ es) (here, r) h =
        let (first, rest) = append-empty (entry_issues u ws xs ledger e) _ h in
        (entry_sound e here first, entries_sound es r rest)

    All-IsRecorded : (es : List LedgerEntry) → All IsSoundEntry es → All IsRecorded es
    All-IsRecorded [] h = tt
    All-IsRecorded (e ∷ es) ((wallet, transaction, recorded), rest) =
        (recorded, All-IsRecorded es rest)

    wallet-IsRecorded :
        (w : Wallet) → All IsSoundEntry ledger → All IsRecorded (wallet_entries u ws xs ledger w)
    unfolding wallet_entries
    wallet-IsRecorded w h =
        All-sort IsRecorded (entries_of_wallet w.id ws ledger)
          (All-select IsRecorded _ ledger (All-IsRecorded ledger h))

    balance-same :
        (w : Wallet)
        → wallet_issues u ws xs ledger w ≡ []
        → derived_balance (wallet_entries u ws xs ledger w) ≡ w.balance
    unfolding wallet_issues
    balance-same w h =
        elim (Bool-cases (eq_ℤ (derived_balance (wallet_entries u ws xs ledger w)) w.balance)) [
          | inl e ↦ eq_ℤ→eq _ _ e
          | inr e ↦ absurd (ground arith)
        ]

    wallets_sound :
        (rest : List Wallet)
        → All IsSoundEntry ledger
        → all_chain_issues u ws xs ledger rest ≡ []
        → all_wallet_issues u ws xs ledger rest ≡ []
        → All IsSoundWallet rest
    unfolding all_chain_issues all_wallet_issues
    wallets_sound [] entries chains balances = tt
    wallets_sound (w ∷ rest) entries chains balances =
        let (chain, chains) =
          append-empty (validate_wallet_ledger_chain u (wallet_entries u ws xs ledger w)) _
            chains in
        let (balance, balances) = append-empty (wallet_issues u ws xs ledger w) _ balances in
        let linked =
          validate_wallet_ledger_chain-Linked u (wallet_entries u ws xs ledger w) chain in
        (
          (
            linked,
            sym (balance-same w balance)
                ∙ derived_balance-last (wallet_entries u ws xs ledger w)
                    (wallet-IsRecorded w entries) linked,
          ),
          wallets_sound rest entries chains balances,
        )

    by_type_sound :
        (t : TransactionType) (x : Transaction) (es : List LedgerEntry)
        → validate_by_type u ws xs ledger t x es ≡ []
        → t ≡ TransactionType.transfer
        → IsPair x es
    by_type_sound TransactionType.transfer x es h e = validate_transfer_transaction-IsPair u x es h
    by_type_sound TransactionType.top_up x es h e = absurd (ground arith)
    by_type_sound (TransactionType.other s) x es h e = absurd (ground arith)

    transactions_sound :
        (rest : List Transaction)
        → all_transaction_issues u ws xs ledger rest ≡ []
        → All IsSoundTransfer rest
    unfolding all_transaction_issues
    transactions_sound [] h = tt
    transactions_sound (x ∷ rest) h =
        let (first, after) =
          append-empty
            (validate_by_type u ws xs ledger x.type x (transaction_entries u ws xs ledger x)) _ h in
        (
          λ e. by_type_sound x.type x (transaction_entries u ws xs ledger x) first e,
          transactions_sound rest after,
        )

    -- For a ledger whose balances are int64s and that a healthy report was made of: every entry belongs
    -- to an existing wallet and an existing transaction and moves its balance by its positive amount;
    -- every wallet's entries, in their order, are linked from 0 to the wallet's stored balance; and
    -- every transfer has two entries, a debit of its source and a credit of a different destination,
    -- of its amount.
    pub healthy_sound :
        (now : Time)
        → All InRange ledger
        → (reconcile_state u now ws xs ledger).healthy ≡ true
        → All IsSoundEntry ledger × All IsSoundWallet ws × All IsSoundTransfer xs
    unfolding reconcile_state
    healthy_sound now range h =
        let none_found = (==_iff _ 0).0 h in
        let wallet_list =
          length-zero (all_wallet_issues u ws xs ledger ws) (omega (arith, none_found)) in
        let transaction_list =
          length-zero (all_transaction_issues u ws xs ledger xs) (omega (arith, none_found)) in
        let ledger_list =
          length-zero (all_entry_issues u ws xs ledger ledger ++ all_chain_issues u ws xs ledger ws)
            (omega (arith, none_found)) in
        let (entry_list, chain_list) =
          append-empty (all_entry_issues u ws xs ledger ledger) _ ledger_list in
        let entries = entries_sound ledger range entry_list in
        (
          entries,
          wallets_sound ws entries chain_list wallet_list,
          transactions_sound xs transaction_list,
        )
