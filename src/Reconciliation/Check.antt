-- ===== src/Reconciliation/Check.antt =====
-- reconcileState: every check over the tables, and the report.
pub mod Transactions
pub mod Healthy
use go_hermes.Base.{
  ℕ, String, Bool, true, false, Option, none, some, List, [], ◌∷◌, ◌++◌, not, ◌&&◌, ◌+◌, ◌==◌,
  length, select, find, is_some, if◌then◌else◌,
}
use go_hermes.Base.Int.{ℤ, eq_ℤ}
use go_hermes.Entity.{Uuid, Time, Wallet, Transaction, TransactionType, LedgerEntry}
use go_hermes.UuidLib.{UuidLib}
use go_hermes.Reconciliation.Report.{WalletIssue, TransactionIssue, LedgerIssue, Report}
use go_hermes.Reconciliation.Entry.{
  new_ledger_issue, validate_ledger_entry_math, validate_wallet_ledger_chain, derived_balance,
}
use go_hermes.Reconciliation.Order.{sort_ledger_entries}
use Transactions.{validate_top_up_transaction, validate_transfer_transaction, new_transaction_issue}

-- `_, ok := walletsByID[id]`, and the same for transactions.
abbrev pub has_wallet : Uuid → List Wallet → Bool
has_wallet i ws = is_some (find (λ w. w.id == i) ws)

abbrev pub has_transaction : Uuid → List Transaction → Bool
has_transaction i xs = is_some (find (λ x. x.id == i) xs)

-- `ledgersByWallet[id]`, in the order of the ledger.
abbrev pub entries_of_wallet : Uuid → List Wallet → List LedgerEntry → List LedgerEntry
entries_of_wallet i ws = select (λ e. e.wallet_id == i && has_wallet e.wallet_id ws)

abbrev pub entries_of_transaction : Uuid → List Transaction → List LedgerEntry → List LedgerEntry
entries_of_transaction i xs =
    select (λ e. e.transaction_id == i && has_transaction e.transaction_id xs)

module _ (u : UuidLib) (ws : List Wallet) (xs : List Transaction) (ledger : List LedgerEntry) where
  abbrev pub math_issues : LedgerEntry → Option String → List LedgerIssue
  math_issues e none = []
  math_issues e (some reason) = new_ledger_issue u e reason ∷ []

  -- The body of the loop over the ledger.
  unfoldable pub entry_issues : LedgerEntry → List LedgerIssue
  unfolding new_ledger_issue validate_ledger_entry_math
  entry_issues e =
      (if has_wallet e.wallet_id ws
        then []
        else new_ledger_issue u e "ledger entry references a wallet that does not exist" ∷ [])
      ++ ((if has_transaction e.transaction_id xs
            then []
            else new_ledger_issue u e "ledger entry is orphaned from any transaction" ∷ [])
          ++ math_issues e (validate_ledger_entry_math e))

  unfoldable pub all_entry_issues : List LedgerEntry → List LedgerIssue
  unfolding entry_issues
  all_entry_issues [] = []
  all_entry_issues (e ∷ es) = entry_issues e ++ all_entry_issues es

  -- The wallet's entries, sorted.
  unfoldable pub wallet_entries : Wallet → List LedgerEntry
  unfolding sort_ledger_entries
  wallet_entries w = sort_ledger_entries u (entries_of_wallet w.id ws ledger)

  -- The loop over the wallets: issues of the chains, and mismatched balances.
  unfoldable pub all_chain_issues : List Wallet → List LedgerIssue
  unfolding wallet_entries validate_wallet_ledger_chain
  all_chain_issues [] = []
  all_chain_issues (w ∷ rest) =
      validate_wallet_ledger_chain u (wallet_entries w) ++ all_chain_issues rest

  unfoldable pub wallet_issues : Wallet → List WalletIssue
  unfolding wallet_entries derived_balance
  wallet_issues w =
      if not (eq_ℤ (derived_balance (wallet_entries w)) w.balance)
      then (record {
        wallet_id = u.text w.id;
        user_id = u.text w.user_id;
        stored_balance = w.balance;
        derived_balance = derived_balance (wallet_entries w);
        ledger_entry_count = length (wallet_entries w);
        reason = "wallet balance does not match ledger-derived balance";
      })
        ∷ []
      else []

  unfoldable pub all_wallet_issues : List Wallet → List WalletIssue
  unfolding wallet_issues
  all_wallet_issues [] = []
  all_wallet_issues (w ∷ rest) = wallet_issues w ++ all_wallet_issues rest

  -- The switch on a transaction's type.
  abbrev pub validate_by_type :
      TransactionType → Transaction → List LedgerEntry → List TransactionIssue
  validate_by_type TransactionType.top_up x es = validate_top_up_transaction u x es
  validate_by_type TransactionType.transfer x es = validate_transfer_transaction u x es
  validate_by_type (TransactionType.other s) x es =
      new_transaction_issue u x es "transaction type is not recognized by reconciliation" ∷ []

  unfoldable pub transaction_entries : Transaction → List LedgerEntry
  unfolding sort_ledger_entries
  transaction_entries x = sort_ledger_entries u (entries_of_transaction x.id xs ledger)

  unfoldable pub all_transaction_issues : List Transaction → List TransactionIssue
  unfolding transaction_entries validate_top_up_transaction validate_transfer_transaction
      new_transaction_issue
  all_transaction_issues [] = []
  all_transaction_issues (x ∷ rest) =
      validate_by_type x.type x (transaction_entries x) ++ all_transaction_issues rest

unfoldable pub reconcile_state :
    UuidLib → Time → List Wallet → List Transaction → List LedgerEntry → Report
unfolding all_entry_issues all_chain_issues all_wallet_issues all_transaction_issues
reconcile_state u now ws xs ledger =
    let wallet_list = all_wallet_issues u ws xs ledger ws in
    let transaction_list = all_transaction_issues u ws xs ledger xs in
    let ledger_list =
      all_entry_issues u ws xs ledger ledger ++ all_chain_issues u ws xs ledger ws in
    let count = length wallet_list + length transaction_list + length ledger_list in
    record {
      checked_at = now;
      healthy = count == 0;
      summary = record {
        wallets_checked = length ws;
        transactions_checked = length xs;
        ledger_entries_checked = length ledger;
        wallet_balance_mismatch_count = length wallet_list;
        transaction_issue_count = length transaction_list;
        ledger_issue_count = length ledger_list;
        issue_count = count;
      };
      wallets = wallet_list;
      transactions = transaction_list;
      ledger_entries = ledger_list;
    }
