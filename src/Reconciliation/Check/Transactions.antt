-- ===== src/Reconciliation/Check/Transactions.antt =====
-- validateTopUpTransaction and validateTransferTransaction.
pub mod Pair
pub mod Accepted
use go_hermes.Base.{
  ℕ, String, Bool, true, false, Option, none, some, List, [], ◌∷◌, ◌++◌, not, ◌&&◌, ◌||◌, ◌==◌, map,
  is_some,
}
use go_hermes.Base.Int.{ℤ, eq_ℤ}
use go_hermes.Entity.{Uuid, Transaction, LedgerEntry, is_debit, is_credit}
use go_hermes.UuidLib.{UuidLib}
use go_hermes.Types.{type_text}
use go_hermes.Reconciliation.Report.{TransactionIssue}
use go_hermes.Reconciliation.Entry.{issue_if}

-- `p != nil && id == *p`, and `p != nil && id != *p`.
abbrev pub points_to : Option Uuid → Uuid → Bool
points_to none i = false
points_to (some j) i = i == j

abbrev pub points_elsewhere : Option Uuid → Uuid → Bool
points_elsewhere none i = false
points_elsewhere (some j) i = not (i == j)

-- `p != nil && q != nil && *p == *q`
abbrev pub same_target : Option Uuid → Option Uuid → Bool
same_target none q = false
same_target (some i) q = points_to q i

-- What the loop over a transfer's entries has found: an amount that differs, at which the loop
-- breaks off, the debit of the source, and the credit of the destination.
pub record Found : Type 0 where
  pub bad_amount : Bool
  pub debit_found : Bool
  pub credit_found : Bool

abbrev pub source_debit : Transaction → LedgerEntry → Bool
source_debit x e = points_to x.source_wallet_id e.wallet_id && is_debit e.entry_type

abbrev pub destination_credit : Transaction → LedgerEntry → Bool
destination_credit x e = points_to x.destination_wallet_id e.wallet_id && is_credit e.entry_type

abbrev pub scan : Transaction → Found → List LedgerEntry → Found
scan x f [] = f
scan x f (e ∷ es) = elim (not (eq_ℤ e.amount x.amount)) [
  | true ↦ record f { bad_amount = true }
  | false ↦
      scan x
        (record f {
          debit_found = f.debit_found || source_debit x e;
          credit_found = f.credit_found || destination_credit x e;
        })
        es
]

module _ (u : UuidLib) where
  unfoldable pub new_transaction_issue : Transaction → List LedgerEntry → String → TransactionIssue
  new_transaction_issue x es reason = record {
    transaction_id = u.text x.id;
    transaction_ref = x.transaction_ref;
    type = type_text x.type;
    amount = x.amount;
    ledger_entry_ids = map (λ e. u.text e.id) es;
    reason = reason;
  }

  -- The tests on the entries of a top-up.
  abbrev pub top_up_entry_issues : Transaction → List LedgerEntry → List TransactionIssue
  top_up_entry_issues x (e ∷ []) =
      issue_if (points_elsewhere x.destination_wallet_id e.wallet_id) (
        new_transaction_issue x (e ∷ [])
          "top up ledger entry wallet does not match destination wallet")
      ++ (issue_if (not (is_credit e.entry_type))
            (new_transaction_issue x (e ∷ []) "top up ledger entry must be a CREDIT")
          ++ issue_if (not (eq_ℤ e.amount x.amount)) (
              new_transaction_issue x (e ∷ [])
                "top up ledger amount does not match transaction amount"))
  top_up_entry_issues x es =
      new_transaction_issue x es "top up transaction must have exactly one ledger entry" ∷ []

  unfoldable pub validate_top_up_transaction :
      Transaction → List LedgerEntry → List TransactionIssue
  unfolding new_transaction_issue
  validate_top_up_transaction x es =
      issue_if (is_some x.source_wallet_id)
        (new_transaction_issue x es "top up transaction must not have a source wallet")
      ++ (issue_if (not (is_some x.destination_wallet_id))
            (new_transaction_issue x es "top up transaction must have a destination wallet")
          ++ top_up_entry_issues x es)

  abbrev pub scanned_issues : Transaction → List LedgerEntry → Found → List TransactionIssue
  scanned_issues x es f =
      issue_if f.bad_amount
        (new_transaction_issue x es "transfer ledger amounts must match transaction amount")
      ++ (issue_if (not f.debit_found) (
            new_transaction_issue x es
              "transfer transaction is missing the source-wallet DEBIT ledger entry")
          ++ issue_if (not f.credit_found) (
              new_transaction_issue x es
                "transfer transaction is missing the destination-wallet CREDIT ledger entry"))

  -- The tests on the entries of a transfer.
  abbrev pub transfer_entry_issues : Transaction → List LedgerEntry → List TransactionIssue
  transfer_entry_issues x (e ∷ e' ∷ []) = scanned_issues x (e ∷ e' ∷ []) (
      scan x (record { bad_amount = false; debit_found = false; credit_found = false })
        (e ∷ e' ∷ []))
  transfer_entry_issues x es =
      new_transaction_issue x es "transfer transaction must have exactly two ledger entries" ∷ []

  unfoldable pub validate_transfer_transaction :
      Transaction → List LedgerEntry → List TransactionIssue
  unfolding new_transaction_issue
  validate_transfer_transaction x es =
      issue_if (not (is_some x.source_wallet_id))
        (new_transaction_issue x es "transfer transaction must have a source wallet")
      ++ (issue_if (not (is_some x.destination_wallet_id))
            (new_transaction_issue x es "transfer transaction must have a destination wallet")
          ++ (issue_if (same_target x.source_wallet_id x.destination_wallet_id) (
                new_transaction_issue x es
                  "transfer transaction source and destination wallets must differ")
              ++ transfer_entry_issues x es))
