-- ===== src/Reconciliation/Entry.antt =====
-- The checks on one ledger entry and on the chain of a wallet's entries, and the sum that a
-- wallet's entries stand for.
pub mod Laws
use go_hermes.Base.{
  ℕ, String, Bool, true, false, Option, none, some, List, [], ◌∷◌, ◌++◌, not, if◌then◌else◌,
}
use go_hermes.Base.Int.{ℤ, pos, eq_ℤ, leb_ℤ}
use go_hermes.Base.Int64.{add64, sub64}
use go_hermes.Entity.{LedgerEntry, LedgerEntryType, credit, debit, other}
use go_hermes.UuidLib.{UuidLib}
use go_hermes.Reconciliation.Report.{LedgerIssue}

unfoldable pub new_ledger_issue : UuidLib → LedgerEntry → String → LedgerIssue
new_ledger_issue u e reason = record {
  ledger_entry_id = u.text e.id;
  transaction_id = u.text e.transaction_id;
  wallet_id = u.text e.wallet_id;
  reason = reason;
}

-- The amount test, after the switch.
abbrev pub check_amount : ℤ → Option String
check_amount amount =
    if leb_ℤ amount (pos 0) then some "ledger entry amount must be positive" else none

-- The switch on the entry's type; the empty reason is `none`.
abbrev pub check_math : LedgerEntryType → ℤ → ℤ → ℤ → Option String
check_math LedgerEntryType.credit before after amount =
    if not (eq_ℤ (sub64 after before) amount)
    then some "credit ledger entry does not satisfy balance_after - balance_before == amount"
    else check_amount amount
check_math LedgerEntryType.debit before after amount =
    if not (eq_ℤ (sub64 before after) amount)
    then some "debit ledger entry does not satisfy balance_before - balance_after == amount"
    else check_amount amount
check_math (LedgerEntryType.other s) before after amount =
    some "ledger entry type is not recognized by reconciliation"

unfoldable pub validate_ledger_entry_math : LedgerEntry → Option String
validate_ledger_entry_math e = check_math e.entry_type e.balance_before e.balance_after e.amount

abbrev pub issue_if : {A : Type 0} → Bool → A → List A
issue_if true x = x ∷ []
issue_if false x = []

module _ (u : UuidLib) where
  -- The loop from the second entry on, with the balance that the entry before left.
  unfoldable pub chain_from : ℤ → List LedgerEntry → List LedgerIssue
  unfolding new_ledger_issue
  chain_from expected [] = []
  chain_from expected (e ∷ es) =
      issue_if (not (eq_ℤ e.balance_before expected))
        (new_ledger_issue u e "ledger balance chain is broken for this wallet")
      ++ chain_from e.balance_after es

  unfoldable pub validate_wallet_ledger_chain : List LedgerEntry → List LedgerIssue
  unfolding chain_from
  validate_wallet_ledger_chain [] = []
  validate_wallet_ledger_chain (e ∷ es) =
      issue_if (not (eq_ℤ e.balance_before (pos 0)))
        (new_ledger_issue u e "first ledger entry must start from wallet genesis balance 0")
      ++ chain_from e.balance_after es

-- One round of the loop over a wallet's entries.
abbrev pub apply_entry : LedgerEntryType → ℤ → ℤ → ℤ
apply_entry LedgerEntryType.credit balance amount = add64 balance amount
apply_entry LedgerEntryType.debit balance amount = sub64 balance amount
apply_entry (LedgerEntryType.other s) balance amount = balance

unfoldable pub derived_from : ℤ → List LedgerEntry → ℤ
derived_from balance [] = balance
derived_from balance (e ∷ es) = derived_from (apply_entry e.entry_type balance e.amount) es

unfoldable pub derived_balance : List LedgerEntry → ℤ
unfolding derived_from
derived_balance es = derived_from (pos 0) es
