-- ===== src/Tests/Reconciliation.antt =====
-- Reconciliation of two wallets after a top-up of one and a transfer to the other.
use mathlib.Core.List.{Perm}
use go_hermes.Base.{ℕ, ◌≤◌, true, false, some, none, List, [], ◌∷◌, ◌≡◌, ◌↔◌, refl, arith, All}
use go_hermes.Base.Int.{pos}
use go_hermes.Base.Int64.{IsInt64, add64, sub64}
use go_hermes.Entity.{
  Uuid, Wallet, Transaction, TransactionType, TransactionStatus, LedgerEntry, LedgerEntryType,
}
use go_hermes.Reconciliation.Check.{reconcile_state}
use go_hermes.Reconciliation.Check.Transactions.{validate_transfer_transaction}
use go_hermes.Reconciliation.Check.Transactions.Pair.{IsPair}
use go_hermes.Reconciliation.Check.Transactions.Accepted.{validate_transfer_transaction_iff}
use go_hermes.Reconciliation.Check.Healthy.{
  IsSoundEntry, IsSoundWallet, IsSoundTransfer, healthy_sound,
}
use go_hermes.AppError.{ok}
use go_hermes.Reconciliation.Report.{Report}
use go_hermes.Reconciliation.Run.{RunDraws, run, run_audit}
use go_hermes.Reconciliation.Run.Effect.{run-reports}
use go_hermes.Store.{◌>>=◌, some_or, map_error}
use go_hermes.Store.View.{View, add_audit}
use go_hermes.Tables.{tables}
use go_hermes.Tables.Lawful.{tables-IsStore}
use go_hermes.Tables.Readers.{tables-IsTableReader}
use go_hermes.Reconciliation.Entry.Laws.{InRange}
use go_hermes.Tests.World.{uuid, alice, bob, start}

abbrev funded : Wallet
funded = record alice { balance = pos 70 }

abbrev paid : Wallet
paid = record bob { balance = pos 30 }

abbrev funding : Transaction
funding = record {
  id = 100;
  transaction_ref = "TXN-a";
  type = TransactionType.top_up;
  status = TransactionStatus.success;
  source_wallet_id = none;
  destination_wallet_id = some 10;
  amount = pos 100;
  currency = "IDR";
  idempotency_key = "k";
  initiated_by_user_id = 1;
  description = none;
  created_at = 50;
  updated_at = 50;
}

abbrev payment : Transaction
payment = record funding {
  id = 101;
  type = TransactionType.transfer;
  source_wallet_id = some 10;
  destination_wallet_id = some 20;
  amount = pos 30;
}

abbrev funded_entry : LedgerEntry
funded_entry = record {
  id = 200;
  transaction_id = 100;
  wallet_id = 10;
  entry_type = LedgerEntryType.credit;
  amount = pos 100;
  balance_before = pos 0;
  balance_after = pos 100;
  created_at = 51;
}

abbrev paid_out : LedgerEntry
paid_out = record {
  id = 201;
  transaction_id = 101;
  wallet_id = 10;
  entry_type = LedgerEntryType.debit;
  amount = pos 30;
  balance_before = pos 100;
  balance_after = pos 70;
  created_at = 61;
}

abbrev paid_in : LedgerEntry
paid_in = record {
  id = 202;
  transaction_id = 101;
  wallet_id = 20;
  entry_type = LedgerEntryType.credit;
  amount = pos 30;
  balance_before = pos 0;
  balance_after = pos 30;
  created_at = 62;
}

abbrev ledger : List LedgerEntry
ledger = paid_in ∷ funded_entry ∷ paid_out ∷ []

validate_transfer_transaction_iff_example :
    (validate_transfer_transaction uuid payment (paid_in ∷ paid_out ∷ []) ≡ [])
    ↔ IsPair payment (paid_in ∷ paid_out ∷ [])
validate_transfer_transaction_iff_example =
    validate_transfer_transaction_iff uuid payment (paid_in ∷ paid_out ∷ [])

small : (n : ℕ) → n ≤ 100 → IsInt64 (pos n)
small n h = record { low = omega arith; high = omega arith }

range : All InRange ledger
range = (
  (small 0 (omega arith), small 30 (omega arith)),
  (
    (small 0 (omega arith), small 100 (omega arith)),
    ((small 100 (omega arith), small 70 (omega arith)), tt),
  ),
)

healthy :
    (reconcile_state uuid 99 (funded ∷ paid ∷ []) (funding ∷ payment ∷ []) ledger).healthy ≡ true
unfolding reconcile_state sub64 add64
healthy = refl

healthy_sound_example :
    All (IsSoundEntry uuid (funded ∷ paid ∷ []) (funding ∷ payment ∷ []) ledger) ledger
    × All
        (IsSoundWallet uuid (funded ∷ paid ∷ []) (funding ∷ payment ∷ []) ledger)
        (funded ∷ paid ∷ [])
    × All
        (IsSoundTransfer uuid (funded ∷ paid ∷ []) (funding ∷ payment ∷ []) ledger)
        (funding ∷ payment ∷ [])
healthy_sound_example =
    healthy_sound uuid (funded ∷ paid ∷ []) (funding ∷ payment ∷ []) ledger 99 range healthy

-- A wallet whose stored balance is off makes the report unhealthy.
unhealthy :
    (reconcile_state uuid 99 (alice ∷ paid ∷ []) (funding ∷ payment ∷ []) ledger).healthy ≡ false
unfolding reconcile_state sub64 add64
unhealthy = refl

abbrev books : View
books = record start {
  wallets = funded ∷ paid ∷ [];
  transactions = funding ∷ payment ∷ [];
  ledger = ledger;
}

abbrev run_draws : RunDraws
run_draws = record { checked_at = 99; audit_id = 700; audit_at = 100 }

abbrev books_report : Report
books_report = reconcile_state uuid 99 (funded ∷ paid ∷ []) (funding ∷ payment ∷ []) ledger

abbrev audited : View
audited = add_audit books (run_audit run_draws 1 books_report)

runs : run tables uuid run_draws "u-1" books ≡ (ok books_report, audited)
unfolding run ◌>>=◌ some_or map_error
runs = refl

run-reports_example :
    (actor : Uuid) × (ws : List Wallet) × (xs : List Transaction) × (es : List LedgerEntry)
    × (uuid.parse "u-1" ≡ some actor)
    × Perm ws books.wallets
    × Perm xs books.transactions
    × Perm es books.ledger
    × (books_report ≡ reconcile_state uuid 99 ws xs es)
    × (audited ≡ add_audit books (run_audit run_draws actor books_report))
run-reports_example =
    run-reports tables tables-IsStore tables-IsTableReader uuid run_draws "u-1" books audited
      books_report runs
