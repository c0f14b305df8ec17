-- ===== src/Tests/Gorm.antt =====
-- Reads and locks through the repositories over the reference gorm.
use go_hermes.Base.{
  ℕ, none, some, List, [], ◌∷◌, ◌≡◌, ◌↔◌, ◌≤◌, ◌<◌, refl, arith, map, All, length, ◌+◌, ◌-◌, ◌/◌,
  suc,
}
use mathlib.Core.List
use native.Mathlib.Nat.{div-add-mod', div-mul-le_self, mod-lt}
use mathlib.Core.List.{Perm}
use go_hermes.Base.Int.{ℤ, pos, pos_part, ◌≤ℤ◌}
use go_hermes.AdminUsecase.{AuditDraws, list_webhooks}
use go_hermes.AdminUsecase.Traces.{
  AdminRead, webhooks, run_read, run_read-IsTraced, Names, IsTraced,
}
use go_hermes.AppError.{ok}
use go_hermes.Entity.{
  Uuid, Transaction, TransactionType, TransactionStatus, LedgerEntry, LedgerEntryType, AuditLog,
  WebhookDelivery, WebhookDeliveryStatus,
}
use go_hermes.Json.{null}
use go_hermes.Pagination.{Params, new_params, offset, total_pages, meta}
use go_hermes.Pagination.Pages.{IsCeil, page_counted}
use go_hermes.Store.{◌>>=◌, some_or, map_error}
use go_hermes.Store.View.{View}
use go_hermes.TransactionUsecase.Queries.{
  list_my_transactions, get_my_transaction, list_transaction_ledgers,
}
use go_hermes.Types.{to_transaction_response, to_ledger_response}
use go_hermes.Gorm.Access.{Involves, IsOwnedBy}
use go_hermes.Gorm.Due.{IsDue, list_due-IsDue}
use go_hermes.Gorm.Locking.{IsTextOrder, lock_by_ids-Perm}
use go_hermes.Gorm.Query.{Model}
use go_hermes.Gorm.Reads.{
  list_my_transactions-own, get_my_transaction-own, list_transaction_ledgers-own,
}
use go_hermes.Gorm.Repositories.{gorm_repositories}
use go_hermes.Gorm.Semantics.{rows_of}
use go_hermes.Gorm.Session.{Session}
use go_hermes.Gorm.Ledgers
use go_hermes.Gorm.Transactions
use go_hermes.Gorm.Webhooks
use go_hermes.Gorm.Wallets.{lock_by_ids}
use go_hermes.Gorm.Webhooks.{list_due}
use go_hermes.Tables.Sql.{sql}
use go_hermes.Tables.Sql.Documented.{sql-IsGorm}
use go_hermes.Tests.World.{uuid, start}

-- A transfer from Alice to Bob, its two entries, and a delivery that waits for a retry.
abbrev moved : Transaction
moved = record {
  id = 20;
  transaction_ref = "TRF-1";
  type = TransactionType.transfer;
  status = TransactionStatus.success;
  source_wallet_id = some 10;
  destination_wallet_id = some 20;
  amount = pos 40;
  currency = "IDR";
  idempotency_key = "k";
  initiated_by_user_id = 1;
  description = none;
  created_at = 50;
  updated_at = 50;
}

abbrev entry : ℕ → ℕ → LedgerEntryType → LedgerEntry
entry i w kind = record {
  id = i;
  transaction_id = 20;
  wallet_id = w;
  entry_type = kind;
  amount = pos 40;
  balance_before = pos 100;
  balance_after = pos 60;
  created_at = 50;
}

abbrev waiting : WebhookDelivery
waiting = record {
  id = 905;
  event_type = "transfer.success";
  transaction_id = some 20;
  transaction_ref = "TRF-1";
  target_url = "https://hook";
  payload = null;
  secret = none;
  status = WebhookDeliveryStatus.retrying;
  retry_count = pos 1;
  max_retry = pos 3;
  last_error = none;
  last_http_status = none;
  next_retry_at = some 70;
  delivered_at = none;
  created_at = 53;
  updated_at = 53;
}

abbrev filled : View
filled = record start {
  transactions = moved ∷ [];
  ledger = entry 1 10 LedgerEntryType.debit ∷ entry 2 20 LedgerEntryType.credit ∷ [];
  deliveries = waiting ∷ [];
}

abbrev session : Session sql
session = record { ctx = record { tx = none }; db = filled }

ordered : IsTextOrder uuid
ordered = record {
  trans = λ i j k p q. ground arith;
  irrefl = λ i. ground arith;
  total = λ i j p q. ground arith;
}

lock_by_ids-Perm_example :
    lock_by_ids sql uuid 0 (20 ∷ 10 ∷ []) ≡ lock_by_ids sql uuid 0 (10 ∷ 20 ∷ [])
lock_by_ids-Perm_example =
    lock_by_ids-Perm uuid ordered sql 0 (20 ∷ 10 ∷ []) (10 ∷ 20 ∷ []) (List.Perm.swap 10 20 [])

abbrev quotient : ℤ → ℤ → ℤ
quotient a b = pos ((pos_part a + pos_part b - 1) / pos_part b)

abbrev first_page : Params
first_page = record { page = pos 1; limit = pos 10 }

lists_mine :
    list_my_transactions (gorm_repositories sql uuid 0) uuid quotient "u-2" first_page session
    ≡ (ok (to_transaction_response uuid moved ∷ [], meta quotient (pos 1) first_page), session)
unfolding list_my_transactions ◌>>=◌ some_or map_error to_transaction_response meta offset
    Transactions.list_by_user
lists_mine = refl

list_my_transactions-own_example :
    (i : Uuid) × (xs : List Transaction) × (uuid.parse "u-2" ≡ some i)
    × ((to_transaction_response uuid moved ∷ []) ≡ map (to_transaction_response uuid) xs)
    × All (Involves filled i) xs
    × (meta quotient (pos 1) first_page
        ≡ meta quotient
            (pos (length (rows_of Model.transactions filled (Transactions.of_user i))))
            first_page)
    × (filled ≡ filled)
unfolding sql-IsGorm
list_my_transactions-own_example =
    list_my_transactions-own sql sql-IsGorm uuid 0 quotient "u-2" first_page session session _
      lists_mine

gets_mine :
    get_my_transaction (gorm_repositories sql uuid 0) uuid "u-2" "w-20" session
    ≡ (ok (to_transaction_response uuid moved), session)
unfolding get_my_transaction ◌>>=◌ some_or map_error Transactions.get_by_id_for_user
gets_mine = refl

get_my_transaction-own_example :
    (i : Uuid) × (x : Transaction) × (uuid.parse "u-2" ≡ some i)
    × (uuid.parse "w-20" ≡ some x.id)
    × Involves filled i x
    × (to_transaction_response uuid moved ≡ to_transaction_response uuid x)
    × (filled ≡ filled)
unfolding sql-IsGorm
get_my_transaction-own_example =
    get_my_transaction-own sql sql-IsGorm uuid 0 "u-2" "w-20" session session _ gets_mine

lists_entries :
    list_transaction_ledgers (gorm_repositories sql uuid 0) uuid "u-2" "w-20" session
    ≡ (ok (to_ledger_response uuid (entry 2 20 LedgerEntryType.credit) ∷ []), session)
unfolding list_transaction_ledgers ◌>>=◌ some_or map_error Ledgers.list_by_transaction_for_user
lists_entries = refl

list_transaction_ledgers-own_example :
    (i : Uuid) × (j : Uuid) × (es : List LedgerEntry) × (uuid.parse "u-2" ≡ some i)
    × (uuid.parse "w-20" ≡ some j)
    × All (λ e. (e.transaction_id ≡ j) × IsOwnedBy filled i (some e.wallet_id)) es
    × ((to_ledger_response uuid (entry 2 20 LedgerEntryType.credit) ∷ [])
        ≡ map (to_ledger_response uuid) es)
    × (filled ≡ filled)
unfolding sql-IsGorm
list_transaction_ledgers-own_example =
    list_transaction_ledgers-own sql sql-IsGorm uuid 0 "u-2" "w-20" session session _ lists_entries

lists_due : list_due sql 0 80 (pos 5) session ≡ (ok (waiting ∷ []), session)
unfolding list_due
lists_due = refl

list_due-IsDue_example : All (IsDue 80) (waiting ∷ []) × (1 ≤ 5) × (filled ≡ filled)
unfolding sql-IsGorm
list_due-IsDue_example =
    list_due-IsDue sql sql-IsGorm 0 80 5 session session (waiting ∷ []) lists_due

abbrev read_draws : AuditDraws
read_draws = record { audit_id = 700; audit_at = 90 }

abbrev all_webhooks : AdminRead
all_webhooks =
    webhooks (record { event_type = ""; status = "RETRYING"; transaction_ref = "" }) first_page

abbrev after_read : Session sql
after_read = (run_read sql sql-IsGorm uuid 0 read_draws quotient "u-1" all_webhooks session).1

reads_webhooks :
    run_read sql sql-IsGorm uuid 0 read_draws quotient "u-1" all_webhooks session
    ≡ (ok tt, after_read)
unfolding list_webhooks ◌>>=◌ some_or map_error Webhooks.list
reads_webhooks = refl

run_read-IsTraced_example :
    (i : Uuid) × (a : AuditLog) × (uuid.parse "u-1" ≡ some i)
    × Names a read_draws i all_webhooks
    × IsTraced sql sql-IsGorm uuid 0 session after_read a
unfolding sql-IsGorm
run_read-IsTraced_example =
    run_read-IsTraced sql sql-IsGorm uuid 0 read_draws quotient "u-1" all_webhooks session
      after_read reads_webhooks

rounds_up : IsCeil quotient
rounds_up n l hn hl = (
  (n + suc l - 1) / suc l,
  refl,
  omega (
    arith,
    div-add-mod' (n + suc l - 1) (suc l),
    mod-lt (n + suc l - 1) {m = suc l} (omega arith),
  ),
  omega (arith, div-mul-le_self (n + suc l - 1) (suc l)),
)

page_counted_example :
    (m : ℕ) × (offset (new_params (pos 2) (pos 10)) ≡ pos m)
    × (((new_params (pos 2) (pos 10)).page
          ≤ℤ total_pages quotient (pos 11) (new_params (pos 2) (pos 10)))
        ↔ (m < 11))
page_counted_example =
    page_counted quotient (pos 2) (pos 10) 11 rounds_up (omega arith) (omega arith)
