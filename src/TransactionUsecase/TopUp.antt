-- ===== src/TransactionUsecase/TopUp.antt =====
-- TransactionUsecase.TopUp.
pub mod Calls
pub mod Effect
pub mod Run
pub mod Money
pub mod Retry
pub mod Returns
use go_hermes.Base.{
  ℕ, String, Bool, true, false, Option, none, some, List, [], ◌∷◌, ◌==◌, length, if◌then◌else◌,
}
use go_hermes.Base.Int.{ℤ}
use go_hermes.Base.Int64.{add64}
use go_hermes.Json.{Json, text, num, obj, field, end}
use go_hermes.AppError.{Result, bad_request, not_found, conflict, as_app}
use go_hermes.Entity.{
  Uuid, Wallet, Transaction, TransactionType, TransactionStatus, LedgerEntry, LedgerEntryType,
  AuditLog, is_active,
}
use go_hermes.UuidLib.{UuidLib}
use go_hermes.Types.{
  TopUpRequest, OperationResult, to_wallet_response, to_transaction_response, wallet_json,
  transaction_json, must_marshal_success,
}
use go_hermes.Webhook.Create.{WebhookNotifier, create_top_up_delivery}
use go_hermes.Store.{M, Repositories, pure, require, some_or, map_error, ◌>>=◌, ◌>>◌}
use go_hermes.TransactionUsecase.Common.{
  Draws, transaction_ref, pending_record, Outcome, done, answer_again, check_request, World, finish,
}

abbrev pub top_up_endpoint : String
top_up_endpoint = "POST /api/v1/wallets/me/top-up"

unfoldable pub top_up_transaction : TopUpRequest → Uuid → Draws → Wallet → Transaction
top_up_transaction req user_id d w = record {
  id = d.transaction_id;
  transaction_ref = transaction_ref d;
  type = TransactionType.top_up;
  status = TransactionStatus.success;
  source_wallet_id = none;
  destination_wallet_id = some w.id;
  amount = req.amount;
  currency = "IDR";
  idempotency_key = req.idempotency_key;
  initiated_by_user_id = user_id;
  description = req.description;
  created_at = 0;
  updated_at = 0;
}

-- The wallet with the amount added, as int64 adds.
abbrev pub credited : Wallet → ℤ → Wallet
credited w amount = record w { balance = add64 w.balance amount }

unfoldable pub top_up_entry : TopUpRequest → Draws → Transaction → Wallet → LedgerEntry
top_up_entry req d x w = record {
  id = d.entry_id;
  transaction_id = x.id;
  wallet_id = w.id;
  entry_type = LedgerEntryType.credit;
  amount = req.amount;
  balance_before = w.balance;
  balance_after = add64 w.balance req.amount;
  created_at = d.entry_at;
}

unfoldable pub top_up_audit :
    UuidLib → TopUpRequest → Uuid → Draws → Transaction → Wallet → AuditLog
top_up_audit u req user_id d x w = record {
  id = d.audit_id;
  actor_user_id = some user_id;
  action = "WALLET_TOP_UP";
  entity_type = "transaction";
  entity_id = some x.id;
  metadata = obj (field "amount" (num req.amount) (field "wallet_id" (text (u.text w.id)) end));
  created_at = d.audit_at;
}

unfoldable pub top_up_payload : UuidLib → Transaction → Wallet → Json
unfolding must_marshal_success transaction_json wallet_json to_transaction_response
    to_wallet_response
top_up_payload u x w = must_marshal_success (
    obj (
      field "transaction" (transaction_json (to_transaction_response u x))
        (field "wallet" (wallet_json (to_wallet_response u w)) end)))

-- `lockedWallets[0]`, once their number is known to be 1.
abbrev pub first : List Wallet → Option Wallet
first [] = none
first (w ∷ ws) = some w

module _ (r : Repositories) (u : UuidLib) (n : WebhookNotifier) (req : TopUpRequest)
    (d : Draws) where
  -- The writes, once the wallet is locked.
  unfoldable pub top_up_write : Uuid → Wallet → M r.Db Outcome
  unfolding top_up_transaction top_up_entry top_up_audit top_up_payload create_top_up_delivery
  top_up_write user_id w = do
    transaction ← r.transactions.create (top_up_transaction req user_id d w)
    wallet ← r.wallets.update (credited w req.amount)
    r.ledgers.create_many (top_up_entry req d transaction w ∷ [])
    r.audits.create (top_up_audit u req user_id d transaction w)
    delivery ← create_top_up_delivery r u n d.delivery transaction wallet
    r.idempotency.mark_completed d.record_id 200 (top_up_payload u transaction wallet)
    pure (done (top_up_payload u transaction wallet) delivery)

  -- The branch for a key that was free.
  unfoldable pub top_up_fresh : Uuid → M r.Db Outcome
  unfolding top_up_write
  top_up_fresh user_id = do
    wallet ← r.wallets.get_by_user_id user_id
    locked ← r.wallets.lock_by_ids (wallet.id ∷ [])
    require (length locked == 1) (not_found "wallet not found")
    target ← some_or (first locked) (not_found "wallet not found")
    require (is_active target.status) (conflict "wallet is not active")
    top_up_write user_id target

  -- The function that the transaction runs.
  unfoldable pub top_up_tx : Uuid → M r.Db Outcome
  unfolding top_up_fresh answer_again pending_record
  top_up_tx user_id = do
    inserted ←
        r.idempotency.reserve
          (pending_record d req.idempotency_key user_id req.request_hash top_up_endpoint)
    if inserted
        then top_up_fresh user_id
        else answer_again r req.idempotency_key user_id top_up_endpoint req.request_hash

  unfoldable pub top_up_db : M r.Db Outcome
  unfolding top_up_tx check_request
  top_up_db = do
    check_request req.idempotency_key req.amount
    user_id ← some_or (u.parse req.user_id) (bad_request "invalid user id")
    map_error as_app (r.tx.within_transaction Outcome (top_up_tx user_id))

  unfoldable pub top_up : World r.Db → Result OperationResult × World r.Db
  unfolding top_up_db
  top_up w = finish n w.queue (top_up_db w.db)
