-- ===== src/TransactionUsecase/Transfer.antt =====
-- TransactionUsecase.Transfer.
pub mod Calls
pub mod Effect
pub mod Fresh
pub mod Run
pub mod Failed
pub mod Money
pub mod Retry
pub mod Returns
use go_hermes.Base.{
  ℕ, String, Bool, true, false, Option, none, some, List, [], ◌∷◌, ◌==◌, ◌&&◌, not, length,
  if◌then◌else◌,
}
use go_hermes.Base.Int.{ℤ, ltb_ℤ}
use go_hermes.Base.Int64.{add64, sub64}
use go_hermes.Json.{Json, text, num, obj, field, end}
use go_hermes.AppError.{Result, validation, bad_request, not_found, conflict, as_app}
use go_hermes.Entity.{
  Uuid, Wallet, Transaction, TransactionType, TransactionStatus, LedgerEntry, LedgerEntryType,
  AuditLog, is_active,
}
use go_hermes.UuidLib.{UuidLib}
use go_hermes.Types.{
  TransferRequest, OperationResult, to_wallet_response, to_transaction_response, wallet_json,
  transaction_json, must_marshal_success,
}
use go_hermes.Webhook.Create.{WebhookNotifier, create_transfer_delivery}
use go_hermes.Store.{M, Repositories, pure, require, some_or, map_error, ◌>>=◌, ◌>>◌}
use go_hermes.TransactionUsecase.Common.{
  Draws, transaction_ref, pending_record, Outcome, done, answer_again, check_request, World, finish,
}
use go_hermes.TransactionUsecase.TopUp.{credited}

abbrev pub transfer_endpoint : String
transfer_endpoint = "POST /api/v1/transfers"

-- `walletMap[i]` after the loop over the locked wallets: a later one replaces an earlier one.
abbrev pub or_else : Option Wallet → Option Wallet → Option Wallet
or_else none o = o
or_else (some w) o = some w

abbrev pub wallet_map : List Wallet → Uuid → Option Wallet
wallet_map [] i = none
wallet_map (w ∷ ws) i = or_else (wallet_map ws i) (if w.id == i then some w else none)

-- The wallet with the amount taken off, as int64 subtracts.
abbrev pub debited : Wallet → ℤ → Wallet
debited w amount = record w { balance = sub64 w.balance amount }

unfoldable pub transfer_transaction : TransferRequest → Uuid → Draws → Wallet → Wallet → Transaction
transfer_transaction req user_id d source destination = record {
  id = d.transaction_id;
  transaction_ref = transaction_ref d;
  type = TransactionType.transfer;
  status = TransactionStatus.success;
  source_wallet_id = some source.id;
  destination_wallet_id = some destination.id;
  amount = req.amount;
  currency = "IDR";
  idempotency_key = req.idempotency_key;
  initiated_by_user_id = user_id;
  description = req.description;
  created_at = 0;
  updated_at = 0;
}

unfoldable pub debit_entry : TransferRequest → Draws → Transaction → Wallet → LedgerEntry
debit_entry req d x source = record {
  id = d.entry_id;
  transaction_id = x.id;
  wallet_id = source.id;
  entry_type = LedgerEntryType.debit;
  amount = req.amount;
  balance_before = source.balance;
  balance_after = sub64 source.balance req.amount;
  created_at = d.entry_at;
}

unfoldable pub credit_entry : TransferRequest → Draws → Transaction → Wallet → LedgerEntry
credit_entry req d x destination = record {
  id = d.second_entry_id;
  transaction_id = x.id;
  wallet_id = destination.id;
  entry_type = LedgerEntryType.credit;
  amount = req.amount;
  balance_before = destination.balance;
  balance_after = add64 destination.balance req.amount;
  created_at = d.second_entry_at;
}

unfoldable pub transfer_audit :
    UuidLib → TransferRequest → Uuid → Draws → Transaction → Wallet → Wallet → AuditLog
transfer_audit u req user_id d x source destination = record {
  id = d.audit_id;
  actor_user_id = some user_id;
  action = "WALLET_TRANSFER";
  entity_type = "transaction";
  entity_id = some x.id;
  metadata = obj (
      field "amount" (num req.amount) (
        field "destination_wallet_id" (text (u.text destination.id))
          (field "source_wallet_id" (text (u.text source.id)) end)));
  created_at = d.audit_at;
}

unfoldable pub transfer_payload : UuidLib → Transaction → Wallet → Wallet → Json
unfolding must_marshal_success transaction_json wallet_json to_transaction_response
    to_wallet_response
transfer_payload u x source destination = must_marshal_success (
    obj (
      field "destination_wallet" (wallet_json (to_wallet_response u destination)) (
        field "source_wallet" (wallet_json (to_wallet_response u source))
          (field "transaction" (transaction_json (to_transaction_response u x)) end))))

module _ (r : Repositories) (u : UuidLib) (n : WebhookNotifier) (req : TransferRequest)
    (d : Draws) where
  -- The writes, once both wallets are locked and the balance is known to suffice.
  unfoldable pub transfer_write : Uuid → Wallet → Wallet → M r.Db Outcome
  unfolding transfer_transaction debit_entry credit_entry transfer_audit transfer_payload
      create_transfer_delivery
  transfer_write user_id sender recipient = do
    transaction ← r.transactions.create (transfer_transaction req user_id d sender recipient)
    source ← r.wallets.update (debited sender req.amount)
    destination ← r.wallets.update (credited recipient req.amount)
    r.ledgers.create_many
        (debit_entry req d transaction sender ∷ credit_entry req d transaction recipient ∷ [])
    r.audits.create (transfer_audit u req user_id d transaction sender recipient)
    delivery ← create_transfer_delivery r u n d.delivery transaction source destination
    r.idempotency.mark_completed d.record_id 200 (transfer_payload u transaction source destination)
    pure (done (transfer_payload u transaction source destination) delivery)

  -- The guards on the two locked wallets.
  unfoldable pub transfer_checked : Uuid → Wallet → Wallet → M r.Db Outcome
  unfolding transfer_write
  transfer_checked user_id sender recipient = do
    require (is_active sender.status && is_active recipient.status)
        (conflict "wallet is not active")
    require (not (ltb_ℤ sender.balance req.amount)) (conflict "insufficient balance")
    transfer_write user_id sender recipient

  -- From the rows that were locked on.
  unfoldable pub transfer_locked : Uuid → Uuid → Uuid → List Wallet → M r.Db Outcome
  unfolding transfer_checked
  transfer_locked user_id sender_id recipient_id locked = do
    require (length locked == 2) (not_found "wallet not found")
    sender ← some_or (wallet_map locked sender_id) (not_found "wallet not found")
    recipient ← some_or (wallet_map locked recipient_id) (not_found "wallet not found")
    transfer_checked user_id sender recipient

  -- The branch for a key that was free.
  unfoldable pub transfer_fresh : Uuid → Uuid → M r.Db Outcome
  unfolding transfer_locked
  transfer_fresh user_id recipient_id = do
    wallet ← r.wallets.get_by_user_id user_id
    require (not (wallet.id == recipient_id))
        (bad_request "sender and recipient wallet cannot be the same")
    locked ← r.wallets.lock_by_ids (wallet.id ∷ recipient_id ∷ [])
    transfer_locked user_id wallet.id recipient_id locked

  -- The function that the transaction runs.
  unfoldable pub transfer_tx : Uuid → Uuid → M r.Db Outcome
  unfolding transfer_fresh answer_again pending_record
  transfer_tx user_id recipient_id = do
    inserted ←
        r.idempotency.reserve
          (pending_record d req.idempotency_key user_id req.request_hash transfer_endpoint)
    if inserted
        then transfer_fresh user_id recipient_id
        else answer_again r req.idempotency_key user_id transfer_endpoint req.request_hash

  unfoldable pub transfer_db : M r.Db Outcome
  unfolding transfer_tx check_request
  transfer_db = do
    check_request req.idempotency_key req.amount
    user_id ← some_or (u.parse req.user_id) (bad_request "invalid user id")
    recipient_id ←
        some_or (u.parse req.recipient_wallet_id)
          (validation (("recipient_wallet_id", "must be a valid UUID") ∷ []))
    map_error as_app (r.tx.within_transaction Outcome (transfer_tx user_id recipient_id))

  unfoldable pub transfer : World r.Db → Result OperationResult × World r.Db
  unfolding transfer_db
  transfer w = finish n w.queue (transfer_db w.db)
