-- ===== src/TransactionUsecase/Common.antt =====
-- What top-ups and transfers share: the values that a run draws, the reservation of the
-- idempotency key, the answer to a repeated request, and the guards in front.
pub mod Calls
pub mod Failure
pub mod Memory
pub mod Replay
use Prim.Native.String.{◌++◌ as str_append}
use go_hermes.Base.{
  ℕ, String, Bool, true, false, Option, none, some, List, [], ◌∷◌, not, ◌==◌, str_eq,
}
use go_hermes.Base.Int.{ℤ, pos, leb_ℤ}
use go_hermes.Json.{Json, obj, end}
use go_hermes.AppError.{Error, Result, ok, err, validation, conflict}
use go_hermes.Entity.{Uuid, Time, IdempotencyRecord, WebhookDelivery}
use go_hermes.Types.{OperationResult}
use go_hermes.Webhook.Create.{DeliveryDraws, WebhookNotifier, enqueue_some}
use go_hermes.Store.{M, Repositories, pure, require, ◌>>=◌, ◌>>◌}

-- The results of uuid.New(), uuid.NewString() and time.Now(), one for each call of a run.
pub record Draws : Type 0 where
  pub record_id : Uuid
  pub transaction_id : Uuid
  pub reference : String
  pub entry_id : Uuid
  pub second_entry_id : Uuid
  pub audit_id : Uuid
  pub entry_at : Time
  pub second_entry_at : Time
  pub audit_at : Time
  pub delivery : DeliveryDraws

abbrev pub transaction_ref : Draws → String
transaction_ref d = str_append "TXN-" d.reference

-- The record that is reserved before any work: status 0 means that the work is not done.
unfoldable pub pending_record : Draws → String → Uuid → String → String → IdempotencyRecord
pending_record d key user_id request_hash endpoint = record {
  id = d.record_id;
  idempotency_key = key;
  user_id = user_id;
  request_hash = request_hash;
  endpoint = endpoint;
  status_code = 0;
  response_body = obj end;
  created_at = 0;
  updated_at = 0;
}

-- What a committed run hands back: the result, and the delivery to queue.
abbrev pub Outcome : Type 0
Outcome = OperationResult × Option Uuid

abbrev pub done : Json → Option WebhookDelivery → Outcome
done payload none = (record { status_code = 200; body = payload; replay = false }, none)
done payload (some x) = (record { status_code = 200; body = payload; replay = false }, some x.id)

module _ (r : Repositories) where
  -- The branch for a key that was taken.
  unfoldable pub answer_again : String → Uuid → String → String → M r.Db Outcome
  answer_again key user_id endpoint request_hash = do
    existing ← r.idempotency.get key user_id endpoint
    require (str_eq existing.request_hash request_hash)
        (conflict "idempotency key already used with different payload")
    require (not (existing.status_code == 0))
        (conflict "request with the same idempotency key is still being processed")
    pure (
      record { status_code = existing.status_code; body = existing.response_body; replay = true },
      none,
    )

-- The guards on the header and the amount.
unfoldable pub check_request : {Db : Type 0} → String → ℤ → M Db (Unit {0})
check_request key amount = do
  require (not (str_eq key "")) (validation (("Idempotency-Key", "header is required") ∷ []))
  require (not (leb_ℤ amount (pos 0))) (validation (("amount", "must be greater than zero") ∷ []))

-- The process: the database, and the queue of the webhook worker.
pub record World (Db : Type 0) : Type 0 where
  pub db : Db
  pub queue : List Uuid

-- After the transaction: on success the delivery is queued.
abbrev pub finish :
    {Db : Type 0}
    → WebhookNotifier
    → List Uuid
    → Result Outcome × Db
    → Result OperationResult × World Db
finish n queue (err e, s) = (err e, record { db = s; queue = queue })
finish n queue (ok (x, i), s) = (ok x, record { db = s; queue = enqueue_some n queue i })
