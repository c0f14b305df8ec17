-- ===== src/Handler/Money.antt =====
-- WalletHandler.TopUp of handler/user_wallet.go and TransactionHandler.Transfer of
-- handler/transaction_ledger.go.
use go_hermes.Base.{String}
use go_hermes.AppError.{Result, ok, err, internal}
use go_hermes.Handler.Input.{HttpRequest, BodyLib, TopUpBody, TransferBody, hash_payload}
use go_hermes.Handler.Reply.{Reply, raw_json, answer, error_reply, with_body}
use go_hermes.Store.{Repositories}
use go_hermes.TransactionUsecase.Common.{Draws, World}
use go_hermes.TransactionUsecase.TopUp.{top_up}
use go_hermes.TransactionUsecase.Transfer.{transfer}
use go_hermes.Types.{OperationResult, TopUpRequest, TransferRequest}
use go_hermes.UuidLib.{UuidLib}
use go_hermes.Webhook.Create.{WebhookNotifier}

abbrev pub top_up_request_of : HttpRequest → TopUpBody → String → TopUpRequest
top_up_request_of c req request_hash = record {
  user_id = c.user_id;
  amount = req.amount;
  description = req.description;
  idempotency_key = c.header "Idempotency-Key";
  request_hash = request_hash;
}

abbrev pub transfer_request_of : HttpRequest → TransferBody → String → TransferRequest
transfer_request_of c req request_hash = record {
  user_id = c.user_id;
  recipient_wallet_id = req.recipient_wallet_id;
  amount = req.amount;
  description = req.description;
  idempotency_key = c.header "Idempotency-Key";
  request_hash = request_hash;
}

-- The hash of the payload, or a 500.
abbrev pub with_hash : {S A : Type 0} → Result String → (String → S → Reply A × S) → S → Reply A × S
with_hash (ok request_hash) k s = k request_hash s
with_hash (err e) k s = (error_reply (internal e), s)

module _ (r : Repositories) (u : UuidLib) (n : WebhookNotifier) (d : Draws) where
  unfoldable pub top_up_handler :
      BodyLib TopUpBody → HttpRequest → World r.Db → Reply OperationResult × World r.Db
  unfolding with_body hash_payload top_up
  top_up_handler l c = with_body l c λ req. with_hash (hash_payload l req) λ request_hash w.
      answer (λ result. raw_json result.status_code result.body)
        (top_up r u n (top_up_request_of c req request_hash) d w)

  unfoldable pub transfer_handler :
      BodyLib TransferBody → HttpRequest → World r.Db → Reply OperationResult × World r.Db
  unfolding with_body hash_payload transfer
  transfer_handler l c = with_body l c λ req. with_hash (hash_payload l req) λ request_hash w.
      answer (λ result. raw_json result.status_code result.body)
        (transfer r u n (transfer_request_of c req request_hash) d w)
