-- ===== src/Handler/Lists.antt =====
-- The other handlers of handler/transaction_ledger.go and handler/admin_health.go.
use go_hermes.Base.{String, Option, none, some, List}
use go_hermes.Base.Int.{ℤ}
use go_hermes.AdminUsecase.{
  AuditDraws, list_audit_logs, list_transactions, list_webhooks, get_webhook,
}
use go_hermes.Handler.Input.{HttpRequest, page_of}
use go_hermes.Handler.Reply.{Reply, success, answer}
use go_hermes.Json.{Json}
use go_hermes.Reconciliation.Report.{Report}
use go_hermes.Reconciliation.Run.{RunDraws, run}
use go_hermes.Store.{Repositories, WebhookDeliveryFilter}
use go_hermes.TransactionUsecase.Queries.{
  list_my_transactions, get_my_transaction, list_my_ledgers, list_transaction_ledgers,
}
use go_hermes.Types.{AuditLogResponse, TransactionResponse, LedgerResponse, WebhookDeliveryResponse}
use go_hermes.UuidLib.{UuidLib}

-- A page with its meta.
abbrev pub page_reply : {A : Type 0} → A × Json → Reply A
page_reply listed = success 200 listed.0 (some listed.1)

abbrev pub filter_of : HttpRequest → WebhookDeliveryFilter
filter_of c = record {
  event_type = c.query "event_type";
  status = c.query "status";
  transaction_ref = c.query "transaction_ref";
}

module _ (r : Repositories) (u : UuidLib) (ceil_quotient : ℤ → ℤ → ℤ)
    (atoi : String → Option ℤ) where
  unfoldable pub my_transactions_handler :
      HttpRequest → r.Db → Reply (List TransactionResponse) × r.Db
  unfolding page_of list_my_transactions
  my_transactions_handler c s =
      answer page_reply (list_my_transactions r u ceil_quotient c.user_id (page_of atoi c) s)

  unfoldable pub my_ledgers_handler : HttpRequest → r.Db → Reply (List LedgerResponse) × r.Db
  unfolding page_of list_my_ledgers
  my_ledgers_handler c s =
      answer page_reply (list_my_ledgers r u ceil_quotient c.user_id (page_of atoi c) s)

  module _ (d : AuditDraws) where
    unfoldable pub audit_logs_handler : HttpRequest → r.Db → Reply (List AuditLogResponse) × r.Db
    unfolding page_of list_audit_logs
    audit_logs_handler c s =
        answer page_reply (list_audit_logs r u d ceil_quotient c.user_id (page_of atoi c) s)

    unfoldable pub transactions_handler :
        HttpRequest → r.Db → Reply (List TransactionResponse) × r.Db
    unfolding page_of list_transactions
    transactions_handler c s =
        answer page_reply (list_transactions r u d ceil_quotient c.user_id (page_of atoi c) s)

    unfoldable pub webhooks_handler :
        HttpRequest → r.Db → Reply (List WebhookDeliveryResponse) × r.Db
    unfolding page_of list_webhooks
    webhooks_handler c s =
        answer page_reply
          (list_webhooks r u d ceil_quotient c.user_id (filter_of c) (page_of atoi c) s)

module _ (r : Repositories) (u : UuidLib) where
  unfoldable pub transaction_handler : HttpRequest → r.Db → Reply TransactionResponse × r.Db
  unfolding get_my_transaction
  transaction_handler c s =
      answer (λ result. success 200 result none)
        (get_my_transaction r u c.user_id (c.params "id") s)

  unfoldable pub transaction_ledgers_handler :
      HttpRequest → r.Db → Reply (List LedgerResponse) × r.Db
  unfolding list_transaction_ledgers
  transaction_ledgers_handler c s =
      answer (λ result. success 200 result none)
        (list_transaction_ledgers r u c.user_id (c.params "transactionId") s)

  unfoldable pub webhook_handler :
      AuditDraws → HttpRequest → r.Db → Reply WebhookDeliveryResponse × r.Db
  unfolding get_webhook
  webhook_handler d c s =
      answer (λ result. success 200 result none) (get_webhook r u d c.user_id (c.params "id") s)

  unfoldable pub reconciliation_handler : RunDraws → HttpRequest → r.Db → Reply Report × r.Db
  unfolding run
  reconciliation_handler d c s = answer (λ result. success 200 result none) (run r u d c.user_id s)
