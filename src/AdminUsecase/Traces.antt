-- ===== src/AdminUsecase/Traces.antt =====
-- What an administrator's read through internal/repository/gorm.go leaves in the tables.
use go_hermes.Base.{String, Option, none, some, List, ◌≡◌, ◌⊎◌, inl, inr, refl, sym, ap, ◌∙◌, subst}
use go_hermes.Base.Int.{ℤ}
use go_hermes.AdminUsecase.{
  AuditDraws, ignore_error, read_audit, page_json, filter_json, list_audit_logs, list_transactions,
  list_webhooks, get_webhook, webhook_error,
}
use go_hermes.AppError.{Error, ok, err, internal}
use go_hermes.Entity.{Uuid, AuditLog, Transaction, WebhookDelivery}
use go_hermes.Json.{Json, text, obj, field, end}
use go_hermes.Pagination.{Params}
use go_hermes.Store.{
  M, WebhookDeliveryFilter, pure, map_error, ◌>>=◌, ◌>>◌, pure-ok, >>=-ok, some_or-ok, map_error-ok,
}
use go_hermes.Store.View.{add_audit}
use go_hermes.TransactionUsecase.Common.Replay.{Result-cases}
use go_hermes.Types.{AuditLogResponse, TransactionResponse, WebhookDeliveryResponse}
use go_hermes.UuidLib.{UuidLib}
use go_hermes.Gorm.Laws.{IsGorm}
use go_hermes.Gorm.Listing.{list_page-ok}
use go_hermes.Gorm.Query.{Model, Value, no_clauses, where_equal}
use go_hermes.Gorm.Repositories.{gorm_repositories}
use go_hermes.Gorm.Session.{Gorm, Session}
use go_hermes.Gorm.Statements.{session_view, first-ok}
use go_hermes.Gorm.StoreLaws.{audit_created}
use go_hermes.Gorm.AccountLaws.{audit_refused}
use go_hermes.Gorm.Audits
use go_hermes.Gorm.Transactions
use go_hermes.Gorm.Webhooks

-- The reads of the administrator, and the entry of the audit log that each leaves.
pub data AdminRead : Type 0 where
  audit_logs transactions : Params → AdminRead
  webhooks : WebhookDeliveryFilter → Params → AdminRead
  webhook : String → AdminRead

abbrev pub action_of : AdminRead → String
action_of (audit_logs p) = "ADMIN_READ_AUDIT_LOGS"
action_of (transactions p) = "ADMIN_READ_TRANSACTIONS"
action_of (webhooks f p) = "ADMIN_READ_WEBHOOKS"
action_of (webhook id) = "ADMIN_READ_WEBHOOK"

-- An entry that names the administrator and what was done.
abbrev pub Names : AuditLog → AuditDraws → Uuid → AdminRead → Type 0
Names a d actor read =
    (a.id ≡ d.audit_id) × (a.actor_user_id ≡ some actor) × (a.action ≡ action_of read)

module _ (g : Gorm) (l : IsGorm g) (u : UuidLib) (db : g.Handle) where
  -- The insertion of an entry of the audit log, from the tables of one session to those of another: it
  -- ran, on the tables as they were, and either added the entry or failed and added nothing.
  abbrev pub IsTraced : Session g → Session g → AuditLog → Type 0
  IsTraced s t a =
      (w : Session g) × (session_view l w ≡ session_view l s)
      × (((Audits.create g db a w ≡ (ok tt, t))
            × (session_view l t ≡ add_audit (session_view l s) a))
          ⊎ ((e : Error) × (Audits.create g db a w ≡ (err e, t))
              × (session_view l t ≡ session_view l s)))

  trace_of :
      (a : AuditLog) (s w t : Session g)
      → session_view l w ≡ session_view l s
      → (Audits.create g db a w).1 ≡ t
      → IsTraced s t a
  trace_of a s w t same e = elim (Result-cases (Audits.create g db a w)) [
    | inl (x, v, ran) ↦
        let made = ran ∙ ap (λ y. (ok x, y)) (sym (ap (λ p. p.1) ran) ∙ e) in
        (w, same, inl (made, audit_created g l u db a w t x made ∙ ap (λ v. add_audit v a) same))
    | inr (x, v, ran) ↦
        let failed = ran ∙ ap (λ y. (err x, y)) (sym (ap (λ p. p.1) ran) ∙ e) in
        (w, same, inr (x, failed, audit_refused g l u db a w t x failed ∙ same))
  ]

  -- A read, then the audit log's entry, whose error is dropped.
  traced :
      {B C : Type 0} (read : M (Session g) B) (f : B → C) (e : Error → Error) (a : AuditLog)
      (s t : Session g) (res : C)
      → ((b : B) (w : Session g) → read s ≡ (ok b, w) → session_view l w ≡ session_view l s)
      → (map_error e read >>= λ b. ignore_error (Audits.create g db a) >> pure (f b)) s
        ≡ (ok res, t)
      → IsTraced s t a
  traced read f e a s t res reads h =
      let (b, w, e1, h1) = >>=-ok (map_error e read) _ s h in
      let (x, v, e2, h2) = >>=-ok (ignore_error (Audits.create g db a)) (λ _. pure (f b)) w h1 in
      let (_, last) = pure-ok h2 in
      trace_of a s w t (reads b w (map_error-ok e read s e1)) (ap (λ p. p.1) e2 ∙ sym last)

  audits_read :
      (p : Params) (s t : Session g) (listed : List AuditLog × ℤ)
      → Audits.list g db p s ≡ (ok listed, t)
      → session_view l t ≡ session_view l s
  unfolding Audits.list
  audits_read p s t listed h =
      (list_page-ok g l db Model.audit_logs no_clauses "created_at" p s t listed h).0

  transactions_read :
      (p : Params) (s t : Session g) (listed : List Transaction × ℤ)
      → Transactions.list_all g db p s ≡ (ok listed, t)
      → session_view l t ≡ session_view l s
  unfolding Transactions.list_all
  transactions_read p s t listed h =
      (list_page-ok g l db Model.transactions no_clauses "created_at" p s t listed h).0

  webhooks_read :
      (f : WebhookDeliveryFilter) (p : Params) (s t : Session g) (listed : List WebhookDelivery × ℤ)
      → Webhooks.list g db f p s ≡ (ok listed, t)
      → session_view l t ≡ session_view l s
  unfolding Webhooks.list
  webhooks_read f p s t listed h =
      (list_page-ok g l db Model.webhook_deliveries (Webhooks.filter_query f) "created_at" p s t
        listed h).0

  webhook_read :
      (i : Uuid) (s t : Session g) (d : WebhookDelivery)
      → Webhooks.get_by_id g db i s ≡ (ok d, t)
      → session_view l t ≡ session_view l s
  unfolding Webhooks.get_by_id
  webhook_read i s t d h =
      (first-ok g l db (where_equal "id" (Value.uuid_value i)) Model.webhook_deliveries s t d h).0

  module _ (d : AuditDraws) (ceil_quotient : ℤ → ℤ → ℤ) (actor : String) where
    -- One of the administrator's reads, without its answer.
    abbrev pub run_read : AdminRead → M (Session g) (Unit {0})
    run_read (audit_logs p) =
        list_audit_logs (gorm_repositories g u db) u d ceil_quotient actor p >> pure tt
    run_read (transactions p) =
        list_transactions (gorm_repositories g u db) u d ceil_quotient actor p >> pure tt
    run_read (webhooks f p) =
        list_webhooks (gorm_repositories g u db) u d ceil_quotient actor f p >> pure tt
    run_read (webhook id) = get_webhook (gorm_repositories g u db) u d actor id >> pure tt

    -- What a read of the administrator's leaves.
    unfoldable Leaves : AdminRead → Session g → Session g → Type 0
    Leaves read s t =
        (i : Uuid) × (a : AuditLog) × (u.parse actor ≡ some i) × Names a d i read × IsTraced s t a

    named :
        (kind : AdminRead) (i : Uuid) (entity_type : String) (id : Option Uuid) (m : Json)
        → Names (read_audit d i (action_of kind) entity_type id m) d i kind
    unfolding read_audit
    named kind i entity_type id m = (refl, refl, refl)

    -- What follows the parsing of the actor's id.
    after_actor :
        {B C : Type 0} (kind : AdminRead) (read : M (Session g) B) (f : B → C) (e : Error → Error)
        (entity_type : String) (id : Option Uuid) (m : Json) (i : Uuid) (s t : Session g) (res : C)
        → u.parse actor ≡ some i
        → ((b : B) (w : Session g) → read s ≡ (ok b, w) → session_view l w ≡ session_view l s)
        → (map_error e read >>= λ b.
              ignore_error (Audits.create g db (read_audit d i (action_of kind) entity_type id m))
              >> pure (f b))
            s
          ≡ (ok res, t)
        → Leaves kind s t
    unfolding Leaves
    after_actor kind read f e entity_type id m i s t res parsed reads h =
        let a = read_audit d i (action_of kind) entity_type id m in
        (i, a, parsed, named kind i entity_type id m, traced read f e a s t res reads h)

    list_audit_logs-Leaves :
        (p : Params) (s t : Session g) (res : List AuditLogResponse × Json)
        → list_audit_logs (gorm_repositories g u db) u d ceil_quotient actor p s ≡ (ok res, t)
        → Leaves (audit_logs p) s t
    unfolding list_audit_logs
    list_audit_logs-Leaves p s t res h =
        let (i, s1, e1, h1) = >>=-ok _ _ s h in
        let (parsed, kept) = some_or-ok (u.parse actor) _ s e1 in
        subst (λ x. Leaves (audit_logs p) x t) kept
          (after_actor (audit_logs p) (Audits.list g db p) _ internal "audit_log" none (page_json p)
            i s1 t res parsed (λ b w. audits_read p s1 w b) h1)

    list_transactions-Leaves :
        (p : Params) (s t : Session g) (res : List TransactionResponse × Json)
        → list_transactions (gorm_repositories g u db) u d ceil_quotient actor p s ≡ (ok res, t)
        → Leaves (transactions p) s t
    unfolding list_transactions
    list_transactions-Leaves p s t res h =
        let (i, s1, e1, h1) = >>=-ok _ _ s h in
        let (parsed, kept) = some_or-ok (u.parse actor) _ s e1 in
        subst (λ x. Leaves (transactions p) x t) kept
          (after_actor (transactions p) (Transactions.list_all g db p) _ internal "transaction" none
            (page_json p) i s1 t res parsed (λ b w. transactions_read p s1 w b) h1)

    list_webhooks-Leaves :
        (f : WebhookDeliveryFilter) (p : Params) (s t : Session g)
        (res : List WebhookDeliveryResponse × Json)
        → list_webhooks (gorm_repositories g u db) u d ceil_quotient actor f p s ≡ (ok res, t)
        → Leaves (webhooks f p) s t
    unfolding list_webhooks
    list_webhooks-Leaves f p s t res h =
        let (i, s1, e1, h1) = >>=-ok _ _ s h in
        let (parsed, kept) = some_or-ok (u.parse actor) _ s e1 in
        subst (λ x. Leaves (webhooks f p) x t) kept
          (after_actor (webhooks f p) (Webhooks.list g db f p) _ internal "webhook_delivery" none
            (filter_json f p) i s1 t res parsed (λ b w. webhooks_read f p s1 w b) h1)

    get_webhook-Leaves :
        (id : String) (s t : Session g) (res : WebhookDeliveryResponse)
        → get_webhook (gorm_repositories g u db) u d actor id s ≡ (ok res, t)
        → Leaves (webhook id) s t
    unfolding get_webhook
    get_webhook-Leaves id s t res h =
        let (i, s1, e1, h1) = >>=-ok _ _ s h in
        let (parsed, kept) = some_or-ok (u.parse actor) _ s e1 in
        let (j, s2, e2, h2) = >>=-ok _ _ s1 h1 in
        let kept2 = (some_or-ok (u.parse id) _ s1 e2).1 in
        subst (λ x. Leaves (webhook id) x t) (kept2 ∙ kept)
          (after_actor (webhook id) (Webhooks.get_by_id g db j) _ webhook_error "webhook_delivery"
            (some j) (obj (field "delivery_id" (text (u.text j)) end)) i s2 t res parsed
            (λ b w. webhook_read j s2 w b) h2)

    -- If a read of the administrator's ends well, then the actor's id parses, and the read ended with
    -- the insertion, on the tables as they were before the read, of an entry of the audit log that has
    -- the drawn id and names the actor and the kind of the read: the entry was added and nothing else
    -- has changed, or the insertion failed and nothing has changed.
    pub run_read-IsTraced :
        (read : AdminRead) (s t : Session g)
        → run_read read s ≡ (ok tt, t)
        → (i : Uuid) × (a : AuditLog) × (u.parse actor ≡ some i) × Names a d i read × IsTraced s t a
    unfolding Leaves
    run_read-IsTraced (audit_logs p) s t h =
        let (res, w, e, last) = >>=-ok _ _ s h in
        subst (Leaves (audit_logs p) s) (sym (pure-ok last).1) (list_audit_logs-Leaves p s w res e)
    run_read-IsTraced (transactions p) s t h =
        let (res, w, e, last) = >>=-ok _ _ s h in
        subst (Leaves (transactions p) s) (sym (pure-ok last).1)
          (list_transactions-Leaves p s w res e)
    run_read-IsTraced (webhooks f p) s t h =
        let (res, w, e, last) = >>=-ok _ _ s h in
        subst (Leaves (webhooks f p) s) (sym (pure-ok last).1) (list_webhooks-Leaves f p s w res e)
    run_read-IsTraced (webhook id) s t h =
        let (res, w, e, last) = >>=-ok _ _ s h in
        subst (Leaves (webhook id) s) (sym (pure-ok last).1) (get_webhook-Leaves id s w res e)
