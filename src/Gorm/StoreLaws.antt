-- ===== src/Gorm/StoreLaws.antt =====
-- The laws of Store/Laws for the repositories of internal/repository/gorm.go, one by one.
use go_hermes.Base.{
  ℕ, String, Bool, true, false, none, some, List, ◌≡◌, refl, sym, ap, ◌∙◌, All, ◌==◌, ==_iff,
  All-both, true_ne_false,
}
use go_hermes.Base.Int.{pos, ◌≤ℤ◌}
use go_hermes.AppError.{ok}
use go_hermes.Entity.{
  Uuid, Wallet, Transaction, LedgerEntry, IdempotencyRecord, AuditLog, WebhookDelivery,
}
use go_hermes.Json.{Json}
use go_hermes.Store.{pure-ok, pure}
use go_hermes.Store.Laws.{IsStore, SameWallet, SameTransaction, SameRecord, SameDelivery}
use go_hermes.Store.View.{
  has_id, wallet_by_id, wallet_of_user, put_wallet, record_by_key, set_wallets, add_transaction,
  add_entries, add_audit, add_delivery, add_record, complete_key,
}
use go_hermes.UuidLib.{UuidLib}
use go_hermes.Gorm.Query.{Model, Value, no_clauses, where_equal}
use go_hermes.Gorm.Session.{Gorm, Session, db_from_context}
use go_hermes.Gorm.Within.{in_context-RunsOn}
use go_hermes.Gorm.Laws.{IsGorm}
use go_hermes.Gorm.Repositories.{gorm_repositories}
use go_hermes.Gorm.Locking.{one_of_sorted}
use go_hermes.Gorm.Idempotency.{reserve_query, completed_columns}
use go_hermes.Gorm.Transactions
use go_hermes.Gorm.Ledgers
use go_hermes.Gorm.Idempotency
use go_hermes.Gorm.Audits
use go_hermes.Gorm.Webhooks
use go_hermes.Gorm.Wallets
use go_hermes.Gorm.Statements.{
  session_view, with_db-ok, with_db-then, within-ok, within-err, first-ok, find-ok, create-ok,
}

module _ (g : Gorm) (l : IsGorm g) (u : UuidLib) (db : g.Handle) where
  pub wallet_found :
      (i : Uuid) (s t : Session g) (w : Wallet)
      → Wallets.get_by_user_id g u db i s ≡ (ok w, t)
      → (session_view l t ≡ session_view l s)
        × (wallet_of_user i (session_view l s).wallets ≡ some w)
  unfolding Wallets.get_by_user_id
  wallet_found i s t w h = first-ok g l db _ Model.wallets s t w h

  pub wallets_locked :
      (is : List Uuid) (s t : Session g) (ws : List Wallet)
      → Wallets.lock_by_ids g u db is s ≡ (ok ws, t)
      → (session_view l t ≡ session_view l s)
        × All
            (λ w. (wallet_by_id w.id (session_view l s).wallets ≡ some w) × (has_id w.id is ≡ true))
            ws
  unfolding Wallets.lock_by_ids
  wallets_locked is s t ws h =
      let q = Wallets.lock_query (Wallets.sort_ids u is) in
      let (same, kept) = find-ok g l db q Model.wallets s t ws h in
      let rows =
        l.rows_locked _ q Model.wallets s.db t.db ws "UPDATE"
          (with_db-ok g l db (λ h. g.find h q Model.wallets) s t ws h) refl in
      (same, All-both (λ w row asked. (row, sym (one_of_sorted u w.id is) ∙ asked)) ws rows kept)

  pub wallet_updated :
      (w w' old : Wallet) (s t : Session g)
      → wallet_by_id w.id (session_view l s).wallets ≡ some old
      → Wallets.update g u db w s ≡ (ok w', t)
      → SameWallet w w'
        × (pos 0 ≤ℤ w.balance)
        × (session_view l t
            ≡ set_wallets (session_view l s) (put_wallet w' (session_view l s).wallets))
  unfolding Wallets.update
  wallet_updated w w' old s t present h =
      l.wallet_saved _ w w' old s.db t.db present
        (with_db-ok g l db (λ h. g.save h Model.wallets w) s t w' h)

  pub transaction_created :
      (x x' : Transaction) (s t : Session g)
      → Transactions.create g db x s ≡ (ok x', t)
      → SameTransaction x x' × (session_view l t ≡ add_transaction (session_view l s) x')
  unfolding Transactions.create
  transaction_created x x' s t h = create-ok g l db Model.transactions x x' s t h

  pub delivery_created :
      (x x' : WebhookDelivery) (s t : Session g)
      → Webhooks.create g db x s ≡ (ok x', t)
      → SameDelivery x x' × (session_view l t ≡ add_delivery (session_view l s) x')
  unfolding Webhooks.create
  delivery_created x x' s t h = create-ok g l db Model.webhook_deliveries x x' s t h

  pub entries_created :
      (es : List LedgerEntry) (s t : Session g) (x : Unit {0})
      → Ledgers.create_many g db es s ≡ (ok x, t)
      → session_view l t ≡ add_entries (session_view l s) es
  unfolding Ledgers.create_many
  entries_created es s t x h =
      let (made, v, ran, shown) =
        with_db-then g l db (λ h. g.create_many h Model.ledger_entries es) (λ h created. pure tt) s
          t x h in
      let (_, kept) = pure-ok shown in ap l.view kept ∙ l.many_created _ es made s.db v ran

  pub audit_created :
      (a : AuditLog) (s t : Session g) (x : Unit {0})
      → Audits.create g db a s ≡ (ok x, t)
      → session_view l t ≡ add_audit (session_view l s) a
  unfolding Audits.create
  audit_created a s t x h =
      let (made, v, ran, shown) =
        with_db-then g l db (λ h. g.create h no_clauses Model.audit_logs a) (λ h created. pure tt) s
          t x h in
      let (_, kept) = pure-ok shown in
      let (row, added) = l.created _ Model.audit_logs a made.0 made.1 s.db v ran in
      ap l.view kept ∙ (added ∙ ap (add_audit (session_view l s)) row)

  -- What Reserve ran, and how it read RowsAffected.
  reserve-ok :
      (x : IdempotencyRecord) (s t : Session g) (b : Bool)
      → Idempotency.reserve g db x s ≡ (ok b, t)
      → (x' : IdempotencyRecord) × (n : ℕ) × (g.create
            (db_from_context g db s.ctx)
            reserve_query
            Model.idempotency_records
            x
            s.db
          ≡ (ok (x', n), t.db))
        × (b ≡ (n == 1))
  unfolding Idempotency.reserve
  reserve-ok x s t b h =
      let (made, v, ran, shown) =
        with_db-then g l db (λ h. g.create h reserve_query Model.idempotency_records x)
          (λ h result. pure (result.1 == 1)) s t b h in
      let (tested, kept) = pure-ok shown in
      (made.0, made.1, ran ∙ ap (λ y. (ok made, y)) (sym kept), tested)

  pub record_reserved :
      (x : IdempotencyRecord) (s t : Session g)
      → Idempotency.reserve g db x s ≡ (ok true, t)
      → (record_by_key x.idempotency_key x.user_id x.endpoint (session_view l s).idempotency ≡ none)
        × ((x' : IdempotencyRecord) × SameRecord x x'
            × (session_view l t ≡ add_record (session_view l s) x'))
  record_reserved x s t h =
      let (x', n, ran, tested) = reserve-ok x s t true h in
      let (same, free, added) = l.reserved _ x x' n s.db t.db ran ((==_iff n 1).0 (sym tested)) in
      (free, (x', same, added))

  pub record_present :
      (x : IdempotencyRecord) (s t : Session g)
      → Idempotency.reserve g db x s ≡ (ok false, t)
      → session_view l t ≡ session_view l s
  record_present x s t h =
      let (x', n, ran, tested) = reserve-ok x s t false h in
      l.not_reserved _ x x' n s.db t.db ran λ e. true_ne_false (sym ((==_iff n 1).1 e) ∙ sym tested)

  pub record_found :
      (key : String) (i : Uuid) (endpoint : String) (s t : Session g) (x : IdempotencyRecord)
      → Idempotency.get g db key i endpoint s ≡ (ok x, t)
      → (session_view l t ≡ session_view l s)
        × (record_by_key key i endpoint (session_view l s).idempotency ≡ some x)
  unfolding Idempotency.get
  record_found key i endpoint s t x h = first-ok g l db _ Model.idempotency_records s t x h

  pub record_completed :
      (i : Uuid) (status : ℕ) (body : Json) (s t : Session g) (x : Unit {0})
      → Idempotency.mark_completed g db i status body s ≡ (ok x, t)
      → session_view l t ≡ complete_key (session_view l s) i status body
  unfolding Idempotency.mark_completed
  record_completed i status body s t x h = l.updated _ _ _ s.db t.db x (
      with_db-ok g l db
        (λ h.
          g.updates h (where_equal "id" (Value.uuid_value i)) Model.idempotency_records
            (completed_columns status body))
        s t x h)

  abbrev pub store_laws : IsStore (gorm_repositories g u db)
  store_laws = record {
    view = session_view l;
    commits = λ A f s t a calls. within-ok g l db A f s t a (in_context-RunsOn g u db A f calls);
    rolls_back =
        λ A f s t e calls. within-err g l db A f s t e (in_context-RunsOn g u db A f calls);
    wallet_found = wallet_found;
    wallets_locked = wallets_locked;
    wallet_updated = wallet_updated;
    transaction_created = transaction_created;
    entries_created = entries_created;
    audit_created = audit_created;
    record_reserved = record_reserved;
    record_present = record_present;
    record_found = record_found;
    record_completed = record_completed;
    delivery_created = delivery_created;
  }
