-- ===== src/Gorm/Within.antt =====
-- WithinTransaction and dbFromContext of internal/repository/gorm.go: repository calls under the
-- context of a transaction run on the transaction's handle.
use mathlib.Core.Path.{fun_ext}
use go_hermes.Base.{ℕ, ◌==◌, some, ◌≡◌, refl, sym, ap, ◌∙◌, subst, inl, inr}
use go_hermes.AppError.{Result, ok}
use go_hermes.Store.{M, pure, ◌>>=◌, >>=-step, >>=-stops}
use go_hermes.Store.Calls.{IsCalls, IsClosed}
use go_hermes.TransactionUsecase.Common.Replay.{Result-cases}
use go_hermes.UuidLib.{UuidLib}
use go_hermes.Gorm.Handles.{IsHandleClosed, RunsOn}
use go_hermes.Gorm.Repositories.{gorm_repositories}
use go_hermes.Gorm.Session.{Gorm, Session, Context, with_db, db_from_context, in_context}
use go_hermes.Gorm.Query.{Model, Row, Query, Value, no_clauses, where_equal}
use go_hermes.Gorm.Users
use go_hermes.Gorm.Wallets
use go_hermes.Gorm.Transactions
use go_hermes.Gorm.Ledgers
use go_hermes.Gorm.Idempotency
use go_hermes.Gorm.Idempotency.{reserve_query, record_query, completed_columns}
use go_hermes.Gorm.Audits
use go_hermes.Gorm.Webhooks

module _ (g : Gorm) (tx : g.Handle) where
  abbrev context : Context g
  context = record { tx = some (some tx) }

  abbrev opened : g.Db → Session g
  opened t = record { ctx = context; db = t }

  -- A call that leaves the context of the transaction as it is.
  abbrev KeepsContext : {A : Type 0} → M (Session g) A → Type 0
  KeepsContext m = (t : g.Db) → (m (opened t)).1 ≡ opened (m (opened t)).1.db

  -- Under the context, a chain is the chain of its parts.
  in_context->>= :
      {A B : Type 0} (m : M (Session g) A) (f : A → M (Session g) B) (t : g.Db)
      → KeepsContext m
      → in_context g (m >>= f) tx t ≡ (in_context g m tx >>= λ a. in_context g (f a) tx) t
  unfolding in_context
  in_context->>= m f t kept = elim (Result-cases (m (opened t))) [
    | inl (a, w, e) ↦
        let at = sym (ap (λ p. p.1) e) ∙ (kept t ∙ ap (λ p. opened p.1.db) e) in
        ap (λ p. (p.0, p.1.db)) (>>=-step m f (opened t) w a e ∙ ap (f a) at)
        ∙ sym (
            >>=-step (λ s. ((m (opened s)).0, (m (opened s)).1.db)) (λ b. in_context g (f b) tx) t
              w.db a (ap (λ p. (p.0, p.1.db)) e))
    | inr (x, w, e) ↦
        ap (λ p. (p.0, p.1.db)) (>>=-stops m f (opened t) w x e)
        ∙ sym (
            >>=-stops (λ s. ((m (opened s)).0, (m (opened s)).1.db)) (λ b. in_context g (f b) tx) t
              w.db x (ap (λ p. (p.0, p.1.db)) e))
  ]

  >>=-KeepsContext :
      {A B : Type 0} (m : M (Session g) A) (f : A → M (Session g) B)
      → KeepsContext m
      → ((a : A) → KeepsContext (f a))
      → KeepsContext (m >>= f)
  >>=-KeepsContext m f first rest t = elim (Result-cases (m (opened t))) [
    | inl (a, w, e) ↦
        let at = sym (ap (λ p. p.1) e) ∙ (first t ∙ ap (λ p. opened p.1.db) e) in
        subst (λ p. p.1 ≡ opened p.1.db) (sym (>>=-step m f (opened t) w a e ∙ ap (f a) at))
          (rest a w.db)
    | inr (x, w, e) ↦
        subst (λ p. p.1 ≡ opened p.1.db) (sym (>>=-stops m f (opened t) w x e))
          (sym (ap (λ p. p.1) e) ∙ (first t ∙ ap (λ p. opened p.1.db) e))
  ]

  module _ (u : UuidLib) (db : g.Handle) (P : (A : Type 0) → M g.Db A → Type 0)
      (c : IsHandleClosed g tx P) where
    -- The call under the transaction's context has the property, and keeps the context.
    abbrev Inside : (A : Type 0) → M (Session g) A → Type 0
    Inside A m = P A (in_context g m tx) × KeepsContext m

    Inside-statement :
        {A : Type 0} (f : g.Handle → M g.Db A) → P A (f tx) → Inside A (with_db g db f)
    unfolding with_db in_context db_from_context
    Inside-statement f p = (p, λ t. refl)

    Inside-returned : {A : Type 0} (x : Result A) → Inside A (λ s. (x, s))
    unfolding in_context
    Inside-returned x = (c.returned x, λ t. refl)

    Inside-chained :
        {A B : Type 0} (m : M (Session g) A) (f : A → M (Session g) B)
        → Inside A m
        → ((a : A) → Inside B (f a))
        → Inside B (m >>= f)
    Inside-chained {A} {B} m f (p, kept) rest = (
      subst (P B) (sym (fun_ext λ t. in_context->>= m f t kept))
          (c.chained (in_context g m tx) (λ a. in_context g (f a) tx) p λ a. (rest a).0),
      >>=-KeepsContext m f kept λ a. (rest a).1,
    )

    Inside-attempted :
        {A : Type 0} (m : M (Session g) A)
        → Inside A m
        → Inside (Result A) (λ s. (ok (m s).0, (m s).1))
    unfolding in_context
    Inside-attempted m (p, kept) = (c.attempted (in_context g m tx) p, kept)

    Inside-first : (q : Query) (k : Model) → Inside (Row k) (with_db g db λ h. g.first h q k)
    Inside-first q k = Inside-statement (λ h. g.first h q k) (c.first_read q k)

    Inside-created :
        {B : Type 0} (q : Query) (k : Model) (x : Row k) (f : Row k × ℕ → B)
        → Inside B (with_db g db λ h. g.create h q k x >>= λ y. pure (f y))
    Inside-created q k x f =
        Inside-statement (λ h. g.create h q k x >>= λ y. pure (f y))
          (c.chained (g.create tx q k x) (λ y. pure (f y)) (c.created q k x)
            λ y. c.returned (ok (f y)))

    Inside-calls : IsClosed (gorm_repositories g u db) Inside
    unfolding Users.create Users.get_by_email Wallets.create Wallets.get_by_user_id
        Wallets.lock_by_ids Wallets.update Transactions.create Ledgers.create_many Audits.create
        Idempotency.reserve Idempotency.get Idempotency.mark_completed Webhooks.create
    Inside-calls = record {
      returned = Inside-returned;
      chained = Inside-chained;
      attempted = Inside-attempted;
      user_found = λ email. Inside-first (where_equal "email" (Value.text_value email)) Model.users;
      user_created = λ x. Inside-created no_clauses Model.users x (λ y. y.0);
      wallet_created = λ x. Inside-created no_clauses Model.wallets x (λ y. y.0);
      wallet_found = λ i. Inside-first (where_equal "user_id" (Value.uuid_value i)) Model.wallets;
      wallets_locked = λ is.
          let q = Wallets.lock_query (Wallets.sort_ids u is) in
          Inside-statement (λ h. g.find h q Model.wallets) (c.rows_read q Model.wallets);
      wallet_updated =
          λ w. Inside-statement (λ h. g.save h Model.wallets w) (c.saved Model.wallets w);
      transaction_created = λ x. Inside-created no_clauses Model.transactions x (λ y. y.0);
      entries_created = λ es.
          Inside-statement (λ h. g.create_many h Model.ledger_entries es >>= λ y. pure tt)
            (c.chained (g.create_many tx Model.ledger_entries es) (λ y. pure tt)
              (c.many_created Model.ledger_entries es) λ y. c.returned (ok tt));
      audit_created = λ a. Inside-created no_clauses Model.audit_logs a (λ y. tt);
      record_reserved =
          λ x. Inside-created reserve_query Model.idempotency_records x (λ y. y.1 == 1);
      record_found =
          λ key i endpoint. Inside-first (record_query key i endpoint) Model.idempotency_records;
      record_completed = λ i status body.
          let q = where_equal "id" (Value.uuid_value i) in
          let sets = completed_columns status body in
          Inside-statement (λ h. g.updates h q Model.idempotency_records sets)
            (c.updated q Model.idempotency_records sets);
      delivery_created = λ x. Inside-created no_clauses Model.webhook_deliveries x (λ y. y.0);
    }

-- Repository calls under the context of a transaction run on its handle.
pub in_context-RunsOn :
    (g : Gorm) (u : UuidLib) (db : g.Handle) (A : Type 0) (f : M (Session g) A)
    → IsCalls (gorm_repositories g u db) A f
    → (tx : g.Handle) → RunsOn g tx A (in_context g f tx)
in_context-RunsOn g u db A f calls tx P c =
    (calls (Inside g tx u db P c) (Inside-calls g tx u db P c)).0
