-- ===== src/Reconciliation/Run/Effect.antt =====
-- What a reconciliation run reports and leaves in the tables.
use mathlib.Core.List.{Perm}
use go_hermes.Base.{String, some, List, ◌≡◌, sym, ap, ◌∙◌, subst}
use go_hermes.AppError.{ok, internal}
use go_hermes.Entity.{Uuid, Wallet, Transaction, LedgerEntry}
use go_hermes.Reconciliation.Check.{reconcile_state}
use go_hermes.Reconciliation.Report.{Report}
use go_hermes.Reconciliation.Run.{RunDraws, run, run_audit}
use go_hermes.Store.{Repositories, map_error, pure, ◌>>◌, >>=-ok, map_error-ok, some_or-ok, pure-ok}
use go_hermes.Store.Laws.{IsStore, IsTableReader}
use go_hermes.Store.View.{add_audit}
use go_hermes.UuidLib.{UuidLib}

module _ (r : Repositories) (l : IsStore r) (tl : IsTableReader r l.view) (u : UuidLib)
    (d : RunDraws) where
  reported :
      (actor : Uuid) (s t : r.Db) (report made : Report)
      → (map_error internal (r.audits.create (run_audit d actor made)) >> pure made) s
        ≡ (ok report, t)
      → (report ≡ made) × (l.view t ≡ add_audit (l.view s) (run_audit d actor report))
  reported actor s t report made h =
      let (o, s1, e1, h1) = >>=-ok _ _ s h in
      let (shown, last) = pure-ok h1 in
      (
        shown,
        ap l.view last
            ∙ (l.audit_created (run_audit d actor made) s s1 o (map_error-ok _ _ s e1)
                ∙ ap (λ k. add_audit (l.view s) (run_audit d actor k)) (sym shown)),
      )

  -- If a reconciliation run returns a report, then it is the report on all rows of the wallets, the
  -- transactions and the ledger, each in some order, and the run has changed no table but for one
  -- audit log entry, which names the caller and the report's figures.
  pub run-reports :
      (actor_user_id : String) (s t : r.Db) (report : Report)
      → run r u d actor_user_id s ≡ (ok report, t)
      → (actor : Uuid) × (ws : List Wallet) × (xs : List Transaction) × (es : List LedgerEntry)
        × (u.parse actor_user_id ≡ some actor)
        × Perm ws (l.view s).wallets
        × Perm xs (l.view s).transactions
        × Perm es (l.view s).ledger
        × (report ≡ reconcile_state u d.checked_at ws xs es)
        × (l.view t ≡ add_audit (l.view s) (run_audit d actor report))
  unfolding run
  run-reports actor_user_id s t report h =
      let (actor, s1, e1, h1) = >>=-ok _ _ s h in
      let (ws, s2, e2, h2) = >>=-ok _ _ s1 h1 in
      let (xs, s3, e3, h3) = >>=-ok _ _ s2 h2 in
      let (es, s4, e4, h4) = >>=-ok _ _ s3 h3 in
      let a = ap l.view (some_or-ok (u.parse actor_user_id) _ s e1).1 in
      let (b, pw) = tl.wallets_listed s1 s2 ws (map_error-ok _ _ s1 e2) in
      let (c, px) = tl.transactions_listed s2 s3 xs (map_error-ok _ _ s2 e3) in
      let (e, pe) = tl.entries_listed s3 s4 es (map_error-ok _ _ s3 e4) in
      let (shown, stored) =
        reported actor s4 t report (reconcile_state u d.checked_at ws xs es) h4 in
      (
        actor,
        ws,
        xs,
        es,
        (some_or-ok (u.parse actor_user_id) _ s e1).0,
        subst (λ v. Perm ws v.wallets) a pw,
        subst (λ v. Perm xs v.transactions) (b ∙ a) px,
        subst (λ v. Perm es v.ledger) (c ∙ (b ∙ a)) pe,
        shown,
        stored ∙ ap (λ v. add_audit v (run_audit d actor report)) (e ∙ (c ∙ (b ∙ a))),
      )
